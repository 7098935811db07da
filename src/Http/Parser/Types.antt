-- ===== src/Http/Parser/Types.antt =====
-- The enumerations of basic_parser_v1.hpp and detail/basic_parser_v1.hpp, the parser's members, and
-- the interface that it expects of the class derived from it.
use beast.Base.{ℕ, ◌-◌, ◌^◌, Bool, false, Option, Bytes}

-- `parser_base::state`; the prefix `s_` is dropped.
pub data State : Type 0 where
  dead : State
  req_start req_method0 req_method req_url0 req_url : State
  req_http req_http_h req_http_ht req_http_htt req_http_http : State
  req_major req_dot req_minor req_cr req_lf : State
  res_start res_h res_ht res_htt res_http : State
  res_major res_dot res_minor res_space_1 : State
  res_status0 res_status1 res_status2 res_space_2 : State
  res_reason0 res_reason res_line_lf res_line_done : State
  header_name0 header_name : State
  header_value0_lf header_value0_almost_done header_value0 : State
  header_value header_value_lf header_value_almost_done header_value_unfold : State
  headers_almost_done headers_done : State
  chunk_size0 chunk_size chunk_ext_name0 chunk_ext_name chunk_ext_val chunk_size_lf : State
  chunk_data0 chunk_data chunk_data_cr chunk_data_lf : State
  body_pause body_identity0 body_identity body_identity_eof0 body_identity_eof : State
  complete restart closed_complete : State

-- `field_state`
pub data FieldState : Type 0 where
  h_general h_c h_co h_con : FieldState
  h_matching_connection h_matching_proxy_connection h_matching_content_length : FieldState
  h_matching_transfer_encoding h_matching_upgrade : FieldState
  h_connection h_content_length0 h_content_length h_content_length_ows : FieldState
  h_transfer_encoding h_upgrade : FieldState
  h_matching_transfer_encoding_chunked h_matching_transfer_encoding_general : FieldState
  h_matching_connection_keep_alive h_matching_connection_close : FieldState
  h_matching_connection_upgrade : FieldState
  h_transfer_encoding_chunked h_transfer_encoding_chunked_ows : FieldState
  h_connection_keep_alive h_connection_keep_alive_ows : FieldState
  h_connection_close h_connection_close_ows : FieldState
  h_connection_upgrade h_connection_upgrade_ows : FieldState
  h_connection_token h_connection_token_ows : FieldState

-- `parse_flag`, a set of bits.
pub record Flags : Type 0 where
  pub chunked : Bool
  pub connection_keep_alive : Bool
  pub connection_close : Bool
  pub connection_upgrade : Bool
  pub trailing : Bool
  pub upgrade : Bool
  pub skipbody : Bool
  pub contentlength : Bool

abbrev pub no_flags : Flags
no_flags = record {
  chunked = false;
  connection_keep_alive = false;
  connection_close = false;
  connection_upgrade = false;
  trailing = false;
  upgrade = false;
  skipbody = false;
  contentlength = false;
}

-- `parse_error`, and any error that a callback may set.
pub data ErrorCode : Type 0 where
  connection_closed bad_method bad_uri bad_version bad_crlf bad_status bad_reason : ErrorCode
  bad_field bad_value bad_content_length illegal_content_length : ErrorCode
  invalid_chunk_size invalid_ext_name invalid_ext_val : ErrorCode
  headers_too_big body_too_big short_read : ErrorCode
  other : ℕ → ErrorCode

pub data BodyWhat : Type 0 where
  normal skip upgrade pause : BodyWhat

-- The member functions that `cb_` may point to.
pub data Callback : Type 0 where
  call_on_method call_on_uri call_on_reason call_on_field call_on_value call_on_body : Callback

abbrev pub no_content_length : ℕ
no_content_length = 2 ^ 64 - 1

-- What the derived class provides. Each callback is given the error code by reference.
pub record Derived (S : Type 0) : Type 0 where
  pub on_start : S → Option ErrorCode → S × Option ErrorCode
  pub on_method : Bytes → S → Option ErrorCode → S × Option ErrorCode
  pub on_uri : Bytes → S → Option ErrorCode → S × Option ErrorCode
  pub on_reason : Bytes → S → Option ErrorCode → S × Option ErrorCode
  pub on_request : S → Option ErrorCode → S × Option ErrorCode
  pub on_response : S → Option ErrorCode → S × Option ErrorCode
  pub on_field : Bytes → S → Option ErrorCode → S × Option ErrorCode
  pub on_value : Bytes → S → Option ErrorCode → S × Option ErrorCode
  pub on_headers : ℕ → S → Option ErrorCode → S × Option ErrorCode
  pub on_body_what : ℕ → S → Option ErrorCode → BodyWhat × S × Option ErrorCode
  pub on_body : Bytes → S → Option ErrorCode → S × Option ErrorCode
  pub on_complete : S → Option ErrorCode → S × Option ErrorCode

-- The members of `basic_parser_v1`, with the derived object `impl`, and the two locals of `write`
-- that its lambdas share: the error code and the bytes from `begin` up to `p`.
pub record Parser (S : Type 0) : Type 0 where
  pub h_max : ℕ
  pub h_left : ℕ
  pub b_max : ℕ
  pub b_left : ℕ
  pub content_length : ℕ
  pub cb : Option Callback
  pub s : State
  pub flags : Flags
  pub fs : FieldState
  pub pos : ℕ
  pub http_major : ℕ
  pub http_minor : ℕ
  pub status_code : ℕ
  pub upgrade : Bool
  pub impl : S
  pub ec : Option ErrorCode
  pub piece : Bytes
