-- ===== src/Http/Parser/Write.antt =====
-- `write`: the switch on the state, the loop over a buffer, and the calls made of it.
use beast.Base.{
  ℕ, zero, suc, ◌+◌, Bool, true, false, not, ◌&&◌, ◌==◌, if◌then◌else◌, Option, none, some, Bytes,
  List, [], ◌∷◌, ◌++◌, length,
}
use beast.Http.Parser.Body.{
  at_complete, at_headers_done, at_headers_almost_done, at_body_pause, at_body_identity0,
  at_body_identity, at_body_identity_eof0, at_body_identity_eof,
}
use beast.Http.Parser.Calls.{is_set, complete_called, invoke, keep_alive, reset}
use beast.Http.Parser.Chunks.{
  at_chunk_size0, at_chunk_size, at_chunk_ext_name0, at_chunk_ext_name, at_chunk_ext_val,
  at_chunk_size_lf, at_chunk_data0, at_chunk_data, at_chunk_data_cr,
}
use beast.Http.Parser.Headers.{
  at_res_line_done, at_header_name0, at_header_name, at_header_value0, at_header_value,
  at_header_value0_almost_done, at_header_value_almost_done, at_header_value_unfold,
}
use beast.Http.Parser.Outcome.{Outcome, next, stay, ret, err, expect}
use beast.Http.Parser.StartLine.{
  major_digit, minor_digit, status_digit, at_req_start, at_req_method0, at_req_method, at_req_url0,
  at_req_url, at_req_lf, at_res_start, at_res_reason0, at_res_reason,
}
use beast.Http.Parser.Types.{
  State, dead, closed_complete, req_start, req_method0, req_method, req_url0, req_url, req_http,
  req_http_h, req_http_ht, req_http_htt, req_http_http, req_major, req_dot, req_minor, req_cr,
  req_lf, res_start, res_h, res_ht, res_htt, res_http, res_major, res_dot, res_minor, res_space_1,
  res_status0, res_status1, res_status2, res_space_2, res_reason0, res_reason, res_line_lf,
  res_line_done, header_name0, header_name, header_value0, header_value, header_value0_lf,
  header_value0_almost_done, header_value_lf, header_value_almost_done, header_value_unfold,
  headers_almost_done, body_pause, headers_done, body_identity0, body_identity, body_identity_eof0,
  body_identity_eof, chunk_size0, chunk_size, chunk_ext_name0, chunk_ext_name, chunk_ext_val,
  chunk_size_lf, chunk_data0, chunk_data, chunk_data_cr, chunk_data_lf, complete, restart,
  connection_closed, bad_version, bad_status, bad_crlf, short_read, Callback, Derived, Parser,
}

abbrev pub is_dead : State → Bool
is_dead dead = true
is_dead _ = false

module _ {S : Type 0} (is_request : Bool) (d : Derived S) where
  -- `s_restart`, with the state that its `goto redo` leads to.
  unfoldable pub at_restart : Parser S → ℕ → Outcome S
  unfolding keep_alive reset
  at_restart p ch =
      if keep_alive is_request d p
      then (if is_request
          then at_req_start is_request d (reset is_request d p) ch
          else at_res_start is_request d (reset is_request d p) ch)
      else err (record p { s = dead }) connection_closed

  -- The switch. A `goto redo` is a call of the case it leads to.
  unfoldable pub at_state : State → Parser S → ℕ → Bytes → Outcome S
  at_state dead p ch rest = err p connection_closed
  at_state closed_complete p ch rest = err p connection_closed
  at_state req_start p ch rest = at_req_start is_request d p ch
  at_state req_method0 p ch rest = at_req_method0 is_request d p ch
  at_state req_method p ch rest = at_req_method is_request d p ch
  at_state req_url0 p ch rest = at_req_url0 is_request d p ch
  at_state req_url p ch rest = at_req_url is_request d p ch
  at_state req_http p ch rest = expect b'H' bad_version req_http_h p ch
  at_state req_http_h p ch rest = expect b'T' bad_version req_http_ht p ch
  at_state req_http_ht p ch rest = expect b'T' bad_version req_http_htt p ch
  at_state req_http_htt p ch rest = expect b'P' bad_version req_http_http p ch
  at_state req_http_http p ch rest = expect b'/' bad_version req_major p ch
  at_state req_major p ch rest = major_digit req_dot p ch
  at_state req_dot p ch rest = expect b'.' bad_version req_minor p ch
  at_state req_minor p ch rest = minor_digit req_cr p ch
  at_state req_cr p ch rest = expect b'\r' bad_version req_lf p ch
  at_state req_lf p ch rest = at_req_lf is_request d p ch
  at_state res_start p ch rest = at_res_start is_request d p ch
  at_state res_h p ch rest = expect b'T' bad_version res_ht p ch
  at_state res_ht p ch rest = expect b'T' bad_version res_htt p ch
  at_state res_htt p ch rest = expect b'P' bad_version res_http p ch
  at_state res_http p ch rest = expect b'/' bad_version res_major p ch
  at_state res_major p ch rest = major_digit res_dot p ch
  at_state res_dot p ch rest = expect b'.' bad_version res_minor p ch
  at_state res_minor p ch rest = minor_digit res_space_1 p ch
  at_state res_space_1 p ch rest = expect b' ' bad_version res_status0 p ch
  at_state res_status0 p ch rest = status_digit res_status1 0 p ch
  at_state res_status1 p ch rest = status_digit res_status2 p.status_code p ch
  at_state res_status2 p ch rest = status_digit res_space_2 p.status_code p ch
  at_state res_space_2 p ch rest = expect b' ' bad_status res_reason0 p ch
  at_state res_reason0 p ch rest = at_res_reason0 is_request d p ch
  at_state res_reason p ch rest = at_res_reason is_request d p ch
  at_state res_line_lf p ch rest = expect b'\n' bad_crlf res_line_done p ch
  at_state res_line_done p ch rest = at_res_line_done is_request d p ch
  at_state header_name0 p ch rest = at_header_name0 is_request d p ch
  at_state header_name p ch rest = at_header_name is_request d p ch
  at_state header_value0 p ch rest = at_header_value0 is_request d p ch
  at_state header_value p ch rest = at_header_value is_request d p ch
  at_state header_value0_lf p ch rest = expect b'\n' bad_crlf header_value0_almost_done p ch
  at_state header_value0_almost_done p ch rest = at_header_value0_almost_done is_request d p ch
  at_state header_value_lf p ch rest = expect b'\n' bad_crlf header_value_almost_done p ch
  at_state header_value_almost_done p ch rest = at_header_value_almost_done is_request d p ch
  at_state header_value_unfold p ch rest = at_header_value_unfold is_request d p ch
  at_state headers_almost_done p ch rest = at_headers_almost_done is_request d p ch
  at_state body_pause p ch rest = at_body_pause is_request d p
  at_state headers_done p ch rest = at_headers_done is_request d (λ q. next q 0) 1 p
  at_state body_identity0 p ch rest = at_body_identity0 is_request d p ch rest
  at_state body_identity p ch rest = at_body_identity is_request d p ch rest
  at_state body_identity_eof0 p ch rest = at_body_identity_eof0 is_request d p rest
  at_state body_identity_eof p ch rest = at_body_identity_eof is_request d p rest
  at_state chunk_size0 p ch rest = at_chunk_size0 p ch
  at_state chunk_size p ch rest = at_chunk_size p ch
  at_state chunk_ext_name0 p ch rest = at_chunk_ext_name0 p ch
  at_state chunk_ext_name p ch rest = at_chunk_ext_name p ch
  at_state chunk_ext_val p ch rest = at_chunk_ext_val p ch
  at_state chunk_size_lf p ch rest = at_chunk_size_lf p ch
  at_state chunk_data0 p ch rest = at_chunk_data0 is_request d p ch rest
  at_state chunk_data p ch rest = at_chunk_data p ch rest
  at_state chunk_data_cr p ch rest = at_chunk_data_cr is_request d p ch
  at_state chunk_data_lf p ch rest = expect b'\n' bad_crlf chunk_size0 p ch
  at_state complete p ch rest = at_complete is_request d 1 p
  at_state restart p ch rest = at_restart p ch

  -- One character of the buffer. No case that is met after a `stay` is another `stay`.
  abbrev pub settle : ℕ → Bytes → Outcome S → Outcome S
  settle ch rest (next p n) = next p n
  settle ch rest (ret p n) = ret p n
  settle ch rest (stay p) = at_state p.s p ch rest

  unfoldable pub round : Parser S → ℕ → Bytes → Outcome S
  unfolding at_state
  round p ch rest = settle ch rest (at_state p.s p ch rest)

  -- Behind the loop: the piece that is not finished is handed on.
  abbrev pub end_piece : Option Callback → Parser S → Parser S
  end_piece none p = p
  end_piece (some c) p =
      let q = invoke is_request d c p p.piece in if is_set q.ec then record q { s = dead } else q

  -- The loop, with the bytes used so far and the number of bytes that a case has taken in advance.
  unfoldable pub loop : ℕ → Parser S → ℕ → Bytes → Parser S × ℕ
  unfolding round
  loop used p n [] = (end_piece p.cb p, used)
  loop used p (suc n) (ch ∷ rest) = loop (used + 1) (record p { piece = p.piece ++ ch ∷ [] }) n rest
  loop used p zero (ch ∷ rest) = elim (round p ch rest) [
    | next q n ↦ loop (used + 1) (record q { piece = q.piece ++ ch ∷ [] }) n rest
    | ret q n ↦ (q, used + n)
    | stay q ↦ (q, used)
  ]

  -- `write(const_buffer, ec)`; the error code that the caller passes is the parser's `ec`.
  unfoldable pub write_buffer : Parser S → Bytes → Parser S × ℕ
  unfolding loop
  write_buffer p buf =
      if length buf == 0 && not (is_dead p.s)
      then (p, 0)
      else loop 0 (record p { piece = [] }) 0 buf

  -- `write(ConstBufferSequence, ec)`
  unfoldable pub write : Parser S → List Bytes → Parser S × ℕ
  unfolding write_buffer
  write p [] = (p, 0)
  write p (b ∷ bs) =
      let (q, n) = write_buffer p b in
      let (q', n') = write q bs in if is_set q.ec then (q, n) else (q', n + n')

  abbrev pub eof_complete : Parser S → Parser S
  eof_complete p =
      let q = complete_called is_request d (record p { cb = none }) in
      if is_set q.ec then record q { s = dead } else record q { s = closed_complete }

  abbrev pub eof_at : State → Parser S → Parser S
  eof_at restart p = record p { s = closed_complete }
  eof_at dead p = p
  eof_at closed_complete p = p
  eof_at body_identity_eof0 p = eof_complete p
  eof_at body_identity_eof p = eof_complete p
  eof_at _ p = record p { s = dead; ec = some short_read }

  unfoldable pub write_eof : Parser S → Parser S
  write_eof p = eof_at p.s p
