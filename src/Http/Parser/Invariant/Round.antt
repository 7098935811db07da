-- ===== src/Http/Parser/Invariant/Round.antt =====
-- The invariant through one round of the loop.
use beast.Base.{ℕ, ◌<◌, ◌≡◌, refl, Bool, Bytes, true, false, arith}
use beast.Http.Parser.Body.{at_body_identity_eof}
use beast.Http.Parser.Calls.{keep_alive, reset}
use beast.Http.Parser.Invariant.Defs.{CbOk, IsValid, OutcomeOk, Keeps-refl, died, by_if}
use beast.Http.Parser.Invariant.StartLine.{
  at_req_start-OutcomeOk, at_req_method0-OutcomeOk, at_req_method-OutcomeOk, at_req_url0-OutcomeOk,
  at_req_url-OutcomeOk, at_req_lf-OutcomeOk, at_res_start-OutcomeOk, at_res_reason0-OutcomeOk,
  at_res_reason-OutcomeOk,
}
use beast.Http.Parser.Invariant.Headers.{
  at_header_name0-OutcomeOk, at_res_line_done-OutcomeOk, at_header_name-OutcomeOk,
  at_header_value0-OutcomeOk, at_header_value-OutcomeOk, at_header_value0_almost_done-OutcomeOk,
  at_header_value_almost_done-OutcomeOk, at_header_value_unfold-OutcomeOk,
}
use beast.Http.Parser.Invariant.Body.{
  at_complete-OutcomeOk, at_headers_done-OutcomeOk, at_headers_almost_done-OutcomeOk,
  at_body_pause-OutcomeOk, at_body_identity-OutcomeOk, at_body_identity0-OutcomeOk,
  at_body_identity_eof0-OutcomeOk,
}
use beast.Http.Parser.Invariant.Chunks.{
  at_chunk_size0-OutcomeOk, at_chunk_size-OutcomeOk, at_chunk_ext_name0-OutcomeOk,
  at_chunk_ext_name-OutcomeOk, at_chunk_ext_val-OutcomeOk, at_chunk_size_lf-OutcomeOk,
  at_chunk_data0-OutcomeOk, at_chunk_data-OutcomeOk, at_chunk_data_cr-OutcomeOk,
}
use beast.Http.Parser.Types.{
  State, dead, closed_complete, req_start, req_method0, req_method, req_url0, req_url, req_http,
  req_http_h, req_http_ht, req_http_htt, req_http_http, req_major, req_dot, req_minor, req_cr,
  req_lf, res_start, res_h, res_ht, res_htt, res_http, res_major, res_dot, res_minor, res_space_1,
  res_status0, res_status1, res_status2, res_space_2, res_reason0, res_reason, res_line_lf,
  res_line_done, header_name0, header_name, header_value0, header_value, header_value0_lf,
  header_value0_almost_done, header_value_lf, header_value_almost_done, header_value_unfold,
  headers_almost_done, body_pause, headers_done, body_identity0, body_identity, body_identity_eof0,
  body_identity_eof, chunk_size0, chunk_size, chunk_ext_name0, chunk_ext_name, chunk_ext_val,
  chunk_size_lf, chunk_data0, chunk_data, chunk_data_cr, chunk_data_lf, complete, restart,
  connection_closed, bad_version, bad_status, bad_crlf, Derived, Parser,
}
use beast.Http.Parser.Write.{at_state, at_restart}
use beast.Http.Parser.Invariant.OneChar.{
  failed, expect-OutcomeOk, major_digit-OutcomeOk, minor_digit-OutcomeOk, status_digit-OutcomeOk,
}

pub reset-IsValid :
    {S : Type 0} (is_request : Bool) (d : Derived S) (p : Parser S)
    → IsValid p
    → IsValid (reset is_request d p)
unfolding reset
reset-IsValid true d p v = record {
  cb_ok = refl;
  pos_ok = v.pos_ok;
  length_fits = v.length_fits;
  length_ok = tt;
}
reset-IsValid false d p v = record {
  cb_ok = refl;
  pos_ok = v.pos_ok;
  length_fits = v.length_fits;
  length_ok = tt;
}

module _ {S : Type 0} (is_request : Bool) (d : Derived S) where
  at_restart-OutcomeOk :
      (p : Parser S) (ch : ℕ) (rest : Bytes)
      → IsValid p
      → OutcomeOk rest (at_restart is_request d p ch)
  unfolding at_restart reset
  at_restart-OutcomeOk p ch rest v =
      by_if (keep_alive is_request d p) _ _ rest
        (by_if is_request _ _ rest
          (at_req_start-OutcomeOk is_request d _ ch rest (reset-IsValid is_request d p v))
          (at_res_start-OutcomeOk is_request d _ ch rest (reset-IsValid is_request d p v)))
        (failed (record p { s = dead }) rest connection_closed (died v (Keeps-refl p)))

  -- One case of the switch keeps the invariant.
  pub at_state-OutcomeOk :
      (s : State) (p : Parser S) (ch : ℕ) (rest : Bytes)
      → IsValid p
      → p.s ≡ s
      → CbOk s p.cb
      → ch < 256
      → OutcomeOk rest (at_state is_request d s p ch rest)
  unfolding at_state at_body_identity_eof
  at_state-OutcomeOk dead p ch rest v e c o = failed p rest connection_closed v
  at_state-OutcomeOk closed_complete p ch rest v e c o = failed p rest connection_closed v
  at_state-OutcomeOk req_start p ch rest v e c o = at_req_start-OutcomeOk is_request d p ch rest v
  at_state-OutcomeOk req_method0 p ch rest v e c o =
      at_req_method0-OutcomeOk is_request d p ch rest v c
  at_state-OutcomeOk req_method p ch rest v e c o =
      at_req_method-OutcomeOk is_request d p ch rest v c
  at_state-OutcomeOk req_url0 p ch rest v e c o = at_req_url0-OutcomeOk is_request d p ch rest v c
  at_state-OutcomeOk req_url p ch rest v e c o = at_req_url-OutcomeOk is_request d p ch rest v c
  at_state-OutcomeOk req_http p ch rest v e c o =
      expect-OutcomeOk b'H' bad_version req_http_h p ch rest v c refl (λ n. tt)
  at_state-OutcomeOk req_http_h p ch rest v e c o =
      expect-OutcomeOk b'T' bad_version req_http_ht p ch rest v c refl (λ n. tt)
  at_state-OutcomeOk req_http_ht p ch rest v e c o =
      expect-OutcomeOk b'T' bad_version req_http_htt p ch rest v c refl (λ n. tt)
  at_state-OutcomeOk req_http_htt p ch rest v e c o =
      expect-OutcomeOk b'P' bad_version req_http_http p ch rest v c refl (λ n. tt)
  at_state-OutcomeOk req_http_http p ch rest v e c o =
      expect-OutcomeOk b'/' bad_version req_major p ch rest v c refl (λ n. tt)
  at_state-OutcomeOk req_major p ch rest v e c o =
      major_digit-OutcomeOk req_dot p ch rest v c refl (λ n. tt)
  at_state-OutcomeOk req_dot p ch rest v e c o =
      expect-OutcomeOk b'.' bad_version req_minor p ch rest v c refl (λ n. tt)
  at_state-OutcomeOk req_minor p ch rest v e c o =
      minor_digit-OutcomeOk req_cr p ch rest v c refl (λ n. tt)
  at_state-OutcomeOk req_cr p ch rest v e c o =
      expect-OutcomeOk b'\r' bad_version req_lf p ch rest v c refl (λ n. tt)
  at_state-OutcomeOk req_lf p ch rest v e c o = at_req_lf-OutcomeOk is_request d p ch rest v c
  at_state-OutcomeOk res_start p ch rest v e c o = at_res_start-OutcomeOk is_request d p ch rest v
  at_state-OutcomeOk res_h p ch rest v e c o =
      expect-OutcomeOk b'T' bad_version res_ht p ch rest v c refl (λ n. tt)
  at_state-OutcomeOk res_ht p ch rest v e c o =
      expect-OutcomeOk b'T' bad_version res_htt p ch rest v c refl (λ n. tt)
  at_state-OutcomeOk res_htt p ch rest v e c o =
      expect-OutcomeOk b'P' bad_version res_http p ch rest v c refl (λ n. tt)
  at_state-OutcomeOk res_http p ch rest v e c o =
      expect-OutcomeOk b'/' bad_version res_major p ch rest v c refl (λ n. tt)
  at_state-OutcomeOk res_major p ch rest v e c o =
      major_digit-OutcomeOk res_dot p ch rest v c refl (λ n. tt)
  at_state-OutcomeOk res_dot p ch rest v e c o =
      expect-OutcomeOk b'.' bad_version res_minor p ch rest v c refl (λ n. tt)
  at_state-OutcomeOk res_minor p ch rest v e c o =
      minor_digit-OutcomeOk res_space_1 p ch rest v c refl (λ n. tt)
  at_state-OutcomeOk res_space_1 p ch rest v e c o =
      expect-OutcomeOk b' ' bad_version res_status0 p ch rest v c refl (λ n. tt)
  at_state-OutcomeOk res_status0 p ch rest v e c o =
      status_digit-OutcomeOk res_status1 0 p ch rest v c refl (λ n. tt)
  at_state-OutcomeOk res_status1 p ch rest v e c o =
      status_digit-OutcomeOk res_status2 p.status_code p ch rest v c refl (λ n. tt)
  at_state-OutcomeOk res_status2 p ch rest v e c o =
      status_digit-OutcomeOk res_space_2 p.status_code p ch rest v c refl (λ n. tt)
  at_state-OutcomeOk res_space_2 p ch rest v e c o =
      expect-OutcomeOk b' ' bad_status res_reason0 p ch rest v c refl (λ n. tt)
  at_state-OutcomeOk res_reason0 p ch rest v e c o =
      at_res_reason0-OutcomeOk is_request d p ch rest v c
  at_state-OutcomeOk res_reason p ch rest v e c o =
      at_res_reason-OutcomeOk is_request d p ch rest v c
  at_state-OutcomeOk res_line_lf p ch rest v e c o =
      expect-OutcomeOk b'\n' bad_crlf res_line_done p ch rest v c refl (λ n. tt)
  at_state-OutcomeOk res_line_done p ch rest v e c o =
      at_res_line_done-OutcomeOk is_request d p ch rest v c
  at_state-OutcomeOk header_name0 p ch rest v e c o =
      at_header_name0-OutcomeOk is_request d p ch rest v c
  at_state-OutcomeOk header_name p ch rest v e c o =
      at_header_name-OutcomeOk is_request d p ch rest v e
  at_state-OutcomeOk header_value0 p ch rest v e c o =
      at_header_value0-OutcomeOk is_request d p ch rest v e
  at_state-OutcomeOk header_value p ch rest v e c o =
      at_header_value-OutcomeOk is_request d p ch rest v e
  at_state-OutcomeOk header_value0_lf p ch rest v e c o =
      expect-OutcomeOk b'\n' bad_crlf header_value0_almost_done p ch rest v c refl (λ n. tt)
  at_state-OutcomeOk header_value0_almost_done p ch rest v e c o =
      at_header_value0_almost_done-OutcomeOk is_request d p ch rest v c
  at_state-OutcomeOk header_value_lf p ch rest v e c o =
      expect-OutcomeOk b'\n' bad_crlf header_value_almost_done p ch rest v c refl (λ n. tt)
  at_state-OutcomeOk header_value_almost_done p ch rest v e c o =
      at_header_value_almost_done-OutcomeOk is_request d p ch rest v c
  at_state-OutcomeOk header_value_unfold p ch rest v e c o =
      at_header_value_unfold-OutcomeOk is_request d p ch rest v c
  at_state-OutcomeOk headers_almost_done p ch rest v e c o =
      at_headers_almost_done-OutcomeOk is_request d p ch rest v c
  at_state-OutcomeOk body_pause p ch rest v e c o = at_body_pause-OutcomeOk is_request d p rest v e
  at_state-OutcomeOk headers_done p ch rest v e c o =
      at_headers_done-OutcomeOk is_request d _ 1 p rest v c (omega arith)
        (λ s' w t. (w, omega arith))
  at_state-OutcomeOk body_identity0 p ch rest v e c o =
      at_body_identity0-OutcomeOk is_request d p ch rest v e c
  at_state-OutcomeOk body_identity p ch rest v e c o =
      at_body_identity-OutcomeOk is_request d p ch rest v e
  at_state-OutcomeOk body_identity_eof0 p ch rest v e c o =
      at_body_identity_eof0-OutcomeOk is_request d p rest v c
  at_state-OutcomeOk body_identity_eof p ch rest v e c o = (v, omega arith)
  at_state-OutcomeOk chunk_size0 p ch rest v e c o = at_chunk_size0-OutcomeOk p ch rest v e o
  at_state-OutcomeOk chunk_size p ch rest v e c o = at_chunk_size-OutcomeOk p ch rest v e o
  at_state-OutcomeOk chunk_ext_name0 p ch rest v e c o = at_chunk_ext_name0-OutcomeOk p ch rest v e
  at_state-OutcomeOk chunk_ext_name p ch rest v e c o = at_chunk_ext_name-OutcomeOk p ch rest v e
  at_state-OutcomeOk chunk_ext_val p ch rest v e c o = at_chunk_ext_val-OutcomeOk p ch rest v e
  at_state-OutcomeOk chunk_size_lf p ch rest v e c o = at_chunk_size_lf-OutcomeOk p ch rest v e
  at_state-OutcomeOk chunk_data0 p ch rest v e c o =
      at_chunk_data0-OutcomeOk is_request d p ch rest v e
  at_state-OutcomeOk chunk_data p ch rest v e c o = at_chunk_data-OutcomeOk p ch rest v e
  at_state-OutcomeOk chunk_data_cr p ch rest v e c o =
      at_chunk_data_cr-OutcomeOk is_request d p ch rest v
  at_state-OutcomeOk chunk_data_lf p ch rest v e c o =
      expect-OutcomeOk b'\n' bad_crlf chunk_size0 p ch rest v c refl (λ n. tt)
  at_state-OutcomeOk complete p ch rest v e c o =
      at_complete-OutcomeOk is_request d 1 p rest v.pos_ok v.length_fits (omega arith)
  at_state-OutcomeOk restart p ch rest v e c o = at_restart-OutcomeOk p ch rest v
