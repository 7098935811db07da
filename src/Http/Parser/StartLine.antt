-- ===== src/Http/Parser/StartLine.antt =====
-- The cases of `write` for the request line and the status line.
use beast.Base.{ℕ, ◌+◌, ◌-◌, ◌*◌, Bool, not, ◌==◌, if◌then◌else◌, none, some}
use beast.Http.Chars.{is_digit, is_tchar, is_text}
use beast.Http.Parser.Calls.{start_called, request_called, run_cb}
use beast.Http.Parser.Outcome.{Outcome, next, err, enter, unless_set, unless_failed}
use beast.Http.Parser.Types.{
  State, req_method, req_url0, req_url, req_http, req_method0, res_h, res_reason, res_line_lf,
  header_name0, bad_method, bad_uri, bad_version, bad_crlf, bad_status, bad_reason, call_on_method,
  call_on_uri, call_on_reason, Derived, Parser, no_flags, no_content_length,
}

module _ {S : Type 0} where
  -- `http_major_ = ch - '0'` and the like, behind the test for a digit.
  unfoldable pub major_digit : State → Parser S → ℕ → Outcome S
  unfolding is_digit
  major_digit s p ch =
      if not (is_digit ch) then err p bad_version else enter (record p { http_major = ch - b'0' }) s

  unfoldable pub minor_digit : State → Parser S → ℕ → Outcome S
  unfolding is_digit
  minor_digit s p ch =
      if not (is_digit ch) then err p bad_version else enter (record p { http_minor = ch - b'0' }) s

  unfoldable pub status_digit : State → ℕ → Parser S → ℕ → Outcome S
  unfolding is_digit
  status_digit s before p ch =
      if not (is_digit ch)
      then err p bad_status
      else enter (record p { status_code = before * 10 + ch - b'0' }) s

module _ {S : Type 0} (is_request : Bool) (d : Derived S) where
  unfoldable pub at_req_method0 : Parser S → ℕ → Outcome S
  at_req_method0 p ch =
      if not (is_tchar ch)
      then err p bad_method
      else let p' = start_called is_request d p in
        unless_set p' (enter (run_cb is_request d p' (some call_on_method)).0 req_method)

  unfoldable pub at_req_start : Parser S → ℕ → Outcome S
  at_req_start p ch =
      at_req_method0
        (record p {
          flags = no_flags;
          cb = none;
          content_length = no_content_length;
          s = req_method0;
        })
        ch

  unfoldable pub at_req_method : Parser S → ℕ → Outcome S
  at_req_method p ch =
      if ch == b' '
      then unless_failed (run_cb is_request d p none) (λ p'. enter p' req_url0)
      else if not (is_tchar ch)
      then err p bad_method
      else next p 0

  unfoldable pub at_req_url0 : Parser S → ℕ → Outcome S
  at_req_url0 p ch =
      if ch == b' '
      then err p bad_uri
      else if not (is_text ch)
      then err p bad_uri
      else enter (run_cb is_request d p (some call_on_uri)).0 req_url

  unfoldable pub at_req_url : Parser S → ℕ → Outcome S
  at_req_url p ch =
      if ch == b' '
      then unless_failed (run_cb is_request d p none) (λ p'. enter p' req_http)
      else if not (is_text ch)
      then err p bad_uri
      else next p 0

  unfoldable pub at_req_lf : Parser S → ℕ → Outcome S
  at_req_lf p ch =
      if not (ch == b'\n')
      then err p bad_crlf
      else let p' = request_called is_request d p in unless_set p' (enter p' header_name0)

  unfoldable pub at_res_start : Parser S → ℕ → Outcome S
  at_res_start p ch =
      let q = record p { flags = no_flags; cb = none; content_length = no_content_length } in
      if not (ch == b'H')
      then err q bad_version
      else let q' = start_called is_request d q in unless_set q' (enter q' res_h)

  unfoldable pub at_res_reason0 : Parser S → ℕ → Outcome S
  at_res_reason0 p ch =
      if ch == b'\r'
      then enter p res_line_lf
      else if not (is_text ch)
      then err p bad_reason
      else enter (run_cb is_request d p (some call_on_reason)).0 res_reason

  unfoldable pub at_res_reason : Parser S → ℕ → Outcome S
  at_res_reason p ch =
      if ch == b'\r'
      then unless_failed (run_cb is_request d p none) (λ p'. enter p' res_line_lf)
      else if not (is_text ch)
      then err p bad_reason
      else next p 0
