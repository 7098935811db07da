-- ===== src/Examples/Http.antt =====
-- A derived class for the HTTP parser that logs its callbacks, and runs with it.
use beast.Base.{
  ℕ, ◌+◌, ◌*◌, ◌<◌, ◌≤◌, ◌≡◌, refl, Bool, true, false, Option, none, some, Bytes, List, [], ◌∷◌,
  ◌++◌, length, arith,
}
use beast.Http.Parser.Fields.{codes}
use beast.Http.Parser.Types.{
  State, dead, req_start, res_start, restart, ErrorCode, h_general, no_flags, normal,
  no_content_length, Derived, Parser,
}
use beast.Http.Chars.{is_tchar, is_text, to_field_char, to_value_char}
use beast.Http.Parser.Body.{
  at_headers_almost_done, headers_read, at_headers_done, at_complete, at_body_identity0,
  at_body_identity,
}
use beast.Http.Parser.Calls.{run_cb, needs_eof}
use beast.Http.Parser.Fields.{name_char}
use beast.Http.Parser.Headers.{
  at_header_name0, at_header_name, at_header_value0, at_header_value, at_header_value_almost_done,
}
use beast.Http.Parser.StartLine.{
  at_req_start, at_req_method0, at_req_method, at_req_url0, at_req_url, at_req_lf, major_digit,
  minor_digit,
}
use beast.Http.Parser.Values.{value_char, flag_at_end}
use beast.Http.Parser.Write.{write}
pub mod Witnesses

pub data Event : Type 0 where
  started requested responded ended : Event
  method uri reason field value body : Bytes → Event
  headed : ℕ → Event

abbrev log : Event → List Event → Option ErrorCode → List Event × Option ErrorCode
log e es ec = (es ++ e ∷ [], ec)

abbrev pub logger : Derived (List Event)
logger = record {
  on_start = log started;
  on_method = λ s. log (method s);
  on_uri = λ s. log (uri s);
  on_reason = λ s. log (reason s);
  on_request = log requested;
  on_response = log responded;
  on_field = λ s. log (field s);
  on_value = λ s. log (value s);
  on_headers = λ n. log (headed n);
  on_body_what = λ n es ec. (normal, es, ec);
  on_body = λ s. log (body s);
  on_complete = log ended;
}

-- The parser as constructed, with `init()`.
abbrev pub fresh : State → Parser (List Event)
fresh s = record {
  h_max = 16 * 1024;
  h_left = 16 * 1024;
  b_max = 0;
  b_left = 0;
  content_length = no_content_length;
  cb = none;
  s = s;
  flags = no_flags;
  fs = h_general;
  pos = 0;
  http_major = 0;
  http_minor = 0;
  status_code = 0;
  upgrade = false;
  impl = [];
  ec = none;
  piece = [];
}

-- A request with a body, split in the middle of a field's value and of the body.
request_split :
    let r = write true logger (fresh req_start) (
      codes "PUT /x HTTP/1.1\r\nA: b"
      ∷ codes "c\r\nContent-Length: 3\r\n\r\nd"
      ∷ codes "ef"
      ∷ []) in
    (r.0.impl
      ≡ started
        ∷ method (codes "PUT")
        ∷ uri (codes "/x")
        ∷ requested
        ∷ field (codes "A")
        ∷ value (codes "b")
        ∷ value (codes "c")
        ∷ field (codes "Content-Length")
        ∷ value (codes "3")
        ∷ headed 3
        ∷ body (codes "d")
        ∷ body (codes "ef")
        ∷ ended
        ∷ [])
    × (r.0.s ≡ restart)
    × (r.1 ≡ 48)
unfolding write at_req_start at_req_method0 at_req_method at_req_url0 at_req_url at_req_lf is_tchar
    is_text to_field_char to_value_char major_digit minor_digit run_cb needs_eof at_header_name0
    at_header_name at_header_value0 at_header_value at_header_value_almost_done name_char value_char
    flag_at_end at_headers_almost_done headers_read at_headers_done at_complete at_body_identity0
    at_body_identity
request_split = (refl, refl, refl)
