-- ===== src/Http/Parser/Chunks.antt =====
-- The cases of `write` for a body in chunks.
use beast.Base.{
  ℕ, ◌+◌, ◌-◌, ◌*◌, ◌/◌, Bool, true, not, ltb, ◌==◌, if◌then◌else◌, Option, none, some, Bytes,
}
use beast.Http.Chars.{is_tchar, unhex}
use beast.Http.Parser.Body.{body_part}
use beast.Http.Parser.Calls.{run_cb}
use beast.Http.Parser.Outcome.{Outcome, next, err, enter, unless_failed}
use beast.Http.Parser.Types.{
  header_name0, chunk_size, chunk_ext_name0, chunk_ext_name, chunk_ext_val, chunk_size_lf,
  chunk_data0, chunk_data, chunk_data_cr, chunk_data_lf, bad_crlf, bad_content_length,
  invalid_chunk_size, invalid_ext_name, call_on_body, Derived, Parser, no_content_length,
}

module _ {S : Type 0} where
  abbrev pub first_size : Parser S → Option ℕ → Outcome S
  first_size p none = err p invalid_chunk_size
  first_size p (some v) = enter (record p { content_length = v }) chunk_size

  unfoldable pub at_chunk_size0 : Parser S → ℕ → Outcome S
  at_chunk_size0 p ch = first_size p (unhex ch)

  abbrev pub more_size : Parser S → Option ℕ → Outcome S
  more_size p none = err p invalid_chunk_size
  more_size p (some v) =
      if ltb ((no_content_length - 16) / 16) p.content_length
      then err p bad_content_length
      else next (record p { content_length = p.content_length * 16 + v }) 0

  unfoldable pub at_chunk_size : Parser S → ℕ → Outcome S
  at_chunk_size p ch =
      if ch == b'\r'
      then enter p chunk_size_lf
      else if ch == b';'
      then enter p chunk_ext_name0
      else more_size p (unhex ch)

  unfoldable pub at_chunk_ext_name0 : Parser S → ℕ → Outcome S
  at_chunk_ext_name0 p ch =
      if not (is_tchar ch) then err p invalid_ext_name else enter p chunk_ext_name

  unfoldable pub at_chunk_ext_name : Parser S → ℕ → Outcome S
  at_chunk_ext_name p ch =
      if ch == b'\r'
      then enter p chunk_size_lf
      else if ch == b'='
      then enter p chunk_ext_val
      else if ch == b';'
      then enter p chunk_ext_name0
      else if not (is_tchar ch)
      then err p invalid_ext_name
      else next p 0

  unfoldable pub at_chunk_ext_val : Parser S → ℕ → Outcome S
  at_chunk_ext_val p ch = if ch == b'\r' then enter p chunk_size_lf else next p 0

  unfoldable pub at_chunk_size_lf : Parser S → ℕ → Outcome S
  at_chunk_size_lf p ch =
      if not (ch == b'\n')
      then err p bad_crlf
      else if p.content_length == 0
      then enter (record p { flags = record p.flags { trailing = true } }) header_name0
      else enter p chunk_data0

  unfoldable pub at_chunk_data : Parser S → ℕ → Bytes → Outcome S
  at_chunk_data p ch rest =
      let n = body_part p rest in
      let q = record p { content_length = p.content_length - n } in
      next (if q.content_length == 0 then record q { s = chunk_data_cr } else q) (n - 1)

module _ {S : Type 0} (is_request : Bool) (d : Derived S) where
  unfoldable pub at_chunk_data0 : Parser S → ℕ → Bytes → Outcome S
  at_chunk_data0 p ch rest =
      at_chunk_data (record (run_cb is_request d p (some call_on_body)).0 { s = chunk_data }) ch
        rest

  unfoldable pub at_chunk_data_cr : Parser S → ℕ → Outcome S
  at_chunk_data_cr p ch =
      if not (ch == b'\r')
      then err p bad_crlf
      else unless_failed (run_cb is_request d p none) (λ p'. enter p' chunk_data_lf)
