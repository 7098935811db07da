-- ===== src/Http/Parser/Body.antt =====
-- The cases of `write` from the empty line to the end of the message. `rest` is the buffer behind
-- the character, so `end - p` is one more than its length.
use beast.Base.{
  ℕ, suc, ◌-◌, Bool, true, not, ◌&&◌, ◌||◌, ltb, ◌==◌, if◌then◌else◌, none, some, Bytes, ◌∷◌, ◌++◌,
  length, take,
}
use beast.Http.Parser.Calls.{is_set, headers_called, complete_called, run_cb, needs_eof}
use beast.Http.Parser.Outcome.{Outcome, next, stay, ret, err, unless_set}
use beast.Http.Parser.Types.{
  dead, chunk_size0, body_pause, body_identity0, body_identity, body_identity_eof0,
  body_identity_eof, restart, headers_done, bad_crlf, illegal_content_length, BodyWhat, normal,
  skip, upgrade, pause, call_on_body, Derived, Parser, no_content_length, complete,
}

-- `call_on_body_what`
abbrev pub what_called : {S : Type 0} → Derived S → Parser S → BodyWhat × Parser S
what_called d p =
    let (what, impl, ec) = d.on_body_what p.content_length p.impl p.ec in
    (what, record p { impl = impl; ec = ec })

module _ {S : Type 0} where
  abbrev skip_body : Parser S → Parser S
  skip_body p = record p { flags = record p.flags { skipbody = true } }

  -- The switch on what the derived class wants of the body; `paused` is its last case.
  abbrev pub act_on : BodyWhat → Parser S → (Parser S → Outcome S) → Outcome S → Outcome S
  act_on normal p k paused = k p
  act_on skip p k paused = k (skip_body p)
  act_on upgrade p k paused = k (skip_body (record p { upgrade = true }))
  act_on pause p k paused = paused

  -- How much of the buffer belongs to the body.
  abbrev pub body_part : Parser S → Bytes → ℕ
  body_part p rest =
      if ltb (suc (length rest)) p.content_length then suc (length rest) else p.content_length

module _ {S : Type 0} (is_request : Bool) (d : Derived S) where
  -- `s_complete`, where the bytes used are `n` once `p` is moved on.
  unfoldable pub at_complete : ℕ → Parser S → Outcome S
  at_complete n p =
      let (q, failed) = run_cb is_request d p none in
      if failed
      then ret (record q { s = dead }) n
      else let q' = complete_called is_request d q in
        if is_set q'.ec then ret (record q' { s = dead }) n else ret (record q' { s = restart }) n

  -- `s_headers_done`; `brk` is its `break`.
  unfoldable pub at_headers_done : (Parser S → Outcome S) → ℕ → Parser S → Outcome S
  at_headers_done brk n p =
      let has_length = not (p.content_length == no_content_length) in
      let has_body = p.flags.chunked || ltb 0 p.content_length && has_length in
      let done = at_complete n (record p { s = complete }) in
      unless_set p (
        if p.upgrade && (p.flags.skipbody || not has_body)
        then done
        else if p.flags.skipbody || p.content_length == 0
        then done
        else if p.flags.chunked
        then brk (record p { s = chunk_size0 })
        else if has_length
        then brk (record p { s = body_identity0 })
        else if not (needs_eof is_request d p)
        then done
        else brk (record p { s = body_identity_eof0 }))

  -- The end of `s_headers_almost_done`, with what the body is to be.
  unfoldable pub headers_read : Parser S → Outcome S
  headers_read p =
      let (what, q) = what_called d p in
      unless_set q (
        act_on what q (λ q'. at_headers_done (λ r. next r 0) 1 (record q' { s = headers_done }))
          (ret (record q { s = body_pause }) 1))

  unfoldable pub at_headers_almost_done : Parser S → ℕ → Outcome S
  at_headers_almost_done p ch =
      if not (ch == b'\n')
      then err p bad_crlf
      else if p.flags.trailing
      then at_complete 1 (record p { s = complete })
      else if p.flags.chunked && p.flags.contentlength
      then err p illegal_content_length
      else let q =
          headers_called is_request d
            (record p { upgrade = p.flags.upgrade && p.flags.connection_upgrade }) in
        unless_set q (headers_read q)

  unfoldable pub at_body_pause : Parser S → Outcome S
  at_body_pause p =
      let (what, q) = what_called d p in
      unless_set q
        (act_on what q (λ q'. at_headers_done stay 0 (record q' { s = headers_done })) (ret q 0))

  unfoldable pub at_body_identity : Parser S → ℕ → Bytes → Outcome S
  at_body_identity p ch rest =
      let n = body_part p rest in
      let q = record p { content_length = p.content_length - n } in
      if q.content_length == 0
      then at_complete n (record q { s = complete; piece = p.piece ++ take n (ch ∷ rest) })
      else next q (n - 1)

  unfoldable pub at_body_identity0 : Parser S → ℕ → Bytes → Outcome S
  at_body_identity0 p ch rest =
      at_body_identity (record (run_cb is_request d p (some call_on_body)).0 { s = body_identity })
        ch rest

  unfoldable pub at_body_identity_eof : Parser S → Bytes → Outcome S
  at_body_identity_eof p rest = next p (length rest)

  unfoldable pub at_body_identity_eof0 : Parser S → Bytes → Outcome S
  at_body_identity_eof0 p rest =
      at_body_identity_eof
        (record (run_cb is_request d p (some call_on_body)).0 { s = body_identity_eof }) rest
