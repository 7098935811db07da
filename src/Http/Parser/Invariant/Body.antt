-- ===== src/Http/Parser/Invariant/Body.antt =====
-- The invariant from the empty line to the end of the message.
use beast.Base.{
  ℕ, not, suc, take, ◌++◌, ◌∷◌, ◌&&◌, ◌≤◌, ◌<◌, ◌≡◌, refl, sym, Bool, none, Bytes, Bool-cases, ◌==◌,
  inl, inr, arith, length, ◌-◌,
}
use mathlib.Core.Path.{subst}
use beast.Http.Parser.Body.{
  at_complete, at_headers_done, at_headers_almost_done, at_body_pause, at_body_identity0,
  at_body_identity, at_body_identity_eof0, at_body_identity_eof, headers_read, body_part, act_on,
  what_called,
}
use beast.Http.Parser.Calls.{headers_called, is_set}
use beast.Http.Parser.Invariant.Defs.{
  by_if, CbOk, LengthOk, PosOk, IsValid, Resumes, Stops, OutcomeOk, run_cb-Keeps, cb_begun,
}
use beast.Http.Parser.Outcome.{unless_set, Outcome, next, stay}
use beast.Http.Parser.Types.{
  BodyWhat, normal, skip, upgrade, pause, body_pause, headers_done, no_content_length, State,
  body_identity, body_identity_eof, body_identity0, chunk_size0, body_identity_eof0, complete,
  call_on_body, Derived, Parser,
}

module _ {S : Type 0} where
  pub body_part-≤ : (p : Parser S) (rest : Bytes) → body_part p rest ≤ suc (length rest)
  body_part-≤ p rest = ground arith

  pub body_part-≤-content_length :
      (p : Parser S) (rest : Bytes) → body_part p rest ≤ p.content_length
  body_part-≤-content_length p rest = ground arith

  pub body_part-pos : (p : Parser S) (rest : Bytes) → 0 < p.content_length → 0 < body_part p rest
  body_part-pos p rest h = ground arith

module _ {S : Type 0} (is_request : Bool) (d : Derived S) where
  pub at_complete-OutcomeOk :
      (n : ℕ) (p : Parser S) (rest : Bytes)
      → PosOk p.fs p.pos
      → p.content_length ≤ no_content_length
      → n ≤ suc (length rest)
      → OutcomeOk rest (at_complete is_request d n p)
  unfolding at_complete
  at_complete-OutcomeOk n p rest h f l = ground (arith, run_cb-Keeps is_request d p none)

  -- `s_headers_done` leads on to the body, through `brk`, or to the end.
  pub at_headers_done-OutcomeOk :
      (brk : Parser S → Outcome S) (n : ℕ) (p : Parser S) (rest : Bytes)
      → IsValid p
      → p.cb ≡ none
      → n ≤ suc (length rest)
      → ((s' : State)
          → IsValid (record p { s = s' })
          → Resumes s'
          → OutcomeOk rest (brk (record p { s = s' })))
      → OutcomeOk rest (at_headers_done is_request d brk n p)
  unfolding at_headers_done
  at_headers_done-OutcomeOk brk n p rest v e l k = ground (
    arith,
    at_complete-OutcomeOk n (record p { s = complete }) rest,
    k chunk_size0,
    k body_identity0,
    k body_identity_eof0,
  )

  act_on-OutcomeOk :
      (what : BodyWhat) (p : Parser S) (rest : Bytes) (k : Parser S → Outcome S)
      (paused : Outcome S)
      → IsValid p
      → p.cb ≡ none
      → ((q : Parser S) → IsValid q → q.cb ≡ none → OutcomeOk rest (k q))
      → OutcomeOk rest paused
      → OutcomeOk rest (unless_set p (act_on what p k paused))
  act_on-OutcomeOk what p rest k paused v e h w = elim (Bool-cases (is_set p.ec)) [
    | inl y ↦ rw y (ground arith)
    | inr n ↦ rw n (acted what)
  ]
    where
      acted : (what : BodyWhat) → OutcomeOk rest (act_on what p k paused)
      acted normal = h p v e
      acted skip =
          h _
            (record {
              cb_ok = v.cb_ok;
              pos_ok = v.pos_ok;
              length_fits = v.length_fits;
              length_ok = v.length_ok;
            })
            e
      acted upgrade =
          h _
            (record {
              cb_ok = v.cb_ok;
              pos_ok = v.pos_ok;
              length_fits = v.length_fits;
              length_ok = v.length_ok;
            })
            e
      acted pause = w

  -- What the body is to be, in a state where no callback is pending.
  asked :
      (p : Parser S) (s' : State)
      → IsValid p
      → p.cb ≡ none
      → CbOk s' none
      → ((n : ℕ) → LengthOk s' n)
      → IsValid (record (what_called d p).1 { s = s' })
  asked p s' v e c l = record {
    cb_ok = subst (CbOk s') (sym e) c;
    pos_ok = v.pos_ok;
    length_fits = v.length_fits;
    length_ok = l p.content_length;
  }

  read_on :
      (brk : Parser S → Outcome S) (n : ℕ) (rest : Bytes)
      → n ≤ suc (length rest)
      → ((p : Parser S) (s' : State)
          → IsValid (record p { s = s' })
          → Resumes s'
          → OutcomeOk rest (brk (record p { s = s' })))
      → (p : Parser S) → IsValid p
      → p.cb ≡ none
      → OutcomeOk rest (at_headers_done is_request d brk n (record p { s = headers_done }))
  read_on brk n rest l h p v e =
      at_headers_done-OutcomeOk brk n (record p { s = headers_done }) rest
        (record { cb_ok = e; pos_ok = v.pos_ok; length_fits = v.length_fits; length_ok = tt }) e l
        (h p)

  headers_read-OutcomeOk :
      (p : Parser S) (rest : Bytes)
      → IsValid p
      → p.cb ≡ none
      → OutcomeOk rest (headers_read is_request d p)
  unfolding headers_read
  headers_read-OutcomeOk p rest v e =
      act_on-OutcomeOk (what_called d p).0 (what_called d p).1 rest _ _
        (record {
          cb_ok = v.cb_ok;
          pos_ok = v.pos_ok;
          length_fits = v.length_fits;
          length_ok = v.length_ok;
        })
        e (read_on (λ r. next r 0) 1 rest (omega arith) (λ q s' w t. (w, omega arith)))
        (asked p body_pause v e refl (λ n. tt), omega arith, tt)

  pub at_headers_almost_done-OutcomeOk :
      (p : Parser S) (ch : ℕ) (rest : Bytes)
      → IsValid p
      → p.cb ≡ none
      → OutcomeOk rest (at_headers_almost_done is_request d p ch)
  unfolding at_headers_almost_done
  at_headers_almost_done-OutcomeOk p ch rest v e =
      let q : Parser S =
        headers_called is_request d
          (record p { upgrade = p.flags.upgrade && p.flags.connection_upgrade }) in
      let read : OutcomeOk rest (headers_read is_request d q) =
        headers_read-OutcomeOk q rest (ground arith) e in
      let done =
        at_complete-OutcomeOk 1 (record p { s = complete }) rest v.pos_ok v.length_fits
          (omega arith) in
      by_if (not (ch == b'\n')) _ _ rest (ground arith) (
        by_if p.flags.trailing _ _ rest done (
          by_if (p.flags.chunked && p.flags.contentlength) _ _ rest (ground arith)
            (by_if (is_set q.ec) _ _ rest (ground arith) read)))

  pub at_body_pause-OutcomeOk :
      (p : Parser S) (rest : Bytes)
      → IsValid p
      → p.s ≡ body_pause
      → OutcomeOk rest (at_body_pause is_request d p)
  unfolding at_body_pause
  at_body_pause-OutcomeOk p rest v e =
      let c : p.cb ≡ none = subst (λ s. CbOk s p.cb) e v.cb_ok in
      let w : IsValid (what_called d p).1 = record {
        cb_ok = v.cb_ok;
        pos_ok = v.pos_ok;
        length_fits = v.length_fits;
        length_ok = v.length_ok;
      } in
      act_on-OutcomeOk (what_called d p).0 (what_called d p).1 rest _ _ w c
        (read_on stay 0 rest (omega arith) (λ q s' w t. (w, t)))
        (w, omega arith, subst Stops (sym e) tt)

  pub at_body_identity-OutcomeOk :
      (p : Parser S) (ch : ℕ) (rest : Bytes)
      → IsValid p
      → p.s ≡ body_identity
      → OutcomeOk rest (at_body_identity is_request d p ch rest)
  unfolding at_body_identity
  at_body_identity-OutcomeOk p ch rest v e =
      let n : ℕ = body_part p rest in
      let l : n ≤ suc (length rest) = body_part-≤ p rest in
      let b : (0 < p.content_length) × (p.content_length < no_content_length) = ground arith in
      let z = body_part-pos p rest b.0 in
      let done =
        at_complete-OutcomeOk n
          (record p {
            content_length = p.content_length - n;
            s = complete;
            piece = p.piece ++ take n (ch ∷ rest);
          })
          rest v.pos_ok (ground arith) l in
      elim (Bool-cases (p.content_length - n == 0)) [
        | inl y ↦ rw y done
        | inr m ↦ rw m (
          record {
            cb_ok = v.cb_ok;
            pos_ok = v.pos_ok;
            length_fits = ground arith;
            length_ok = subst (λ s. LengthOk s (p.content_length - n)) (sym e) (ground arith);
          },
          ground arith,
        )
      ]

  pub at_body_identity0-OutcomeOk :
      (p : Parser S) (ch : ℕ) (rest : Bytes)
      → IsValid p
      → p.s ≡ body_identity0
      → p.cb ≡ none
      → OutcomeOk rest (at_body_identity0 is_request d p ch rest)
  unfolding at_body_identity0
  at_body_identity0-OutcomeOk p ch rest v t e =
      at_body_identity-OutcomeOk _ ch rest
        (cb_begun is_request d p call_on_body body_identity v e refl
          (subst (λ s. LengthOk s p.content_length) t v.length_ok))
        refl

  pub at_body_identity_eof0-OutcomeOk :
      (p : Parser S) (rest : Bytes)
      → IsValid p
      → p.cb ≡ none
      → OutcomeOk rest (at_body_identity_eof0 is_request d p rest)
  unfolding at_body_identity_eof0 at_body_identity_eof
  at_body_identity_eof0-OutcomeOk p rest v e =
      (cb_begun is_request d p call_on_body body_identity_eof v e refl tt, omega arith)
