-- ===== src/Http/Parser/Invariant/Loop.antt =====
-- The invariant through the loop over a buffer.
use beast.Base.{
  ℕ, ◌-◌, zero, suc, ◌+◌, ◌≤◌, ◌<◌, ◌≡◌, ◌⊎◌, inl, inr, refl, sym, Bool, true, false, Option, none,
  some, if◌then◌else◌, Bytes, [], ◌∷◌, ◌++◌, length, All, arith, ◌==◌,
}
use mathlib.Core.Path.{subst₂}
use beast.Http.Parser.Body.{
  at_complete, body_part, at_body_identity0, at_body_identity, at_body_identity_eof0,
  at_body_identity_eof,
}
use beast.Http.Parser.Calls.{is_set, invoke}
use beast.Http.Parser.Chunks.{at_chunk_size0, first_size}
use beast.Http.Parser.Invariant.Defs.{
  CbOk, LengthOk, IsValid, Resumes, Stops, OutcomeOk, Keeps, invoke-Keeps, died, PosOk-Keeps,
}
use beast.Http.Parser.Invariant.Round.{at_state-OutcomeOk}
use beast.Http.Parser.Outcome.{Outcome, next, stay, ret}
use beast.Http.Parser.Types.{
  State, chunk_size0, body_identity0, body_identity_eof0, Callback, Derived, Parser,
}
use beast.Http.Parser.Write.{at_state, settle, round, loop, end_piece}
use beast.Http.Chars.{unhex}

-- The buffer holds octets.
abbrev pub Octets : Bytes → Type 0
Octets bs = All (λ b. b < 256) bs

module _ {S : Type 0} where
  abbrev Moves : Outcome S → Type 0
  Moves (stay q) = ⊥
  Moves _ = Unit

  if_Moves : (t : Bool) (a b : Outcome S) → Moves a → Moves b → Moves (if t then a else b)
  if_Moves true a b h k = h
  if_Moves false a b h k = k

  first_size-Moves : (p : Parser S) (v : Option ℕ) → Moves (first_size p v)
  first_size-Moves p none = tt
  first_size-Moves p (some v) = tt

  pub set_piece : (p : Parser S) (bs : Bytes) → IsValid p → IsValid (record p { piece = bs })
  set_piece p bs v = record {
    cb_ok = v.cb_ok;
    pos_ok = v.pos_ok;
    length_fits = v.length_fits;
    length_ok = v.length_ok;
  }

  kept : {p q : Parser S} → IsValid p → Keeps p q → q.cb ≡ p.cb → IsValid q
  kept {p} {q} v k e = record {
    cb_ok = subst₂ CbOk (sym k.s_kept) (sym e) v.cb_ok;
    pos_ok = PosOk-Keeps p q v.pos_ok k;
    length_fits = rw k.length_kept v.length_fits;
    length_ok = subst₂ LengthOk (sym k.s_kept) (sym k.length_kept) v.length_ok;
  }

  -- What the loop gives: a valid parser, no more bytes used than there were, and all of them
  -- unless it stopped.
  abbrev pub Used : ℕ → Parser S × ℕ → Type 0
  Used n (p, used) = IsValid p × (used ≤ n) × ((used ≡ n) ⊎ Stops p.s)

  Used-suc : (r : Parser S × ℕ) (m n : ℕ) → Used (m + 1 + n) r → Used (m + suc n) r
  Used-suc r m n h = (h.0, omega arith, ground arith)

  pub Used-zero : (r : Parser S × ℕ) (n : ℕ) → Used (0 + n) r → Used n r
  Used-zero r n h = (h.0, omega arith, ground arith)

module _ {S : Type 0} (is_request : Bool) (d : Derived S) where
  at_complete-Moves : (n : ℕ) (p : Parser S) → Moves (at_complete is_request d n p)
  unfolding at_complete
  at_complete-Moves n p = ground arith

  at_body_identity-Moves :
      (p : Parser S) (ch : ℕ) (rest : Bytes) → Moves (at_body_identity is_request d p ch rest)
  unfolding at_body_identity
  at_body_identity-Moves p ch rest =
      if_Moves (p.content_length - body_part p rest == 0) _ _ (at_complete-Moves _ _) tt

  resumed-Moves :
      (s : State) (p : Parser S) (ch : ℕ) (rest : Bytes)
      → Resumes s
      → Moves (at_state is_request d s p ch rest)
  unfolding at_state at_chunk_size0 at_body_identity0 at_body_identity_eof0 at_body_identity_eof
  resumed-Moves chunk_size0 p ch rest h = first_size-Moves p (unhex ch)
  resumed-Moves body_identity0 p ch rest h = at_body_identity-Moves _ ch rest
  resumed-Moves body_identity_eof0 p ch rest h = tt
  resumed-Moves _ p ch rest h = absurd h

  state_ok :
      (p : Parser S) (ch : ℕ) (rest : Bytes)
      → IsValid p
      → ch < 256
      → OutcomeOk rest (at_state is_request d p.s p ch rest)
  state_ok p ch rest v o = at_state-OutcomeOk is_request d p.s p ch rest v refl v.cb_ok o

  settle-Moves :
      (ch : ℕ) (rest : Bytes) (o : Outcome S)
      → ch < 256
      → OutcomeOk rest o
      → OutcomeOk rest (settle is_request d ch rest o) × Moves (settle is_request d ch rest o)
  settle-Moves ch rest (next p n) o h = (h, tt)
  settle-Moves ch rest (ret p n) o h = (h, tt)
  settle-Moves ch rest (stay p) o h = (state_ok p ch rest h.0 o, resumed-Moves p.s p ch rest h.1)

  -- A round keeps the invariant, and never asks for the same character once more.
  pub round-OutcomeOk :
      (p : Parser S) (ch : ℕ) (rest : Bytes)
      → IsValid p
      → ch < 256
      → OutcomeOk rest (round is_request d p ch rest) × Moves (round is_request d p ch rest)
  unfolding round
  round-OutcomeOk p ch rest v o =
      settle-Moves ch rest (at_state is_request d p.s p ch rest) o (state_ok p ch rest v o)

  pub end_piece-IsValid :
      (c : Option Callback) (p : Parser S) → IsValid p → IsValid (end_piece is_request d c p)
  end_piece-IsValid none p v = v
  end_piece-IsValid (some c) p v =
      let k = invoke-Keeps is_request d c p p.piece in
      either (is_set (invoke is_request d c p p.piece).ec) (died v k.0) (kept v k.0 k.1)
    where
      either : {q r : Parser S} (t : Bool) → IsValid q → IsValid r → IsValid (if t then q else r)
      either true a b = a
      either false a b = b

  pub loop-Used :
      (used : ℕ) (p : Parser S) (n : ℕ) (bs : Bytes)
      → IsValid p
      → Octets bs
      → n ≤ length bs
      → Used (used + length bs) (loop is_request d used p n bs)
  unfolding loop
  loop-Used used p n [] v o l = (end_piece-IsValid p.cb p v, omega arith, inl (omega arith))
  loop-Used used p (suc n) (ch ∷ rest) v o l = Used-suc _ used (length rest) (
      loop-Used (used + 1) (record p { piece = p.piece ++ ch ∷ [] }) n rest (set_piece p _ v) o.1
        (omega arith))
  loop-Used used p zero (ch ∷ rest) v o l =
      (elim (round is_request d p ch rest)
          as (λ o.
            OutcomeOk rest o × Moves o
            → Used {S = S} (used + suc (length rest)) (elim o [
              | next q n ↦
                  loop is_request d (used + 1) (record q { piece = q.piece ++ ch ∷ [] }) n rest
              | ret q n ↦ (q, used + n)
              | stay q ↦ (q, used)
            ])) [
              | next q n ↦ λ h. Used-suc _ used (length rest) (
                  loop-Used (used + 1) (record q { piece = q.piece ++ ch ∷ [] }) n rest
                    (set_piece q _ h.0.0) o.1 h.0.1)
              | ret q n ↦ λ h. (h.0.0, omega arith, inr h.0.2)
              | stay q ↦ λ h. absurd h.1
            ])
        (round-OutcomeOk p ch rest v o.0)
