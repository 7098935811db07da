-- ===== src/Http/Parser/Invariant/Chunks.antt =====
-- The invariant through a body in chunks.
use beast.Base.{
  ℕ, Bool, Option, none, some, ◌<◌, ◌≡◌, refl, Bytes, Bool-cases, ◌==◌, ◌-◌, inl, inr, arith,
}
use mathlib.Core.Path.{subst}
use beast.Http.Chars.{unhex}
use beast.Http.Chars.Laws.{unhex-lt}
use beast.Http.Parser.Body.{body_part}
use beast.Http.Parser.Chunks.{
  at_chunk_size0, at_chunk_size, at_chunk_ext_name0, at_chunk_ext_name, at_chunk_ext_val,
  at_chunk_size_lf, at_chunk_data0, at_chunk_data, at_chunk_data_cr, first_size, more_size,
}
use beast.Http.Parser.Invariant.Body.{body_part-≤, body_part-pos}
use beast.Http.Parser.Invariant.Defs.{by_if, LengthOk, IsValid, OutcomeOk, cb_begun, cb_ended}
use beast.Http.Parser.Types.{
  chunk_size0, chunk_size, chunk_ext_name, chunk_ext_name0, chunk_ext_val, chunk_size_lf,
  chunk_data, chunk_data0, chunk_data_lf, call_on_body, Derived, Parser, no_content_length,
}

first_size-OutcomeOk :
    {S : Type 0} (p : Parser S) (rest : Bytes) (digit : Option ℕ)
    → IsValid p
    → p.s ≡ chunk_size0
    → ((n : ℕ) → digit ≡ some n → n < 16)
    → OutcomeOk rest (first_size p digit)
first_size-OutcomeOk p rest none v e h = ground arith
first_size-OutcomeOk p rest (some n) v e h = ground (arith, h n refl)

more_size-OutcomeOk :
    {S : Type 0} (p : Parser S) (rest : Bytes) (digit : Option ℕ)
    → IsValid p
    → p.s ≡ chunk_size
    → ((n : ℕ) → digit ≡ some n → n < 16)
    → OutcomeOk rest (more_size p digit)
more_size-OutcomeOk p rest none v e h = ground arith
more_size-OutcomeOk p rest (some n) v e h = ground (arith, h n refl)

module _ {S : Type 0} (p : Parser S) (ch : ℕ) (rest : Bytes) (v : IsValid p) where
  pub at_chunk_size0-OutcomeOk : p.s ≡ chunk_size0 → ch < 256 → OutcomeOk rest (at_chunk_size0 p ch)
  unfolding at_chunk_size0
  at_chunk_size0-OutcomeOk e o = first_size-OutcomeOk p rest (unhex ch) v e (λ n. unhex-lt ch n o)

  pub at_chunk_size-OutcomeOk : p.s ≡ chunk_size → ch < 256 → OutcomeOk rest (at_chunk_size p ch)
  unfolding at_chunk_size
  at_chunk_size-OutcomeOk e o = by_if (ch == b'\r') _ _ rest (ground arith) (
      by_if (ch == b';') _ _ rest (ground arith)
        (more_size-OutcomeOk p rest (unhex ch) v e (λ n. unhex-lt ch n o)))

  pub at_chunk_ext_name0-OutcomeOk :
      p.s ≡ chunk_ext_name0 → OutcomeOk rest (at_chunk_ext_name0 p ch)
  unfolding at_chunk_ext_name0
  at_chunk_ext_name0-OutcomeOk e = ground arith

  pub at_chunk_ext_name-OutcomeOk : p.s ≡ chunk_ext_name → OutcomeOk rest (at_chunk_ext_name p ch)
  unfolding at_chunk_ext_name
  at_chunk_ext_name-OutcomeOk e = ground arith

  pub at_chunk_ext_val-OutcomeOk : p.s ≡ chunk_ext_val → OutcomeOk rest (at_chunk_ext_val p ch)
  unfolding at_chunk_ext_val
  at_chunk_ext_val-OutcomeOk e = ground arith

  pub at_chunk_size_lf-OutcomeOk : p.s ≡ chunk_size_lf → OutcomeOk rest (at_chunk_size_lf p ch)
  unfolding at_chunk_size_lf
  at_chunk_size_lf-OutcomeOk e = ground arith

  pub at_chunk_data-OutcomeOk : p.s ≡ chunk_data → OutcomeOk rest (at_chunk_data p ch rest)
  unfolding at_chunk_data
  at_chunk_data-OutcomeOk e =
      let l = body_part-≤ p rest in
      let b : (0 < p.content_length) × (p.content_length < no_content_length) = ground arith in
      let z = body_part-pos p rest b.0 in
      elim (Bool-cases (p.content_length - body_part p rest == 0)) [
        | inl y ↦ rw y (ground arith)
        | inr m ↦ rw m (ground arith)
      ]

module _ {S : Type 0} (is_request : Bool) (d : Derived S) (p : Parser S) (ch : ℕ) (rest : Bytes)
    (v : IsValid p) where
  pub at_chunk_data0-OutcomeOk :
      p.s ≡ chunk_data0 → OutcomeOk rest (at_chunk_data0 is_request d p ch rest)
  unfolding at_chunk_data0
  at_chunk_data0-OutcomeOk e =
      at_chunk_data-OutcomeOk _ ch rest
        (cb_begun is_request d p call_on_body chunk_data v (ground arith) refl
          (subst (λ s. LengthOk s p.content_length) e v.length_ok))
        refl

  pub at_chunk_data_cr-OutcomeOk : OutcomeOk rest (at_chunk_data_cr is_request d p ch)
  unfolding at_chunk_data_cr
  at_chunk_data_cr-OutcomeOk =
      ground (arith, cb_ended is_request d p rest chunk_data_lf v refl (λ (n : ℕ). tt))
