-- ===== src/Http/Rfc7230/Params.antt =====
-- `param_iter::increment`: the values that it gives, and a parameter written out.
use beast.Base.{
  ℕ, ◌≡◌, inl, inr, refl, ap, ◌∙◌, true, false, ◌==◌, Bool-cases, Option-cases, some, Bytes, [],
  ◌∷◌, arith,
}
use beast.Http.Chars.{is_tchar}
use beast.Http.Rfc7230.{
  between, skip_ows, skip_token, ParamIter, quoted, param_value, param_equals, param_name,
  param_start, param_increment, param_plain,
}
use beast.Http.Rfc7230.Spans.{between-append, skip_token-Skips}
use beast.Http.Rfc7230.Unquote.{IsSome, param_plain-quoted}

quote_tchar : is_tchar 34 ≡ false
unfolding is_tchar
quote_tchar = refl

tchar-quote : (c : ℕ) → is_tchar c ≡ true → (c == 34) ≡ false
tchar-quote c h = elim (Bool-cases (c == 34)) [
  | inl y ↦
      let e : c ≡ 34 = ground (arith, y) in absurd (ground (arith, ap is_tchar e, quote_tchar, h))
  | inr n ↦ n
]

abbrev HasValue : ParamIter → Type 0
HasValue pi = IsSome (param_plain pi.value)

param_plain-nil : IsSome (param_plain [])
unfolding param_plain
param_plain-nil = tt

param_plain-token :
    (c : ℕ) (cs : Bytes)
    → is_tchar c ≡ true
    → param_plain (between (c ∷ cs) (skip_token cs)) ≡ some (between (c ∷ cs) (skip_token cs))
unfolding param_plain
param_plain-token c cs h =
    let s = skip_token-Skips cs in
    let value : between (c ∷ cs) (skip_token cs) ≡ c ∷ s.part =
      ap (λ t. between (c ∷ t) (skip_token cs)) s.split
      ∙ between-append (c ∷ s.part) (skip_token cs) in
    rw (value, tchar-quote c h) refl

param_value-HasValue : (first name it : Bytes) → HasValue (param_value first name it)
unfolding param_value
param_value-HasValue first name [] = param_plain-nil
param_value-HasValue first name (c ∷ cs) = elim (Bool-cases (c == 34)) [
  | inl y ↦
      let e : c ≡ 34 = ground (arith, y) in
      elim (Option-cases (quoted false cs)) [
        | inl n ↦ rw (y, n) param_plain-nil
        | inr r ↦ rw (e, r.1) (param_plain-quoted cs r.0 r.1)
      ]
  | inr n ↦ elim (Bool-cases (is_tchar c)) [
    | inl t ↦ rw (n, t, param_plain-token c cs t) tt
    | inr m ↦ rw (n, m) param_plain-nil
  ]
]

param_equals-HasValue : (first name it : Bytes) → HasValue (param_equals first name it)
unfolding param_equals
param_equals-HasValue first name [] = param_plain-nil
param_equals-HasValue first name (c ∷ cs) = elim (Bool-cases (c == 59)) [
  | inl y ↦ rw y param_plain-nil
  | inr n ↦ elim (Bool-cases (c == 61)) [
    | inl y ↦ rw (n, y) (param_value-HasValue first name (skip_ows cs))
    | inr m ↦ rw (n, m) param_plain-nil
  ]
]

param_name-HasValue : (first it : Bytes) → HasValue (param_name first it)
unfolding param_name
param_name-HasValue first [] = param_plain-nil
param_name-HasValue first (c ∷ cs) = elim (Bool-cases (is_tchar c)) [
  | inl y ↦
      let it = skip_token cs in
      rw y (param_equals-HasValue first (between (c ∷ cs) it) (skip_ows it))
  | inr n ↦ rw n param_plain-nil
]

param_start-HasValue : (it : Bytes) → HasValue (param_start it)
unfolding param_start
param_start-HasValue [] = param_plain-nil
param_start-HasValue (c ∷ cs) = elim (Bool-cases (c == 59)) [
  | inl y ↦ rw y (param_name-HasValue (c ∷ cs) (skip_ows cs))
  | inr n ↦ rw n param_plain-nil
]

-- Whatever stands in front of the iterator, the value that `increment` leaves is one that the
-- iterator of `param_list` has: `unquote` does not run past its end.
pub param_increment-IsSome : (pi : ParamIter) → IsSome (param_plain (param_increment pi).value)
unfolding param_increment
param_increment-IsSome pi = param_start-HasValue (skip_ows pi.it)
