-- ===== src/Http/Rfc7230/Spans.antt =====
-- The parts of a text that `skip_token` goes past, and what may stand around tokens.
use beast.Base.{
  ◌&&◌, ℕ, ◌-◌, ◌≡◌, ◌<◌, ◌⊎◌, inl, inr, refl, ap, ◌∙◌, Bool, true, false, ◌||◌, ◌==◌, Bool-cases,
  Bytes, [], ◌∷◌, ◌++◌, length, All, arith, length-append, take-append_le, take_all,
}
use beast.Http.Chars.{is_tchar}
use beast.Http.Rfc7230.{is_ows, is_empty, between, skip_token}

-- The text of a token, and what may stand around tokens.
abbrev pub IsTchars : Bytes → Type 0
IsTchars = All (λ c. is_tchar c ≡ true)

abbrev pub IsToken : Bytes → Type 0
IsToken t = (0 < length t) × IsTchars t

abbrev pub is_separator : ℕ → Bool
is_separator c = is_ows c || (c == 44)

-- A separator is no token character.
pub separator-tchar : (c : ℕ) → is_separator c ≡ true → is_tchar c ≡ false
unfolding is_tchar
separator-tchar c h =
    let e : (c ≡ 32) ⊎ ((c ≡ 9) ⊎ (c ≡ 44)) = ground arith in
    elim e [ inl x ↦ rw x refl | inr (inl x) ↦ rw x refl | inr (inr x) ↦ rw x refl ]

pub tchar-ows : (c : ℕ) → is_tchar c ≡ true → is_separator c ≡ false
tchar-ows c h = elim (Bool-cases (is_separator c)) [
  | inl y ↦ absurd (ground (arith, separator-tchar c y))
  | inr n ↦ n
]

-- A token ends where a character is none of its characters.
abbrev pub Ends : Bytes → Type 0
Ends [] = Unit
Ends (c ∷ cs) = is_tchar c ≡ false

pub skip_token-token : (t rest : Bytes) → IsTchars t → Ends rest → skip_token (t ++ rest) ≡ rest
unfolding skip_token
skip_token-token [] [] h e = refl
skip_token-token [] (c ∷ cs) h e = rw e refl
skip_token-token (c ∷ cs) rest h e = rw h.0 (skip_token-token cs rest h.1 e)

pub between-append : (t rest : Bytes) → between (t ++ rest) rest ≡ t
between-append t rest =
    let k : length (t ++ rest) - length rest ≡ length t = omega (arith, length-append t rest) in
    rw k (take-append_le (length t) t rest (omega arith) ∙ take_all (length t) t (omega arith))

-- What `skip_token` goes past are token characters.
pub record Skips (it : Bytes) : Type 0 where
  pub part : Bytes
  pub split : it ≡ part ++ skip_token it
  pub tchars : IsTchars part

pub skip_token-Skips : (it : Bytes) → Skips it
unfolding skip_token
skip_token-Skips [] = record { part = []; split = refl; tchars = tt }
skip_token-Skips (c ∷ cs) = elim (Bool-cases (is_tchar c)) [
  | inl y ↦
      let s = skip_token-Skips cs in
      record { part = c ∷ s.part; split = rw y (ap (λ t. c ∷ t) s.split); tchars = (y, s.tchars) }
  | inr n ↦ record { part = []; split = rw n refl; tchars = tt }
]

-- A text with something in it is not empty.
pub and-is_empty : (b : Bool) (s : Bytes) → 0 < length s → (b && is_empty s) ≡ false
and-is_empty b [] k = absurd (omega arith)
and-is_empty true (c ∷ cs) k = refl
and-is_empty false (c ∷ cs) k = refl
