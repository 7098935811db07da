-- ===== src/Http/Rfc7230/TokenSound.antt =====
-- What `token_list` gives for any text, and that its loop ends.
use mathlib.Core.Path.{subst}
use beast.Base.{
  ℕ, zero, suc, ◌+◌, ◌≡◌, ◌≤◌, ◌<◌, ◌⊎◌, inl, inr, refl, sym, ap, ◌∙◌, Bool, true, false, not, ◌&&◌,
  ◌==◌, if◌then◌else◌, Option, none, some, Bytes, [], ◌∷◌, length, All, arith, length-append,
}
use beast.Http.Chars.{is_tchar}
use beast.Http.Rfc7230.{is_ows, between, skip_token}
use beast.Http.Rfc7230.Tokens.{
  find_token, TokenIter, token_found, token_increment, token_begin, token_at_end, tokens_from,
  token_list,
}
use beast.Http.Rfc7230.TokenLaws.{tokens_from-suc, tokens_from-end, not_at_end}
use beast.Http.Rfc7230.Spans.{IsToken, between-append, skip_token-Skips}

-- Where the loop finds a token.
pub record Starts (p0 it : Bytes) : Type 0 where
  pub char : ℕ
  pub behind : Bytes
  pub here : p0 ≡ char ∷ behind
  pub first_char : is_tchar char ≡ true
  pub within : length p0 ≤ length it

Starts-cons : (c : ℕ) (cs p0 : Bytes) → Starts p0 cs → Starts p0 (c ∷ cs)
Starts-cons c cs p0 s = record {
  char = s.char;
  behind = s.behind;
  here = s.here;
  first_char = s.first_char;
  within = omega (arith, s.within);
}

-- The outcomes of the loop.
abbrev pub Finds : Bytes → Option Bytes → Type 0
Finds it none = Unit
Finds it (some p0) = Starts p0 it

Finds-cons : (c : ℕ) (cs : Bytes) (o : Option Bytes) → Finds cs o → Finds (c ∷ cs) o
Finds-cons c cs none f = tt
Finds-cons c cs (some p0) f = Starts-cons c cs p0 f

pub find_token-Finds : (comma : Bool) (it : Bytes) → Finds it (find_token comma it)
unfolding find_token
find_token-Finds comma [] = tt
find_token-Finds comma (c ∷ cs) =
    let rest = find_token-Finds (comma && is_ows c) cs in
    let later = Finds-cons c cs (find_token (comma && is_ows c) cs) rest in
    by_char (is_ows c) (is_tchar c) (c == 44) comma refl later
  where
    by_char :
        (ows tchar is_comma need : Bool)
        → tchar ≡ is_tchar c
        → Finds (c ∷ cs) (find_token (comma && is_ows c) cs)
        → Finds (c ∷ cs) (
            if ows
            then find_token (comma && is_ows c) cs
            else if tchar
            then if need then none else some (c ∷ cs)
            else if is_comma
            then find_token (comma && is_ows c) cs
            else none)
    by_char true tchar is_comma need e later = later
    by_char false true is_comma true e later = tt
    by_char false true is_comma false e later = record {
      char = c;
      behind = cs;
      here = refl;
      first_char = sym e;
      within = omega arith;
    }
    by_char false false true need e later = later
    by_char false false false need e later = tt

-- What `increment` gives: the end, or a token that stands in front of what is left.
pub record Steps (i i' : TokenIter) : Type 0 where
  pub new_first : i'.first ≡ i.it
  pub token : IsToken i'.v
  pub shorter : length i'.it < length i.it

token_found-Steps :
    (i : TokenIter) (o : Option Bytes)
    → Finds i.it o
    → (token_found i.it o ≡ record { v = []; it = []; first = [] }) ⊎ Steps i (token_found i.it o)
unfolding token_found
token_found-Steps i none f = inl refl
token_found-Steps i (some p0) f =
    let s = skip_token-Skips f.behind in
    let rest = skip_token f.behind in
    let token : between (f.char ∷ f.behind) rest ≡ f.char ∷ s.part =
      ap (λ t. between (f.char ∷ t) rest) s.split ∙ between-append (f.char ∷ s.part) rest in
    let size : length f.behind ≡ length s.part + length rest =
      ap length s.split ∙ length-append s.part rest in
    rw f.here (
      inr (record {
        new_first = refl;
        token = rw token (omega arith, (f.first_char, s.tchars));
        shorter = omega (arith, size, f.within, ap length f.here);
      }))

pub token_increment-Steps :
    (i : TokenIter)
    → (token_increment i ≡ record { v = []; it = []; first = [] }) ⊎ Steps i (token_increment i)
unfolding token_increment
token_increment-Steps i =
    let comma = not (length i.it == length i.first) in
    token_found-Steps i (find_token comma i.it) (find_token-Finds comma i.it)

-- An iterator at the end, or on a token.
abbrev Ready : TokenIter → Type 0
Ready i = (i ≡ record { v = []; it = []; first = [] }) ⊎ (IsToken i.v × 0 < length i.first)

increment-Ready : (i : TokenIter) → Ready (token_increment i)
increment-Ready i = elim (token_increment-Steps i) [
  | inl e ↦ inl e
  | inr s ↦ inr (s.token, omega (arith, s.shorter, ap length s.new_first))
]

tokens_from-zero : (i : TokenIter) → tokens_from 0 i ≡ []
unfolding tokens_from
tokens_from-zero i = refl

tokens_from-All : (fuel : ℕ) (i : TokenIter) → Ready i → All IsToken (tokens_from fuel i)
tokens_from-All zero i r = subst (All IsToken) (sym (tokens_from-zero i)) tt
tokens_from-All (suc fuel) i r = elim r [
  | inl e ↦
      subst (λ j. All IsToken (tokens_from (suc fuel) j)) (sym e)
        (subst (All IsToken) (sym (tokens_from-end fuel)) tt)
  | inr h ↦
      subst (All IsToken) (sym (tokens_from-suc fuel i (not_at_end i h.1)))
        (h.0, tokens_from-All fuel (token_increment i) (increment-Ready i))
]

-- For any text, what `token_list` gives are tokens: not empty, and of token characters.
pub token_list-IsToken : (s : Bytes) → All IsToken (token_list s)
unfolding token_list token_begin
token_list-IsToken s =
    let i : TokenIter = record { v = []; it = s; first = s } in
    tokens_from-All (suc (length s)) (token_increment i) (increment-Ready i)

abbrev the_end : TokenIter
the_end = record { v = []; it = []; first = [] }

tokens_from-the_end : (fuel : ℕ) (i : TokenIter) → i ≡ the_end → tokens_from fuel i ≡ []
tokens_from-the_end zero i e = tokens_from-zero i
tokens_from-the_end (suc fuel) i e = ap (tokens_from (suc fuel)) e ∙ tokens_from-end fuel

tokens_from-fuel :
    (n k : ℕ) (i : TokenIter)
    → Ready i
    → (i ≡ the_end) ⊎ (length i.it < n)
    → tokens_from (n + k) i ≡ tokens_from n i
tokens_from-fuel zero k i r le = elim le [
  | inl e ↦ tokens_from-the_end (0 + k) i e ∙ sym (tokens_from-zero i)
  | inr lt ↦ absurd (omega (arith, lt))
]
tokens_from-fuel (suc n) k i r le =
    let count : suc n + k ≡ suc (n + k) = omega arith in
    let r' = increment-Ready i in
    let same : (i ≡ the_end) ⊎ (token_at_end i ≡ false) = elim r [
      | inl e ↦ inl e
      | inr h ↦ inr (not_at_end i h.1)
    ] in
    let le' : (i ≡ the_end)
        ⊎ ((token_increment i ≡ the_end) ⊎ (length (token_increment i).it < n)) =
      elim le [
        | inl e ↦ inl e
        | inr lt ↦ inr (elim (token_increment-Steps i) [
          | inl e ↦ inl e
          | inr s ↦ inr (omega (arith, s.shorter, lt))
        ])
      ] in
    ap (λ m. tokens_from m i) count ∙ elim same [
      | inl e ↦ tokens_from-the_end (suc (n + k)) i e ∙ sym (tokens_from-the_end (suc n) i e)
      | inr on ↦ elim le' [
        | inl e ↦ tokens_from-the_end (suc (n + k)) i e ∙ sym (tokens_from-the_end (suc n) i e)
        | inr l ↦
            tokens_from-suc (n + k) i on
            ∙ ap (λ ts. i.v ∷ ts) (tokens_from-fuel n k (token_increment i) r' l)
            ∙ sym (tokens_from-suc n i on)
      ]
    ]

-- The loop over a `token_list` ends within one turn more than the text has characters: more fuel
-- gives the same tokens.
pub token_list-fuel :
    (s : Bytes) (k : ℕ) → tokens_from (suc (length s) + k) (token_begin s) ≡ token_list s
unfolding token_list token_begin
token_list-fuel s k =
    let i : TokenIter = record { v = []; it = s; first = s } in
    tokens_from-fuel (suc (length s)) k (token_increment i) (increment-Ready i)
      (elim (token_increment-Steps i) [ inl e ↦ inl e | inr h ↦ inr (omega (arith, h.shorter)) ])
