-- ===== src/Http/Rfc7230/TokenLaws.antt =====
-- What `token_list` makes of a list of tokens, and what it gives in general.
use mathlib.Core.Path.{subst}
use beast.Base.{
  ℕ, zero, suc, ◌+◌, ◌≡◌, ◌≤◌, ◌<◌, refl, sym, ap, ◌∙◌, Bool, true, false, not, ◌&&◌, ◌||◌, ◌==◌,
  none, some, Bytes, List, [], ◌∷◌, ◌++◌, length, All, arith, length-append, append_assoc,
}
use beast.Http.Rfc7230.{is_ows, is_empty}
use beast.Http.Rfc7230.Spans.{
  and-is_empty, IsToken, is_separator, separator-tchar, tchar-ows, Ends, skip_token-token,
  between-append,
}
use beast.Http.Rfc7230.Tokens.{
  find_token, TokenIter, token_found, token_increment, token_begin, token_at_end, tokens_from,
  token_list,
}

abbrev pub IsGap : Bytes → Type 0
IsGap = All (λ c. is_separator c ≡ true)

-- A gap with a comma in it.
abbrev pub has_comma : Bytes → Bool
has_comma [] = false
has_comma (c ∷ cs) = (c == 44) || has_comma cs

-- Tokens, each behind its gap.
pub data Item : Type 0 where
  item : Bytes → Bytes → Item

abbrev pub text : List Item → Bytes
text [] = []
text (item gap token ∷ items) = gap ++ (token ++ text items)

abbrev pub tokens : List Item → List Bytes
tokens [] = []
tokens (item gap token ∷ items) = token ∷ tokens items

-- A gap in front of the first token may be any; one between two has a comma.
abbrev pub Separated : Bool → List Item → Type 0
Separated comma [] = Unit
Separated comma (item gap token ∷ items) =
    IsGap gap × IsToken token × ((comma && not (has_comma gap)) ≡ false) × Separated true items

pub find_token-gap :
    (comma : Bool) (gap rest : Bytes)
    → IsGap gap
    → find_token comma (gap ++ rest) ≡ find_token (comma && not (has_comma gap)) rest
unfolding find_token
find_token-gap true [] rest h = refl
find_token-gap false [] rest h = refl
find_token-gap true (c ∷ cs) rest h =
    let t = separator-tchar c h.0 in
    ground (arith, t, find_token-gap true cs rest h.1, find_token-gap false cs rest h.1)
find_token-gap false (c ∷ cs) rest h =
    let t = separator-tchar c h.0 in ground (arith, t, find_token-gap false cs rest h.1)

pub find_token-token :
    (t rest : Bytes) → IsToken t → find_token false (t ++ rest) ≡ some (t ++ rest)
unfolding find_token
find_token-token [] rest h = absurd (omega (arith, h.0))
find_token-token (c ∷ cs) rest h = ground (arith, h.1.0, tchar-ows c h.1.0)

token_found-token :
    (first t rest : Bytes)
    → IsToken t
    → Ends rest
    → token_found first (some (t ++ rest)) ≡ record { v = t; it = rest; first = first }
unfolding token_found
token_found-token first [] rest h e = absurd (omega (arith, h.0))
token_found-token first (c ∷ cs) rest h e =
    rw (skip_token-token cs rest h.1.1 e, between-append (c ∷ cs) rest) refl

Ends-gap : (gap rest : Bytes) → IsGap gap → has_comma gap ≡ true → Ends (gap ++ rest)
Ends-gap [] rest h c = absurd (ground arith)
Ends-gap (c ∷ cs) rest h k = separator-tchar c h.0

Ends-text :
    (items : List Item) (tail : Bytes)
    → Separated true items
    → IsGap tail
    → Ends (text items ++ tail)
Ends-text [] [] s g = tt
Ends-text [] (c ∷ cs) s g = separator-tchar c g.0
Ends-text (item [] token ∷ items) tail s g = absurd (ground (arith, s.2))
Ends-text (item (c ∷ cs) token ∷ items) tail s g = separator-tchar c s.0.0

-- One `increment` in front of an item, and one in front of what follows the last.
token_increment-item :
    (comma : Bool) (i : TokenIter) (gap token : Bytes) (items : List Item) (tail : Bytes)
    → not (length i.it == length i.first) ≡ comma
    → IsGap tail
    → Separated comma (item gap token ∷ items)
    → i.it ≡ text (item gap token ∷ items) ++ tail
    → token_increment i ≡ record { v = token; it = text items ++ tail; first = i.it }
unfolding token_increment
token_increment-item comma i gap token items tail flag g s eq =
    let rest = text items ++ tail in
    let joined : i.it ≡ gap ++ (token ++ rest) =
      eq
      ∙ append_assoc gap (token ++ text items) tail
      ∙ ap (λ t. gap ++ t) (append_assoc token (text items) tail) in
    let found : find_token comma i.it ≡ some (token ++ rest) =
      ap (find_token comma) joined
      ∙ find_token-gap comma gap (token ++ rest) s.0
      ∙ ap (λ b. find_token b (token ++ rest)) s.2
      ∙ find_token-token token rest s.1 in
    rw (flag, found) (token_found-token i.it token rest s.1 (Ends-text items tail s.3 g))

pub find_token-tail : (comma : Bool) (gap : Bytes) → IsGap gap → find_token comma gap ≡ none
unfolding find_token
find_token-tail comma [] h = refl
find_token-tail comma (c ∷ cs) h =
    let t = separator-tchar c h.0 in
    let rest = find_token-tail (comma && is_ows c) cs h.1 in rw (t, rest) (ground arith)

token_increment-tail :
    (i : TokenIter) → IsGap i.it → token_increment i ≡ record { v = []; it = []; first = [] }
unfolding token_increment token_found
token_increment-tail i h = rw (find_token-tail (not (length i.it == length i.first)) i.it h) refl

pub tokens_from-suc :
    (fuel : ℕ) (i : TokenIter)
    → token_at_end i ≡ false
    → tokens_from (suc fuel) i ≡ i.v ∷ tokens_from fuel (token_increment i)
unfolding tokens_from
tokens_from-suc fuel i h = rw h refl

pub tokens_from-end :
    (fuel : ℕ) → tokens_from (suc fuel) (record { v = []; it = []; first = [] }) ≡ []
unfolding tokens_from token_at_end
tokens_from-end fuel = refl

-- An iterator that still stands in front of something is not the end.
pub not_at_end : (i : TokenIter) → 0 < length i.first → token_at_end i ≡ false
unfolding token_at_end
not_at_end i h = and-is_empty (is_empty i.it) i.first h

tokens_from-text :
    (items : List Item) (tail : Bytes) (fuel : ℕ) (comma : Bool) (i : TokenIter)
    → not (length i.it == length i.first) ≡ comma
    → IsGap tail
    → Separated comma items
    → i.it ≡ text items ++ tail
    → length items ≤ fuel
    → tokens_from (suc fuel) (token_increment i) ≡ tokens items
tokens_from-text [] tail fuel comma i flag g s eq le =
    ap (tokens_from (suc fuel)) (token_increment-tail i (subst IsGap (sym eq) g))
    ∙ tokens_from-end fuel
tokens_from-text (item gap token ∷ items) tail zero comma i flag g s eq le = absurd (omega arith)
tokens_from-text (item gap token ∷ items) tail (suc fuel) comma i flag g s eq le =
    let rest = text items ++ tail in
    let i' : TokenIter = record { v = token; it = rest; first = i.it } in
    let whole : i.it ≡ gap ++ (token ++ rest) =
      eq
      ∙ append_assoc gap (token ++ text items) tail
      ∙ ap (λ t. gap ++ t) (append_assoc token (text items) tail) in
    let size : length i.it ≡ length gap + (length token + length rest) =
      ap length whole
      ∙ omega (arith, length-append gap (token ++ rest), length-append token rest) in
    ap (tokens_from (suc (suc fuel)))
      (token_increment-item comma i gap token items tail flag g s eq)
    ∙ tokens_from-suc (suc fuel) i' (not_at_end i' (omega (arith, size, s.1.0)))
    ∙ ap (λ ts. token ∷ ts)
        (tokens_from-text items tail fuel true i' (ground (arith, size, s.1.0)) g s.3 refl
          (omega arith))

length-text :
    (comma : Bool) (items : List Item) → Separated comma items → length items ≤ length (text items)
length-text comma [] s = omega arith
length-text comma (item gap token ∷ items) s = omega (
  arith,
  length-text true items s.3,
  s.1.0,
  length-append gap (token ++ text items),
  length-append token (text items),
)

-- Where a text is tokens, each with spaces, tabs and commas in front of it, of which two tokens
-- have a comma between them, and a last such gap, `token_list` gives the tokens.
pub token_list-text :
    (items : List Item) (tail : Bytes)
    → Separated false items
    → IsGap tail
    → token_list (text items ++ tail) ≡ tokens items
unfolding token_list token_begin
token_list-text items tail s g =
    let all = text items ++ tail in
    tokens_from-text items tail (length all) false (record { v = []; it = all; first = all })
      (ground arith) g s refl
      (omega (arith, length-text false items s, length-append (text items) tail))
