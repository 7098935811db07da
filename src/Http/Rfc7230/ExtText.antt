-- ===== src/Http/Rfc7230/ExtText.antt =====
-- `ext_list` on extensions that are written out.
use mathlib.Core.Path.{subst}
use beast.Base.{
  ℕ, zero, suc, ◌+◌, ◌≡◌, ◌≤◌, ◌<◌, refl, sym, ap, ◌∙◌, Bool, true, false, not, ◌&&◌, ◌==◌, some,
  Bytes, List, [], ◌∷◌, ◌++◌, length, All, arith, length-append,
}
use beast.Http.Rfc7230.{is_empty, between, param_begin}
use beast.Http.Rfc7230.Tokens.{find_token}
use beast.Http.Rfc7230.Exts.{
  skip_params, ExtIter, ext_found, ext_increment, ext_begin, ext_at_end, exts_from, ext_list,
}
use beast.Http.Rfc7230.Spans.{IsToken, skip_token-token, between-append}
use beast.Http.Rfc7230.TokenLaws.{
  IsGap, has_comma, find_token-gap, find_token-token, find_token-tail,
}
use beast.Http.Rfc7230.ParamText.{Param, IsParam, params_text, length-params_text}
use beast.Http.Rfc7230.ExtParams.{onto, onto-params_text, StartsComma, skip_params-onto, Ends-onto}
use beast.Http.Rfc7230.Spans.{and-is_empty}

-- What is found where a token stands in front of parameters.
ext_found-onto :
    (first name : Bytes) (ps : List Param) (rest : Bytes)
    → IsToken name
    → All IsParam ps
    → StartsComma rest
    → ext_found first (some (name ++ onto ps rest))
      ≡ record { name = name; params = params_text ps; it = rest; first = first }
unfolding ext_found param_begin
ext_found-onto first [] ps rest t h c = absurd (omega (arith, t.0))
ext_found-onto first (x ∷ xs) ps rest t h c =
    let X = onto ps rest in
    let size : length X ≡ length (params_text ps) + length rest =
      ap length (onto-params_text ps rest) ∙ length-append (params_text ps) rest in
    let past : skip_params (suc (length X)) (param_begin X) ≡ rest =
      skip_params-onto ps rest (suc (length X)) (param_begin X) h c refl
        (omega (arith, size, length-params_text ps)) in
    let params : between X rest ≡ params_text ps =
      ap (λ t. between t rest) (onto-params_text ps rest) ∙ between-append (params_text ps) rest in
    rw
      (skip_token-token xs X t.1.1 (Ends-onto ps rest h c), between-append (x ∷ xs) X, past, params)
      refl

-- An extension, with the gap in front of it.
pub record Ext : Type 0 where
  pub gap : Bytes
  pub name : Bytes
  pub params : List Param

abbrev pub exts_text : List Ext → Bytes → Bytes
exts_text [] tail = tail
exts_text (x ∷ xs) tail = x.gap ++ (x.name ++ onto x.params (exts_text xs tail))

abbrev pub exts_of : List Ext → List (Bytes × Bytes)
exts_of [] = []
exts_of (x ∷ xs) = (x.name, params_text x.params) ∷ exts_of xs

-- Gaps are spaces, tabs and commas; behind an extension they start with a comma.
abbrev pub IsExts : Bool → List Ext → Bytes → Type 0
IsExts comma [] tail = Unit
IsExts comma (x ∷ xs) tail =
    IsGap x.gap
    × IsToken x.name
    × All IsParam x.params
    × ((comma && not (has_comma x.gap)) ≡ false)
    × StartsComma (exts_text xs tail)
    × IsExts true xs tail

ext_increment-item :
    (comma : Bool) (i : ExtIter) (x : Ext) (xs : List Ext) (tail : Bytes)
    → not (length i.it == length i.first) ≡ comma
    → IsExts comma (x ∷ xs) tail
    → i.it ≡ exts_text (x ∷ xs) tail
    → ext_increment i ≡ record {
      name = x.name;
      params = params_text x.params;
      it = exts_text xs tail;
      first = i.it;
    }
unfolding ext_increment
ext_increment-item comma i x xs tail flag s eq =
    let X = onto x.params (exts_text xs tail) in
    let found : find_token comma i.it ≡ some (x.name ++ X) =
      ap (find_token comma) eq
      ∙ find_token-gap comma x.gap (x.name ++ X) s.0
      ∙ ap (λ b. find_token b (x.name ++ X)) s.3
      ∙ find_token-token x.name X s.1 in
    rw (flag, found) (ext_found-onto i.it x.name x.params (exts_text xs tail) s.1 s.2 s.4)

ext_increment-tail :
    (i : ExtIter)
    → IsGap i.it
    → ext_increment i ≡ record { name = []; params = []; it = []; first = [] }
unfolding ext_increment ext_found
ext_increment-tail i h = rw (find_token-tail (not (length i.it == length i.first)) i.it h) refl

exts_from-suc :
    (fuel : ℕ) (i : ExtIter)
    → ext_at_end i ≡ false
    → exts_from (suc fuel) i ≡ (i.name, i.params) ∷ exts_from fuel (ext_increment i)
unfolding exts_from
exts_from-suc fuel i h = rw h refl

exts_from-end :
    (fuel : ℕ) → exts_from (suc fuel) (record { name = []; params = []; it = []; first = [] }) ≡ []
unfolding exts_from ext_at_end
exts_from-end fuel = refl

not_ext_at_end : (i : ExtIter) → 0 < length i.first → ext_at_end i ≡ false
unfolding ext_at_end
not_ext_at_end i h = and-is_empty (is_empty i.it) i.first h

length-exts_text :
    (x : Ext) (xs : List Ext) (tail : Bytes)
    → IsToken x.name
    → length (exts_text xs tail) < length (exts_text (x ∷ xs) tail)
length-exts_text x xs tail t =
    let rest = exts_text xs tail in
    let X = onto x.params rest in
    omega (
      arith,
      t.0,
      length-append x.gap (x.name ++ X),
      length-append x.name X,
      ap length (onto-params_text x.params rest),
      length-append (params_text x.params) rest,
    )

exts_from-text :
    (xs : List Ext) (tail : Bytes) (fuel : ℕ) (comma : Bool) (i : ExtIter)
    → not (length i.it == length i.first) ≡ comma
    → IsGap tail
    → IsExts comma xs tail
    → i.it ≡ exts_text xs tail
    → length xs ≤ fuel
    → exts_from (suc fuel) (ext_increment i) ≡ exts_of xs
exts_from-text [] tail fuel comma i flag g s eq le =
    ap (exts_from (suc fuel)) (ext_increment-tail i (subst IsGap (sym eq) g)) ∙ exts_from-end fuel
exts_from-text (x ∷ xs) tail zero comma i flag g s eq le = absurd (omega arith)
exts_from-text (x ∷ xs) tail (suc fuel) comma i flag g s eq le =
    let i' : ExtIter = record {
      name = x.name;
      params = params_text x.params;
      it = exts_text xs tail;
      first = i.it;
    } in
    let size = length-exts_text x xs tail s.1 in
    let whole = ap length eq in
    ap (exts_from (suc (suc fuel))) (ext_increment-item comma i x xs tail flag s eq)
    ∙ exts_from-suc (suc fuel) i' (not_ext_at_end i' (omega (arith, size, whole)))
    ∙ ap (λ es. (x.name, params_text x.params) ∷ es)
        (exts_from-text xs tail fuel true i' (ground (arith, size, whole)) g s.5 refl (omega arith))

count-exts_text :
    (comma : Bool) (xs : List Ext) (tail : Bytes)
    → IsExts comma xs tail
    → length xs ≤ length (exts_text xs tail)
count-exts_text comma [] tail s = omega arith
count-exts_text comma (x ∷ xs) tail s =
    omega (arith, count-exts_text true xs tail s.5, length-exts_text x xs tail s.1)

-- Extensions that are written out, each a name with parameters whose values are in quotes, behind
-- spaces, tabs and commas, of which a comma stands right behind each extension that anything
-- follows: `ext_list` gives the names, each with the text of its parameters.
pub ext_list-text :
    (xs : List Ext) (tail : Bytes)
    → IsExts false xs tail
    → IsGap tail
    → ext_list (exts_text xs tail) ≡ exts_of xs
unfolding ext_list ext_begin
ext_list-text xs tail s g =
    let all = exts_text xs tail in
    exts_from-text xs tail (length all) false
      (record { name = []; params = []; it = all; first = all }) (ground arith) g s refl
      (count-exts_text false xs tail s)
