-- ===== src/Http/Rfc7230/ExtParams.antt =====
-- The loop of `ext_list` that goes past the parameters, in front of parameters that are written out.
use mathlib.Core.Path.{subst}
use beast.Base.{
  ℕ, zero, suc, ◌≡◌, ◌≤◌, refl, sym, ap, ◌∙◌, true, false, ◌==◌, Bytes, List, [], ◌∷◌, ◌++◌, length,
  All, arith, append_assoc,
}
use beast.Http.Chars.{is_tchar}
use beast.Http.Rfc7230.{skip_ows, ParamIter, param_empty, param_start, param_increment}
use beast.Http.Rfc7230.Exts.{skip_params}
use beast.Http.Rfc7230.Spans.{Ends, separator-tchar}
use beast.Http.Rfc7230.ParamText.{
  Param, IsParam, IsOws, param_text, params_text, semicolon_text, param_increment-text,
  semicolon-not_empty,
}
use beast.Http.Rfc7230.Unquote.{quote}

-- Parameters in front of a text.
abbrev pub onto : List Param → Bytes → Bytes
onto [] rest = rest
onto (p ∷ ps) rest = param_text p (onto ps rest)

pub onto-params_text : (ps : List Param) (rest : Bytes) → onto ps rest ≡ params_text ps ++ rest
onto-params_text [] rest = refl
onto-params_text (p ∷ ps) rest =
    ap (param_text p) (onto-params_text ps rest) ∙ sym (param_text-append p (params_text ps) rest)
  where
    param_text-append :
        (q : Param) (xs ys : Bytes) → param_text q xs ++ ys ≡ param_text q (xs ++ ys)
    param_text-append q xs ys = simp append_assoc refl

-- What follows an extension: nothing, or a comma.
abbrev pub StartsComma : Bytes → Type 0
StartsComma [] = Unit
StartsComma (c ∷ cs) = c ≡ 44

-- No parameter stands in front of it.
param_increment-stop :
    (pi : ParamIter)
    → StartsComma pi.it
    → param_increment pi ≡ record { it = pi.it; first = pi.it; name = []; value = [] }
unfolding param_increment param_start skip_ows
param_increment-stop pi h = stops pi.it h
  where
    stops :
        (s : Bytes)
        → StartsComma s
        → param_start (skip_ows s) ≡ record { it = s; first = s; name = []; value = [] }
    stops [] k = refl
    stops (c ∷ cs) k = rw k refl

skip_params-stop : (fuel : ℕ) (pi : ParamIter) → StartsComma pi.it → skip_params fuel pi ≡ pi.it
unfolding skip_params param_empty
skip_params-stop zero pi h = refl
skip_params-stop (suc fuel) pi h =
    let same : (length pi.it == length pi.it) ≡ true = ground arith in
    rw (param_increment-stop pi h, same) refl

skip_params-suc :
    (fuel : ℕ) (pi pi' : ParamIter)
    → param_increment pi ≡ pi'
    → param_empty pi' ≡ false
    → skip_params (suc fuel) pi ≡ skip_params fuel pi'
unfolding skip_params
skip_params-suc fuel pi pi' e h = rw (e, h) refl

pub skip_params-onto :
    (ps : List Param) (rest : Bytes) (fuel : ℕ) (pi : ParamIter)
    → All IsParam ps
    → StartsComma rest
    → pi.it ≡ onto ps rest
    → length ps ≤ fuel
    → skip_params fuel pi ≡ rest
skip_params-onto [] rest fuel pi h c e le =
    skip_params-stop fuel pi (subst StartsComma (sym e) c) ∙ e
skip_params-onto (p ∷ ps) rest zero pi h c e le = absurd (omega arith)
skip_params-onto (p ∷ ps) rest (suc fuel) pi h c e le =
    let tail = onto ps rest in
    let pi' : ParamIter = record {
      it = tail;
      first = semicolon_text p tail;
      name = p.name;
      value = quote p.value;
    } in
    skip_params-suc fuel pi pi' (param_increment-text pi p tail h.0 e)
      (semicolon-not_empty p tail (quote p.value))
    ∙ skip_params-onto ps rest fuel pi' h.1 c refl (omega arith)

semicolon_tchar : is_tchar 59 ≡ false
unfolding is_tchar
semicolon_tchar = refl

pub Ends-onto :
    (ps : List Param) (rest : Bytes) → All IsParam ps → StartsComma rest → Ends (onto ps rest)
Ends-onto [] [] h c = tt
Ends-onto [] (x ∷ xs) h c = separator-tchar x (ground (arith, c))
Ends-onto (p ∷ ps) rest h c = before p.before_semicolon h.0.ows_semicolon
  where
    before : (w : Bytes) → IsOws w → Ends (w ++ semicolon_text p (onto ps rest))
    before [] o = semicolon_tchar
    before (x ∷ xs) o = separator-tchar x (ground (arith, o.0))
