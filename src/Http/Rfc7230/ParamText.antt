-- ===== src/Http/Rfc7230/ParamText.antt =====
-- `param_list` on parameters that are written out.
use beast.Base.{
  ℕ, zero, suc, ◌≡◌, ◌≤◌, refl, sym, ap, ◌∙◌, true, false, Option, some, Bytes, List, [], ◌∷◌, ◌++◌,
  length, All, arith, length-append, append_assoc,
}
use beast.Http.Chars.{is_tchar}
use beast.Http.Rfc7230.{
  is_ows, between, skip_ows, ParamIter, param_empty, param_value, param_equals, param_name,
  param_start, param_increment, param_plain, params_from, param_begin, param_list,
}
use beast.Http.Rfc7230.Spans.{
  IsToken, Ends, skip_token-token, between-append, separator-tchar, tchar-ows,
}
use beast.Http.Rfc7230.Unquote.{IsQuotable, quote, escape, param_plain-quote, quoted-quote}

abbrev pub IsOws : Bytes → Type 0
IsOws = All (λ c. is_ows c ≡ true)

-- A parameter with a quoted value, and the spaces in it.
pub record Param : Type 0 where
  pub before_semicolon : Bytes
  pub before_name : Bytes
  pub name : Bytes
  pub before_equals : Bytes
  pub before_value : Bytes
  pub value : Bytes

pub record IsParam (p : Param) : Type 0 where
  pub ows_semicolon : IsOws p.before_semicolon
  pub ows_name : IsOws p.before_name
  pub token : IsToken p.name
  pub ows_equals : IsOws p.before_equals
  pub ows_value : IsOws p.before_value
  pub quotable : IsQuotable p.value

-- Its parts from behind, each in front of the text that follows.
abbrev pub value_text : Param → Bytes → Bytes
value_text p rest = 34 ∷ (escape p.value ++ (34 ∷ rest))

abbrev pub equals_text : Param → Bytes → Bytes
equals_text p rest = 61 ∷ (p.before_value ++ value_text p rest)

abbrev pub name_text : Param → Bytes → Bytes
name_text p rest = p.name ++ (p.before_equals ++ equals_text p rest)

abbrev pub semicolon_text : Param → Bytes → Bytes
semicolon_text p rest = 59 ∷ (p.before_name ++ name_text p rest)

abbrev pub param_text : Param → Bytes → Bytes
param_text p rest = p.before_semicolon ++ semicolon_text p rest

abbrev pub params_text : List Param → Bytes
params_text [] = []
params_text (p ∷ ps) = param_text p (params_text ps)

-- What is no space ends a run of spaces.
abbrev Stops : Bytes → Type 0
Stops [] = Unit
Stops (c ∷ cs) = is_ows c ≡ false

skip_ows-ows : (w rest : Bytes) → IsOws w → Stops rest → skip_ows (w ++ rest) ≡ rest
unfolding skip_ows
skip_ows-ows [] [] h s = refl
skip_ows-ows [] (c ∷ cs) h s = rw s refl
skip_ows-ows (c ∷ cs) rest h s = rw h.0 (skip_ows-ows cs rest h.1 s)

Ends-ows : (w rest : Bytes) → IsOws w → Ends rest → Ends (w ++ rest)
Ends-ows [] rest h e = e
Ends-ows (c ∷ cs) rest h e = separator-tchar c (ground (arith, h.0))

equals_tchar : is_tchar 61 ≡ false
unfolding is_tchar
equals_tchar = refl

-- The value, behind the equals sign.
param_value-text :
    (first name : Bytes) (p : Param) (rest : Bytes)
    → IsParam p
    → param_value first name (value_text p rest)
      ≡ record { it = rest; first = first; name = name; value = quote p.value }
unfolding param_value
param_value-text first name p rest h =
    let e = escape p.value in
    let part : between (34 ∷ (e ++ (34 ∷ rest))) rest ≡ quote p.value =
      ap (λ t. between (34 ∷ t) rest) (sym (append_assoc e (34 ∷ []) rest))
      ∙ between-append (34 ∷ (e ++ (34 ∷ []))) rest in
    rw (quoted-quote p.value rest h.quotable, part) refl

param_equals-text :
    (first name : Bytes) (p : Param) (rest : Bytes)
    → IsParam p
    → param_equals first name (equals_text p rest)
      ≡ record { it = rest; first = first; name = name; value = quote p.value }
unfolding param_equals
param_equals-text first name p rest h =
    rw (skip_ows-ows p.before_value (value_text p rest) h.ows_value refl)
      (param_value-text first name p rest h)

param_name-token :
    (first n rest : Bytes)
    → IsToken n
    → Ends rest
    → param_name first (n ++ rest) ≡ param_equals first n (skip_ows rest)
unfolding param_name
param_name-token first [] rest h e = absurd (omega (arith, h.0))
param_name-token first (c ∷ cs) rest h e =
    rw (h.1.0, skip_token-token cs rest h.1.1 e, between-append (c ∷ cs) rest) refl

param_name-text :
    (first : Bytes) (p : Param) (rest : Bytes)
    → IsParam p
    → param_name first (name_text p rest)
      ≡ record { it = rest; first = first; name = p.name; value = quote p.value }
param_name-text first p rest h =
    let tail = equals_text p rest in
    param_name-token first p.name (p.before_equals ++ tail) h.token
      (Ends-ows p.before_equals tail h.ows_equals equals_tchar)
    ∙ ap (param_equals first p.name) (skip_ows-ows p.before_equals tail h.ows_equals refl)
    ∙ param_equals-text first p.name p rest h

Stops-token : (n rest : Bytes) → IsToken n → Stops (n ++ rest)
Stops-token [] rest h = absurd (omega (arith, h.0))
Stops-token (c ∷ cs) rest h = ground (arith, tchar-ows c h.1.0)

param_start-text :
    (p : Param) (rest : Bytes)
    → IsParam p
    → param_start (semicolon_text p rest)
      ≡ record { it = rest; first = semicolon_text p rest; name = p.name; value = quote p.value }
unfolding param_start
param_start-text p rest h =
    let tail = p.before_equals ++ equals_text p rest in
    ap (param_name (semicolon_text p rest))
      (skip_ows-ows p.before_name (p.name ++ tail) h.ows_name (Stops-token p.name tail h.token))
    ∙ param_name-text (semicolon_text p rest) p rest h

pub param_increment-text :
    (pi : ParamIter) (p : Param) (rest : Bytes)
    → IsParam p
    → pi.it ≡ param_text p rest
    → param_increment pi
      ≡ record { it = rest; first = semicolon_text p rest; name = p.name; value = quote p.value }
unfolding param_increment
param_increment-text pi p rest h e =
    ap (λ s. param_start (skip_ows s)) e
    ∙ ap param_start (skip_ows-ows p.before_semicolon (semicolon_text p rest) h.ows_semicolon refl)
    ∙ param_start-text p rest h

params_from-suc :
    (fuel : ℕ) (pi pi' : ParamIter)
    → param_increment pi ≡ pi'
    → param_empty pi' ≡ false
    → params_from (suc fuel) pi ≡ (pi'.name, param_plain pi'.value) ∷ params_from fuel pi'
unfolding params_from
params_from-suc fuel pi pi' e h = rw (e, h) refl

params_from-nil : (fuel : ℕ) (pi : ParamIter) → pi.it ≡ [] → params_from fuel pi ≡ []
unfolding params_from param_increment skip_ows param_start param_empty
params_from-nil zero pi e = refl
params_from-nil (suc fuel) pi e = rw e refl

pub semicolon-not_empty :
    (p : Param) (rest value : Bytes)
    → param_empty
        (record { it = rest; first = semicolon_text p rest; name = p.name; value = value })
      ≡ false
unfolding param_empty
semicolon-not_empty p rest value =
    let behind = p.before_equals ++ equals_text p rest in
    let e = escape p.value in
    ground (
      arith,
      length-append p.before_name (name_text p rest),
      length-append p.name behind,
      length-append p.before_equals (equals_text p rest),
      length-append p.before_value (value_text p rest),
      length-append e (34 ∷ rest),
    )

abbrev pub params_of : List Param → List (Bytes × Option Bytes)
params_of [] = []
params_of (p ∷ ps) = (p.name, some p.value) ∷ params_of ps

params_from-text :
    (ps : List Param) (fuel : ℕ) (pi : ParamIter)
    → All IsParam ps
    → pi.it ≡ params_text ps
    → length ps ≤ fuel
    → params_from fuel pi ≡ params_of ps
params_from-text [] fuel pi h e le = params_from-nil fuel pi e
params_from-text (p ∷ ps) zero pi h e le = absurd (omega arith)
params_from-text (p ∷ ps) (suc fuel) pi h e le =
    let rest = params_text ps in
    let pi' : ParamIter = record {
      it = rest;
      first = semicolon_text p rest;
      name = p.name;
      value = quote p.value;
    } in
    params_from-suc fuel pi pi' (param_increment-text pi p rest h.0 e)
      (semicolon-not_empty p rest (quote p.value))
    ∙ ap (λ v. (p.name, v) ∷ params_from fuel pi') (param_plain-quote p.value)
    ∙ ap (λ ps'. (p.name, some p.value) ∷ ps') (params_from-text ps fuel pi' h.1 refl (omega arith))

pub length-params_text : (ps : List Param) → length ps ≤ length (params_text ps)
length-params_text [] = omega arith
length-params_text (p ∷ ps) =
    let rest = params_text ps in
    let behind = p.before_equals ++ equals_text p rest in
    omega (
      arith,
      length-params_text ps,
      length-append p.before_semicolon (semicolon_text p rest),
      length-append p.before_name (name_text p rest),
      length-append p.name behind,
      length-append p.before_equals (equals_text p rest),
      length-append p.before_value (value_text p rest),
      length-append (escape p.value) (34 ∷ rest),
    )

-- Parameters that are written out, with their values in quotes and any spaces and tabs around their
-- parts, are what `param_list` gives, values without quotes and backslashes.
pub param_list-text :
    (ps : List Param) → All IsParam ps → param_list (params_text ps) ≡ params_of ps
unfolding param_list param_begin
param_list-text ps h =
    let s = params_text ps in
    params_from-text ps (suc (length s)) (record { it = s; first = s; name = []; value = [] }) h
      refl (omega (arith, length-params_text ps))
