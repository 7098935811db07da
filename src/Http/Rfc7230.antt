-- ===== src/Http/Rfc7230.antt =====
-- http/detail/rfc7230.hpp and http/impl/rfc7230.ipp: the parsers of lists in field values. An
-- iterator into a string is the part of the string behind it, so that `last` is the empty one, and
-- two of them are the same where as much is left.
pub mod Tokens
pub mod Exts
pub mod Params
pub mod ParamText
pub mod ExtParams
pub mod ExtText
pub mod Spans
pub mod TokenLaws
pub mod TokenSound
pub mod Unquote
use beast.Base.{
  ℕ, zero, suc, ◌+◌, ◌-◌, ◌≡◌, Bool, true, false, not, ◌&&◌, ◌||◌, ltb, leb, ◌==◌, if◌then◌else◌,
  Option, none, some, Bytes, List, [], ◌∷◌, ◌++◌, length, take, drop,
}
use beast.Http.Chars.{is_tchar, is_qdchar, is_qpchar}

abbrev pub is_ows : ℕ → Bool
is_ows c = (c == 32) || (c == 9)

abbrev pub is_empty : Bytes → Bool
is_empty [] = true
is_empty (c ∷ cs) = false

-- What stands between two iterators.
abbrev pub between : Bytes → Bytes → Bytes
between first last = take (length first - length last) first

unfoldable pub skip_ows : Bytes → Bytes
skip_ows [] = []
skip_ows (c ∷ cs) = let rest = skip_ows cs in if is_ows c then rest else c ∷ cs

unfoldable pub skip_token : Bytes → Bytes
skip_token [] = []
skip_token (c ∷ cs) = let rest = skip_token cs in if is_tchar c then rest else c ∷ cs

-- The second loop of `trim`, which goes back from the end.
unfoldable pub trim_end : Bytes → Bytes
trim_end [] = []
trim_end (c ∷ cs) = let rest = trim_end cs in if is_ows c && is_empty rest then [] else c ∷ rest

unfoldable pub trim : Bytes → Bytes
unfolding skip_ows trim_end
trim s = trim_end (skip_ows s)

-- `param_iter`
pub record ParamIter : Type 0 where
  pub it : Bytes
  pub first : Bytes
  pub name : Bytes
  pub value : Bytes

-- `param_iter::empty`
unfoldable pub param_empty : ParamIter → Bool
param_empty pi = length pi.first == length pi.it

-- The loop of a quoted string behind its first quote, and where it leaves; `escaped` behind a
-- backslash. `none` is the error.
unfoldable pub quoted : Bool → Bytes → Option Bytes
quoted escaped [] = none
quoted true (c ∷ cs) = let rest = quoted false cs in if is_qpchar c then rest else none
quoted false (c ∷ cs) =
    let rest = quoted (not (is_qdchar c)) cs in
    if c == 34 then some cs else if is_qdchar c then rest else if c == 92 then rest else none

-- `param_iter::increment` behind the equals sign.
unfoldable pub param_value : Bytes → Bytes → Bytes → ParamIter
unfolding quoted skip_token
param_value first name [] = record { it = []; first = first; name = name; value = [] }
param_value first name (c ∷ cs) =
    if c == 34 then string (quoted false cs) else if is_tchar c then valued (skip_token cs) else err
  where
    err : ParamIter
    err = record { it = first; first = first; name = name; value = [] }

    valued : Bytes → ParamIter
    valued it = record { it = it; first = first; name = name; value = between (c ∷ cs) it }

    string : Option Bytes → ParamIter
    string none = err
    string (some it) = valued it

-- Behind the name.
unfoldable pub param_equals : Bytes → Bytes → Bytes → ParamIter
unfolding param_value skip_ows
param_equals first name [] = record { it = []; first = first; name = name; value = [] }
param_equals first name (c ∷ cs) =
    if c == 59
    then record { it = c ∷ cs; first = first; name = name; value = [] }
    else if c == 61
    then param_value first name (skip_ows cs)
    else record { it = first; first = first; name = name; value = [] }

-- Behind the semicolon.
unfoldable pub param_name : Bytes → Bytes → ParamIter
unfolding param_equals skip_ows skip_token
param_name first [] = record { it = first; first = first; name = []; value = [] }
param_name first (c ∷ cs) =
    let it = skip_token cs in
    if is_tchar c
    then param_equals first (between (c ∷ cs) it) (skip_ows it)
    else record { it = first; first = first; name = []; value = [] }

-- `param_iter::increment` from the first character that is no space.
unfoldable pub param_start : Bytes → ParamIter
unfolding param_name skip_ows
param_start [] = record { it = []; first = []; name = []; value = [] }
param_start (c ∷ cs) =
    if c == 59
    then param_name (c ∷ cs) (skip_ows cs)
    else record { it = c ∷ cs; first = c ∷ cs; name = []; value = [] }

unfoldable pub param_increment : ParamIter → ParamIter
unfolding param_start skip_ows
param_increment pi = param_start (skip_ows pi.it)

-- The loop of `unquote` between the quotes; `none` where it runs past the closing one.
unfoldable pub unescape : Bool → Bytes → Option Bytes
unescape false [] = some []
unescape true [] = none
unescape escaped (c ∷ cs) =
    let backslash = not escaped && (c == 92) in
    let rest = unescape backslash cs in if backslash then rest else prepend rest
  where
    prepend : Option Bytes → Option Bytes
    prepend none = none
    prepend (some s) = some (c ∷ s)

-- `param_list::const_iterator::unquote`
unfoldable pub unquote : Bytes → Option Bytes
unfolding unescape
unquote sr = unescape false (take (length sr - 2) (drop 1 sr))

-- What `param_list::const_iterator` has for a value; `none` where `unquote` fails.
unfoldable pub param_plain : Bytes → Option Bytes
unfolding unquote
param_plain [] = some []
param_plain (c ∷ cs) = if c == 34 then unquote (c ∷ cs) else some (c ∷ cs)

-- The loop over a `param_list`, on fuel.
unfoldable pub params_from : ℕ → ParamIter → List (Bytes × Option Bytes)
unfolding param_increment param_empty param_plain
params_from zero pi = []
params_from (suc fuel) pi =
    let pi' = param_increment pi in
    let rest = params_from fuel pi' in
    if param_empty pi' then [] else (pi'.name, param_plain pi'.value) ∷ rest

unfoldable pub param_begin : Bytes → ParamIter
param_begin s = record { it = s; first = s; name = []; value = [] }

unfoldable pub param_list : Bytes → List (Bytes × Option Bytes)
unfolding params_from param_begin
param_list s = params_from (suc (length s)) (param_begin s)
