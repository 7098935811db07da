-- ===== src/Http/Rfc7230/Exts.antt =====
-- http/impl/rfc7230.ipp: `ext_list`.
use beast.Base.{
  ℕ, zero, suc, Bool, not, ◌&&◌, ◌==◌, if◌then◌else◌, Option, none, some, Bytes, List, [], ◌∷◌,
  length, drop,
}
use beast.Core.CiChar.{ci_equal}
use beast.Http.Rfc7230.{
  is_empty, between, skip_token, ParamIter, param_increment, param_empty, param_begin,
}
use beast.Http.Rfc7230.Tokens.{find_token}

-- The loop of `ext_list` that goes past the parameters, on fuel.
unfoldable pub skip_params : ℕ → ParamIter → Bytes
unfolding param_increment param_empty
skip_params zero pi = pi.it
skip_params (suc fuel) pi =
    let pi' = param_increment pi in
    let rest = skip_params fuel pi' in if param_empty pi' then pi'.it else rest

-- `ext_list::const_iterator`; `params` is the string of the `param_list`.
pub record ExtIter : Type 0 where
  pub name : Bytes
  pub params : Bytes
  pub it : Bytes
  pub first : Bytes

unfoldable pub ext_found : Bytes → Option Bytes → ExtIter
unfolding skip_token skip_params param_begin
ext_found first none = record { name = []; params = []; it = []; first = [] }
ext_found first (some p0) =
    let p1 = skip_token (drop 1 p0) in
    let it = skip_params (suc (length p1)) (param_begin p1) in
    record { name = between p0 p1; params = between p1 it; it = it; first = first }

unfoldable pub ext_increment : ExtIter → ExtIter
unfolding find_token ext_found
ext_increment i = ext_found i.it (find_token (not (length i.it == length i.first)) i.it)

unfoldable pub ext_begin : Bytes → ExtIter
unfolding ext_increment
ext_begin s = ext_increment (record { name = []; params = []; it = s; first = s })

unfoldable pub ext_at_end : ExtIter → Bool
ext_at_end i = is_empty i.it && is_empty i.first

-- The loop over an `ext_list`, on fuel.
unfoldable pub exts_from : ℕ → ExtIter → List (Bytes × Bytes)
unfolding ext_increment ext_at_end
exts_from zero i = []
exts_from (suc fuel) i =
    let rest = exts_from fuel (ext_increment i) in
    if ext_at_end i then [] else (i.name, i.params) ∷ rest

unfoldable pub ext_list : Bytes → List (Bytes × Bytes)
unfolding exts_from ext_begin
ext_list s = exts_from (suc (length s)) (ext_begin s)

-- `ext_list::find`, what it finds.
unfoldable pub ext_find : Bytes → Bytes → Option (Bytes × Bytes)
unfolding ext_list
ext_find s t = go (ext_list s)
  where
    go : List (Bytes × Bytes) → Option (Bytes × Bytes)
    go [] = none
    go (e ∷ es) = if ci_equal t e.0 then some e else go es
