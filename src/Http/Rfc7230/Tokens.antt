-- ===== src/Http/Rfc7230/Tokens.antt =====
-- http/impl/rfc7230.ipp: `token_list`, and the loop that it shares with `ext_list`.
use beast.Base.{
  ℕ, zero, suc, Bool, false, not, ◌&&◌, ◌||◌, ◌==◌, if◌then◌else◌, Option, none, some, Bytes, List,
  [], ◌∷◌, length, drop,
}
use beast.Core.CiChar.{ci_equal}
use beast.Http.Chars.{is_tchar}
use beast.Http.Rfc7230.{is_ows, is_empty, between, skip_token}

-- The loop of `token_list` and of `ext_list` up to a token, and where it starts; `none` is the
-- error. A turn is for one character, spaces included.
unfoldable pub find_token : Bool → Bytes → Option Bytes
find_token need_comma [] = none
find_token need_comma (c ∷ cs) =
    let rest = find_token (need_comma && is_ows c) cs in
    if is_ows c
    then rest
    else if is_tchar c
    then if need_comma then none else some (c ∷ cs)
    else if c == 44
    then rest
    else none

-- `token_list::const_iterator`
pub record TokenIter : Type 0 where
  pub v : Bytes
  pub it : Bytes
  pub first : Bytes

-- What `increment` makes of the token that the loop has found.
unfoldable pub token_found : Bytes → Option Bytes → TokenIter
unfolding skip_token
token_found first none = record { v = []; it = []; first = [] }
token_found first (some p0) =
    let it = skip_token (drop 1 p0) in record { v = between p0 it; it = it; first = first }

unfoldable pub token_increment : TokenIter → TokenIter
unfolding find_token token_found
token_increment i = token_found i.it (find_token (not (length i.it == length i.first)) i.it)

-- `token_list::begin`
unfoldable pub token_begin : Bytes → TokenIter
unfolding token_increment
token_begin s = token_increment (record { v = []; it = s; first = s })

-- The comparison with `end`.
unfoldable pub token_at_end : TokenIter → Bool
token_at_end i = is_empty i.it && is_empty i.first

-- The loop over a `token_list`, on fuel.
unfoldable pub tokens_from : ℕ → TokenIter → List Bytes
unfolding token_increment token_at_end
tokens_from zero i = []
tokens_from (suc fuel) i =
    let rest = tokens_from fuel (token_increment i) in if token_at_end i then [] else i.v ∷ rest

unfoldable pub token_list : Bytes → List Bytes
unfolding tokens_from token_begin
token_list s = tokens_from (suc (length s)) (token_begin s)

abbrev pub any_equal : Bytes → List Bytes → Bool
any_equal t [] = false
any_equal t (v ∷ vs) = ci_equal t v || any_equal t vs

-- `token_list::exists`
unfoldable pub token_exists : Bytes → Bytes → Bool
unfolding token_list
token_exists s t = any_equal t (token_list s)
