-- ===== src/Examples/Fields.antt =====
-- Field values: lists of tokens and of parameters, and names compared without case.
use beast.Base.{◌≡◌, refl, true, false, some, Bytes, List, [], ◌∷◌, ◌++◌, All, arith}
use beast.Core.CiChar.{ci_equal, ci_less, Compared, ci_less-ci_equal}
use beast.Http.Chars.{is_tchar, is_qdchar, is_qpchar}
use beast.Http.Rfc7230.{
  ParamIter, param_begin, skip_ows, skip_token, param_value, param_equals, param_name, param_start,
  param_increment, param_plain, param_list, param_empty,
}
use beast.Http.Rfc7230.Tokens.{
  find_token, token_found, token_increment, token_begin, token_at_end, tokens_from, token_list,
}
use beast.Http.Rfc7230.Exts.{
  skip_params, ext_found, ext_increment, ext_begin, ext_at_end, exts_from, ext_list,
}
use beast.Http.Rfc7230.Spans.{IsToken}
use beast.Http.Rfc7230.TokenLaws.{Item, item, Separated, text, token_list-text}
use beast.Http.Rfc7230.TokenSound.{token_list-IsToken, token_list-fuel}
use beast.Http.Rfc7230.ExtText.{Ext, exts_text, IsExts, ext_list-text}
use beast.Http.Rfc7230.Unquote.{IsSome}
use beast.Http.Rfc7230.Params.{param_increment-IsSome}
use beast.Http.Rfc7230.ParamText.{Param, IsParam, params_text, param_list-text}

-- ` x,, yz` and `, ` behind.
abbrev two_tokens : List Item
two_tokens = item (b' ' ∷ []) (b'x' ∷ []) ∷ item (b',' ∷ b',' ∷ b' ' ∷ []) (b'y' ∷ b'z' ∷ []) ∷ []

abbrev behind : Bytes
behind = b',' ∷ b' ' ∷ []

two_tokens-Separated : Separated false two_tokens
unfolding is_tchar
two_tokens-Separated = (
  (refl, tt),
  (omega arith, (refl, tt)),
  refl,
  ((refl, (refl, (refl, tt))), (omega arith, (refl, (refl, tt))), refl, tt),
)

token_list-text_example :
    token_list (text two_tokens ++ behind) ≡ (b'x' ∷ []) ∷ (b'y' ∷ b'z' ∷ []) ∷ []
token_list-text_example = token_list-text two_tokens behind two_tokens-Separated (refl, (refl, tt))

-- Two tokens without a comma between them: the list ends at the first.
abbrev no_comma : Bytes
no_comma = b'x' ∷ b' ' ∷ b'y' ∷ []

no_comma_tokens : token_list no_comma ≡ (b'x' ∷ []) ∷ []
unfolding token_list token_begin tokens_from token_at_end token_increment token_found find_token
    skip_token is_tchar
no_comma_tokens = refl

token_list-IsToken_example : All IsToken (token_list no_comma)
token_list-IsToken_example = token_list-IsToken no_comma

token_list-fuel_example : tokens_from 10 (token_begin no_comma) ≡ token_list no_comma
token_list-fuel_example = token_list-fuel no_comma 6

-- `;a="b\"c" ; d="é"`
abbrev two_params : List Param
two_params =
    record {
      before_semicolon = [];
      before_name = [];
      name = b'a' ∷ [];
      before_equals = [];
      before_value = [];
      value = b'b' ∷ 34 ∷ b'c' ∷ [];
    }
    ∷ record {
      before_semicolon = b' ' ∷ [];
      before_name = b' ' ∷ [];
      name = b'd' ∷ [];
      before_equals = [];
      before_value = 9 ∷ [];
      value = 233 ∷ [];
    }
    ∷ []

two_params-IsParam : All IsParam two_params
unfolding is_tchar is_qdchar is_qpchar
two_params-IsParam = (
  record {
    ows_semicolon = tt;
    ows_name = tt;
    token = (omega arith, (refl, tt));
    ows_equals = tt;
    ows_value = tt;
    quotable = (refl, (refl, (refl, tt)));
  },
  (
    record {
      ows_semicolon = (refl, tt);
      ows_name = (refl, tt);
      token = (omega arith, (refl, tt));
      ows_equals = tt;
      ows_value = (refl, tt);
      quotable = (refl, tt);
    },
    tt,
  ),
)

param_list-text_example :
    param_list (params_text two_params)
    ≡ (b'a' ∷ [], some (b'b' ∷ 34 ∷ b'c' ∷ [])) ∷ (b'd' ∷ [], some (233 ∷ [])) ∷ []
param_list-text_example = param_list-text two_params two_params-IsParam

abbrev open_quote : ParamIter
open_quote = record {
  it = b';' ∷ b'a' ∷ b'=' ∷ 34 ∷ b'b' ∷ 92 ∷ [];
  first = [];
  name = [];
  value = [];
}

param_increment-IsSome_example : IsSome (param_plain (param_increment open_quote).value)
param_increment-IsSome_example = param_increment-IsSome open_quote

-- An extension with parameters, and one without.
abbrev extensions : Bytes
extensions = b'x' ∷ b';' ∷ b'a' ∷ b'=' ∷ b'1' ∷ b',' ∷ b'y' ∷ []

extensions_listed :
    ext_list extensions ≡ (b'x' ∷ [], b';' ∷ b'a' ∷ b'=' ∷ b'1' ∷ []) ∷ (b'y' ∷ [], []) ∷ []
unfolding ext_list ext_begin exts_from ext_at_end ext_increment ext_found find_token skip_token
    skip_params param_begin param_increment param_start param_name param_equals param_value
    param_empty skip_ows is_tchar
extensions_listed = refl

-- The order of two texts whose octets do not tell it where `char` is signed.
ci_less-ci_equal_example :
    Compared true
      (b'A' ∷ 0xe9 ∷ [])
      (b'a' ∷ b'b' ∷ [])
      (ci_less true (b'A' ∷ 0xe9 ∷ []) (b'a' ∷ b'b' ∷ []))
      (ci_equal (b'A' ∷ 0xe9 ∷ []) (b'a' ∷ b'b' ∷ []))
      (ci_less true (b'a' ∷ b'b' ∷ []) (b'A' ∷ 0xe9 ∷ []))
ci_less-ci_equal_example =
    ci_less-ci_equal true (b'A' ∷ 0xe9 ∷ []) (b'a' ∷ b'b' ∷ []) (omega arith) (omega arith)

-- `x;a="b\"c" ; d="é",y`
abbrev two_exts : List Ext
two_exts =
    record { gap = []; name = b'x' ∷ []; params = two_params }
    ∷ record { gap = b',' ∷ []; name = b'y' ∷ []; params = [] }
    ∷ []

two_exts-IsExts : IsExts false two_exts []
unfolding is_tchar
two_exts-IsExts = (
  tt,
  (omega arith, (refl, tt)),
  two_params-IsParam,
  refl,
  refl,
  ((refl, tt), (omega arith, (refl, tt)), tt, refl, tt, tt),
)

ext_list-text_example :
    ext_list (exts_text two_exts []) ≡ (b'x' ∷ [], params_text two_params) ∷ (b'y' ∷ [], []) ∷ []
ext_list-text_example = ext_list-text two_exts [] two_exts-IsExts tt
