-- ===== src/Http/Parser/Fields.antt =====
-- The switch on `fs_` in `s_header_name`, which recognises the fields that the parser itself obeys.
use Prim.Native.Char.{code}
use Prim.Native.String.{String}
use beast.Base.{ℕ, ◌+◌, ◌-◌, ◌%◌, ◌^◌, not, ◌==◌, if◌then◌else◌, Bytes, [], ◌∷◌, length, get_or}
use beast.Http.Parser.Types.{
  FieldState, h_general, h_c, h_co, h_con, h_matching_connection, h_matching_proxy_connection,
  h_matching_content_length, h_matching_transfer_encoding, h_matching_upgrade, h_connection,
  h_content_length0, h_transfer_encoding, h_upgrade, Flags, ErrorCode, bad_content_length,
}

-- The code points of an ASCII literal.
abbrev pub codes : String → Bytes
codes String.[] = []
codes (String.◌∷◌ c s) = code c ∷ codes s

-- `parser_str`
abbrev pub str_close : Bytes
str_close = codes "close"

abbrev pub str_chunked : Bytes
str_chunked = codes "chunked"

abbrev pub str_keep_alive : Bytes
str_keep_alive = codes "keep-alive"

abbrev pub str_upgrade : Bytes
str_upgrade = codes "upgrade"

abbrev pub str_connection : Bytes
str_connection = codes "connection"

abbrev pub str_content_length : Bytes
str_content_length = codes "content-length"

abbrev pub str_proxy_connection : Bytes
str_proxy_connection = codes "proxy-connection"

abbrev pub str_transfer_encoding : Bytes
str_transfer_encoding = codes "transfer-encoding"

-- The members that the two switches change.
pub record Field : Type 0 where
  pub fs : FieldState
  pub pos : ℕ
  pub flags : Flags
  pub content_length : ℕ

pub data FieldResult : Type 0 where
  ok : Field → FieldResult
  bad : ErrorCode → FieldResult

abbrev pub go : Field → FieldState → FieldResult
go f fs = ok (record f { fs = fs })

-- `++pos_` on eight bits, then the comparison with the next character of the string; behind its last
-- character there is the terminating zero.
unfoldable pub advance : Bytes → ℕ → FieldState → FieldState → Field → FieldResult
advance str c full fails f =
    let pos = (f.pos + 1) % 2 ^ 8 in
    if not (c == get_or str pos 0)
    then ok (record f { pos = pos; fs = fails })
    else if pos == length str - 1
    then ok (record f { pos = pos; fs = full })
    else ok (record f { pos = pos })

abbrev bump : Field → FieldState → FieldResult
bump f fs = ok (record f { pos = (f.pos + 1) % 2 ^ 8; fs = fs })

-- "content-length" read to its end: an error if the field was there before.
abbrev refuse_second : FieldState → Field → FieldResult
refuse_second h_content_length0 f = if f.flags.contentlength then bad bad_content_length else ok f
refuse_second _ f = ok f

abbrev second_length : FieldResult → FieldResult
second_length (bad e) = bad e
second_length (ok f) = refuse_second f.fs f

-- The switch on `fs_` in `s_header_name`; `c` is the character in lower case.
unfoldable pub name_char : FieldState → ℕ → Field → FieldResult
unfolding advance
name_char h_c c f = bump f (if c == b'o' then h_co else h_general)
name_char h_co c f = bump f (if c == b'n' then h_con else h_general)
name_char h_con c f = bump f (
    if c == b'n'
    then h_matching_connection
    else if c == b't'
    then h_matching_content_length
    else h_general)
name_char h_matching_connection c f = advance str_connection c h_connection h_general f
name_char h_matching_proxy_connection c f = advance str_proxy_connection c h_connection h_general f
name_char h_matching_content_length c f =
    second_length (advance str_content_length c h_content_length0 h_general f)
name_char h_matching_transfer_encoding c f =
    advance str_transfer_encoding c h_transfer_encoding h_general f
name_char h_matching_upgrade c f = advance str_upgrade c h_upgrade h_general f
name_char h_connection c f = go f h_general
name_char h_content_length0 c f = go f h_general
name_char h_transfer_encoding c f = go f h_general
name_char h_upgrade c f = go f h_general
name_char _ c f = ok f
