-- ===== src/Http/Parser/Values.antt =====
-- The switches on `fs_` in `s_header_value`, where a line is folded, and at the end of a value.
use beast.Base.{ℕ, ◌+◌, ◌-◌, ◌*◌, ◌/◌, Bool, true, not, ◌&&◌, ◌||◌, ltb, ◌==◌, if◌then◌else◌}
use beast.Http.Chars.{is_digit, is_tchar}
use beast.Http.Parser.Fields.{
  Field, FieldResult, ok, bad, go, advance, str_close, str_chunked, str_keep_alive, str_upgrade,
}
use beast.Http.Parser.Types.{
  FieldState, h_general, h_connection, h_content_length0, h_content_length, h_content_length_ows,
  h_transfer_encoding, h_upgrade, h_matching_transfer_encoding_chunked,
  h_matching_transfer_encoding_general, h_matching_connection_keep_alive,
  h_matching_connection_close, h_matching_connection_upgrade, h_transfer_encoding_chunked,
  h_transfer_encoding_chunked_ows, h_connection_keep_alive, h_connection_keep_alive_ows,
  h_connection_close, h_connection_close_ows, h_connection_upgrade, h_connection_upgrade_ows,
  h_connection_token, h_connection_token_ows, Flags, bad_content_length, bad_value,
  no_content_length,
}

abbrev pub is_blank : ℕ → Bool
is_blank ch = ch == b' ' || ch == b'\t'

abbrev begin : Field → FieldState → FieldResult
begin f fs = ok (record f { fs = fs; pos = 0 })

abbrev flag_close : Field → Field
flag_close f = record f { flags = record f.flags { connection_close = true } }

abbrev flag_keep_alive : Field → Field
flag_keep_alive f = record f { flags = record f.flags { connection_keep_alive = true } }

abbrev flag_upgrade : Field → Field
flag_upgrade f = record f { flags = record f.flags { connection_upgrade = true } }

-- A connection option that has been read in full: `flag` is set where the list goes on.
unfoldable pub option_end : ℕ → FieldState → Field → Field → FieldResult
option_end ch ows flagged f =
    if ch == b','
    then go flagged h_connection
    else if is_blank ch
    then go f ows
    else if is_tchar ch
    then go f h_connection_token
    else bad bad_value

unfoldable pub option_ows : ℕ → Field → Field → FieldResult
option_ows ch flagged f =
    if ch == b',' then go flagged h_connection else if is_blank ch then ok f else bad bad_value

-- One more digit of the content length, unless it would not fit.
unfoldable pub length_digit : ℕ → Field → FieldResult
unfolding is_digit
length_digit ch f =
    if not (is_digit ch)
    then bad bad_content_length
    else if ltb ((no_content_length - 10) / 10) f.content_length
    then bad bad_content_length
    else ok (record f { content_length = f.content_length * 10 + ch - b'0' })

-- `ch` is the character and `c` the same in lower case.
unfoldable pub value_char : FieldState → ℕ → ℕ → Field → FieldResult
unfolding advance option_end option_ows length_digit is_digit
value_char h_connection ch c f =
    if c == b'k'
    then begin f h_matching_connection_keep_alive
    else if c == b'c'
    then begin f h_matching_connection_close
    else if c == b'u'
    then begin f h_matching_connection_upgrade
    else if is_blank ch || ch == b','
    then ok f
    else if not (is_tchar ch)
    then bad bad_value
    else go f h_connection_token
value_char h_matching_connection_keep_alive ch c f =
    advance str_keep_alive c h_connection_keep_alive h_connection_token f
value_char h_matching_connection_close ch c f =
    advance str_close c h_connection_close h_connection_token f
value_char h_matching_connection_upgrade ch c f =
    advance str_upgrade c h_connection_upgrade h_connection_token f
value_char h_connection_close ch c f = option_end ch h_connection_close_ows (flag_close f) f
value_char h_connection_close_ows ch c f = option_ows ch (flag_close f) f
value_char h_connection_keep_alive ch c f =
    option_end ch h_connection_keep_alive_ows (flag_keep_alive f) f
value_char h_connection_keep_alive_ows ch c f = option_ows ch (flag_keep_alive f) f
value_char h_connection_upgrade ch c f = option_end ch h_connection_upgrade_ows (flag_upgrade f) f
value_char h_connection_upgrade_ows ch c f = option_ows ch (flag_upgrade f) f
value_char h_connection_token ch c f =
    if ch == b','
    then go f h_connection
    else if is_blank ch
    then go f h_connection_token_ows
    else if not (is_tchar ch)
    then bad bad_value
    else ok f
value_char h_connection_token_ows ch c f = option_ows ch f f
value_char h_content_length0 ch c f =
    if not (is_digit ch)
    then bad bad_content_length
    else ok (record f { content_length = ch - b'0'; fs = h_content_length })
value_char h_content_length ch c f =
    if is_blank ch then go f h_content_length_ows else length_digit ch f
value_char h_content_length_ows ch c f = if not (is_blank ch) then bad bad_content_length else ok f
value_char h_transfer_encoding ch c f =
    if c == b'c'
    then begin f h_matching_transfer_encoding_chunked
    else if not (is_blank c) && not (c == b',')
    then go f h_matching_transfer_encoding_general
    else ok f
value_char h_matching_transfer_encoding_chunked ch c f =
    advance str_chunked c h_transfer_encoding_chunked h_matching_transfer_encoding_general f
value_char h_matching_transfer_encoding_general ch c f =
    if c == b',' then go f h_transfer_encoding else ok f
value_char h_transfer_encoding_chunked ch c f =
    if not (is_blank c) && not (c == b',') then go f h_transfer_encoding else ok f
value_char h_upgrade ch c f =
    ok (record f { flags = record f.flags { upgrade = true }; fs = h_general })
value_char _ ch c f = ok f

-- The field state where a value goes on on the next line.
unfoldable pub folded : FieldState → FieldState
folded h_matching_connection_keep_alive = h_connection_token_ows
folded h_matching_connection_close = h_connection_token_ows
folded h_matching_connection_upgrade = h_connection_token_ows
folded h_connection_close = h_connection_close_ows
folded h_connection_keep_alive = h_connection_keep_alive_ows
folded h_connection_upgrade = h_connection_upgrade_ows
folded h_content_length = h_content_length_ows
folded h_matching_transfer_encoding_chunked = h_matching_transfer_encoding_general
folded fs = fs

-- The flag that a value which ends in this field state sets.
unfoldable pub flag_at_end : FieldState → Flags → Flags
flag_at_end h_connection_keep_alive fl = record fl { connection_keep_alive = true }
flag_at_end h_connection_keep_alive_ows fl = record fl { connection_keep_alive = true }
flag_at_end h_connection_close fl = record fl { connection_close = true }
flag_at_end h_connection_close_ows fl = record fl { connection_close = true }
flag_at_end h_connection_upgrade fl = record fl { connection_upgrade = true }
flag_at_end h_connection_upgrade_ows fl = record fl { connection_upgrade = true }
flag_at_end h_transfer_encoding_chunked fl = record fl { chunked = true }
flag_at_end h_transfer_encoding_chunked_ows fl = record fl { chunked = true }
flag_at_end _ fl = fl
