-- ===== src/Http/Parser/Headers.antt =====
-- The cases of `write` for the header fields, up to the empty line.
use beast.Base.{ℕ, Bool, true, false, not, ◌==◌, if◌then◌else◌, none, some, [], ◌∷◌}
use beast.Http.Chars.{to_field_char, to_value_char}
use beast.Http.Parser.Calls.{response_called, run_cb, invoke}
use beast.Http.Parser.Fields.{Field, FieldResult, ok, bad, name_char}
use beast.Http.Parser.Outcome.{Outcome, next, err, enter, unless_set, unless_failed}
use beast.Http.Parser.Types.{
  FieldState, header_name0, header_name, header_value0_lf, header_value0, header_value,
  header_value_lf, header_value_unfold, headers_almost_done, h_general, h_c,
  h_matching_proxy_connection, h_matching_transfer_encoding, h_matching_upgrade, h_content_length0,
  h_upgrade, bad_field, bad_value, bad_content_length, call_on_field, call_on_value, Derived,
  Parser,
}
use beast.Http.Parser.Values.{value_char, is_blank, folded, flag_at_end}

module _ {S : Type 0} where
  abbrev pub field_of : Parser S → Field
  field_of p = record { fs = p.fs; pos = p.pos; flags = p.flags; content_length = p.content_length }

  -- What a switch on `fs_` leads to.
  abbrev pub put_field : Parser S → FieldResult → Outcome S
  put_field p (bad e) = err p e
  put_field p (ok f) =
      next (record p { fs = f.fs; pos = f.pos; flags = f.flags; content_length = f.content_length })
        0

  -- The switch on the first character of a name.
  abbrev pub first_char : Parser S → ℕ → Parser S
  first_char p c =
      if c == b'c'
      then record p { pos = 0; fs = h_c }
      else if c == b'p'
      then record p { pos = 0; fs = h_matching_proxy_connection }
      else if c == b't'
      then record p { pos = 0; fs = h_matching_transfer_encoding }
      else if c == b'u'
      then record p { pos = 0; fs = h_matching_upgrade }
      else record p { fs = h_general }

-- Whether a field state is the given one, for the two that `write` compares with.
abbrev pub is_length0 : FieldState → Bool
is_length0 h_content_length0 = true
is_length0 _ = false

abbrev pub is_upgrade : FieldState → Bool
is_upgrade h_upgrade = true
is_upgrade _ = false

module _ {S : Type 0} where
  -- A content length is counted from zero, and is noted.
  abbrev pub note_length : Parser S → Parser S
  note_length p =
      if is_length0 p.fs
      then record p { content_length = 0; flags = record p.flags { contentlength = true } }
      else p

  abbrev pub note_upgrade : Parser S → Parser S
  note_upgrade p =
      if is_upgrade p.fs then record p { flags = record p.flags { upgrade = true } } else p

module _ {S : Type 0} (is_request : Bool) (d : Derived S) where
  unfoldable pub at_header_name0 : Parser S → ℕ → Outcome S
  at_header_name0 p ch =
      if ch == b'\r'
      then enter p headers_almost_done
      else let c = to_field_char ch in
        if c == 0
        then err p bad_field
        else enter (run_cb is_request d (first_char p c) (some call_on_field)).0 header_name

  unfoldable pub at_res_line_done : Parser S → ℕ → Outcome S
  at_res_line_done p ch =
      let p' = response_called is_request d p in
      unless_set p' (at_header_name0 (record p' { s = header_name0 }) ch)

  -- One round of the inner loop, which leaves it at a character that is in no name.
  unfoldable pub at_header_name : Parser S → ℕ → Outcome S
  at_header_name p ch =
      let c = to_field_char ch in
      if not (c == 0)
      then put_field p (name_char p.fs c (field_of p))
      else if ch == b':'
      then unless_failed (run_cb is_request d p none) (λ p'. enter p' header_value0)
      else err p bad_field

  -- One round of the inner loop.
  unfoldable pub at_header_value : Parser S → ℕ → Outcome S
  at_header_value p ch =
      if ch == b'\r'
      then unless_failed (run_cb is_request d p none) (λ p'. enter p' header_value_lf)
      else let c = to_value_char ch in
        if c == 0 then err p bad_value else put_field p (value_char p.fs ch c (field_of p))

  unfoldable pub at_header_value0 : Parser S → ℕ → Outcome S
  at_header_value0 p ch =
      if is_blank ch
      then next p 0
      else if ch == b'\r'
      then enter p header_value0_lf
      else at_header_value
          (record (run_cb is_request d (note_length p) (some call_on_value)).0 { s = header_value })
          ch

  unfoldable pub at_header_value0_almost_done : Parser S → ℕ → Outcome S
  at_header_value0_almost_done p ch =
      if is_blank ch
      then enter p header_value0
      else if is_length0 p.fs
      then err p bad_content_length
      else let q' = invoke is_request d call_on_value (note_upgrade p) [] in
        unless_set q' (at_header_name0 (record q' { s = header_name0 }) ch)

  -- A folded line is passed on as one space; the error code is not looked at.
  unfoldable pub at_header_value_almost_done : Parser S → ℕ → Outcome S
  at_header_value_almost_done p ch =
      if is_blank ch
      then enter (invoke is_request d call_on_value (record p { fs = folded p.fs }) (b' ' ∷ []))
          header_value_unfold
      else at_header_name0 (record p { flags = flag_at_end p.fs p.flags; s = header_name0 }) ch

  unfoldable pub at_header_value_unfold : Parser S → ℕ → Outcome S
  at_header_value_unfold p ch =
      at_header_value (record (run_cb is_request d p (some call_on_value)).0 { s = header_value })
        ch
