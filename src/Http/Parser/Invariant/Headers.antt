-- ===== src/Http/Parser/Invariant/Headers.antt =====
-- The invariant through the header fields.
use beast.Base.{
  ℕ, ◌≡◌, refl, sym, ◌∙◌, Bool, none, some, Bytes, [], ◌∷◌, Bool-cases, ◌==◌, inl, inr, arith,
}
use mathlib.Core.Path.{subst}
use beast.Http.Chars.{to_field_char, to_value_char}
use beast.Http.Parser.Calls.{response_called, run_cb, invoke, is_set}
use beast.Http.Parser.Fields.{FieldResult, ok, bad}
use beast.Http.Parser.Headers.{
  field_of, first_char, note_length, note_upgrade, put_field, is_length0, at_header_name0,
  at_res_line_done, at_header_name, at_header_value0, at_header_value, at_header_value0_almost_done,
  at_header_value_almost_done, at_header_value_unfold,
}
use beast.Http.Parser.Invariant.Defs.{
  CbOk, PosOk, LengthOk, IsValid, OutcomeOk, invoke-Keeps, cb_ended, cb_begun, died, entered,
}
use beast.Http.Parser.Invariant.Fields.{FieldOk, ResultOk, name_char-ResultOk, value_char-ResultOk}
use beast.Http.Parser.Types.{
  State, FieldState, header_name0, header_name, header_value, header_value_lf, call_on_field,
  call_on_value, header_value_unfold, header_value0, Derived, Parser, h_general,
}
use beast.Http.Parser.Values.{is_blank, folded, flag_at_end}

PosOk-folded : (fs : FieldState) (pos : ℕ) → PosOk fs pos → PosOk (folded fs) pos
unfolding folded
PosOk-folded h_general pos h = h
PosOk-folded _ pos h = ground arith

module _ {S : Type 0} where
  put_field-OutcomeOk :
      (p : Parser S) (rest : Bytes) (r : FieldResult)
      → IsValid p
      → ((n : ℕ) → LengthOk p.s n)
      → ResultOk r
      → OutcomeOk rest (put_field p r)
  put_field-OutcomeOk p rest (bad e) v l h = ground arith
  put_field-OutcomeOk p rest (ok f) v l h = (
    record {
      cb_ok = v.cb_ok;
      pos_ok = h.pos_ok;
      length_fits = h.length_fits;
      length_ok = l f.content_length;
    },
    omega arith,
  )

  first_char-IsValid : (p : Parser S) (c : ℕ) → IsValid p → IsValid (first_char p c)
  first_char-IsValid p c v = ground arith

  field_of-FieldOk : (p : Parser S) → IsValid p → FieldOk (field_of p)
  field_of-FieldOk p v = record { pos_ok = v.pos_ok; length_fits = v.length_fits }

module _ {S : Type 0} (is_request : Bool) (d : Derived S) where
  pub at_header_name0-OutcomeOk :
      (p : Parser S) (ch : ℕ) (rest : Bytes)
      → IsValid p
      → p.cb ≡ none
      → OutcomeOk rest (at_header_name0 is_request d p ch)
  unfolding at_header_name0
  at_header_name0-OutcomeOk p ch rest v e =
      let c : ℕ = to_field_char ch in
      let q : IsValid (record (run_cb is_request d (first_char p c) (some call_on_field)).0 {
        s = header_name;
      }) =
        cb_begun is_request d (first_char p c) call_on_field header_name (first_char-IsValid p c v)
          (ground arith) refl tt in
      elim (Bool-cases (ch == b'\r')) [
        | inl y ↦ rw y (ground arith)
        | inr n ↦ elim (Bool-cases (c == 0)) [
          | inl y ↦ rw (n, y) (ground arith)
          | inr m ↦ rw (n, m) (q, omega arith)
        ]
      ]

  pub at_res_line_done-OutcomeOk :
      (p : Parser S) (ch : ℕ) (rest : Bytes)
      → IsValid p
      → p.cb ≡ none
      → OutcomeOk rest (at_res_line_done is_request d p ch)
  at_res_line_done-OutcomeOk p ch rest v e =
      let p' : Parser S = record (response_called is_request d p) { s = header_name0 } in
      let next_line = at_header_name0-OutcomeOk p' ch rest (ground arith) (ground arith) in
      elim (Bool-cases (is_set p'.ec)) [
        | inl y ↦ unfold at_res_line_done in rw y (ground arith)
        | inr n ↦ unfold at_res_line_done in rw n next_line
      ]

  pub at_header_name-OutcomeOk :
      (p : Parser S) (ch : ℕ) (rest : Bytes)
      → IsValid p
      → p.s ≡ header_name
      → OutcomeOk rest (at_header_name is_request d p ch)
  unfolding at_header_name
  at_header_name-OutcomeOk p ch rest v e = elim (Bool-cases (to_field_char ch == 0)) [
    | inr n ↦ rw n (
        put_field-OutcomeOk p rest _ v (λ n. subst (λ s. LengthOk s n) (sym e) tt)
          (name_char-ResultOk p.fs (to_field_char ch) (field_of p) refl (field_of-FieldOk p v)))
    | inl y ↦ elim (Bool-cases (ch == b':')) [
      | inl z ↦ rw (y, z) (cb_ended is_request d p rest header_value0 v refl (λ n. tt))
      | inr z ↦ rw (y, z) (ground arith)
    ]
  ]

  pub at_header_value-OutcomeOk :
      (p : Parser S) (ch : ℕ) (rest : Bytes)
      → IsValid p
      → p.s ≡ header_value
      → OutcomeOk rest (at_header_value is_request d p ch)
  unfolding at_header_value
  at_header_value-OutcomeOk p ch rest v e = elim (Bool-cases (ch == b'\r')) [
    | inl y ↦ rw y (cb_ended is_request d p rest header_value_lf v refl (λ n. tt))
    | inr z ↦ elim (Bool-cases (to_value_char ch == 0)) [
      | inl y ↦ rw (z, y) (ground arith)
      | inr n ↦
          rw (z, n)
            (put_field-OutcomeOk p rest _ v (λ n. subst (λ s. LengthOk s n) (sym e) tt)
              (value_char-ResultOk p.fs ch (to_value_char ch) (field_of p) refl
                (field_of-FieldOk p v)))
    ]
  ]

  value_begun :
      (p : Parser S) (ch : ℕ) (rest : Bytes)
      → IsValid p
      → p.cb ≡ none
      → OutcomeOk rest (
          at_header_value is_request d
            (record (run_cb is_request d p (some call_on_value)).0 { s = header_value })
            ch)
  value_begun p ch rest v e =
      at_header_value-OutcomeOk _ ch rest
        (cb_begun is_request d p call_on_value header_value v e refl tt) refl

  pub at_header_value0-OutcomeOk :
      (p : Parser S) (ch : ℕ) (rest : Bytes)
      → IsValid p
      → p.s ≡ header_value0
      → OutcomeOk rest (at_header_value0 is_request d p ch)
  unfolding at_header_value0
  at_header_value0-OutcomeOk p ch rest v e =
      let e' : p.cb ≡ none = ground arith in
      let begun = value_begun (note_length p) ch rest (ground arith) (ground arith) in
      elim (Bool-cases (is_blank ch)) [
        | inl y ↦ rw y (v, omega arith)
        | inr n ↦ elim (Bool-cases (ch == b'\r')) [
          | inl y ↦ rw (n, y) (ground arith)
          | inr m ↦ rw (n, m) begun
        ]
      ]

  pub at_header_value_unfold-OutcomeOk :
      (p : Parser S) (ch : ℕ) (rest : Bytes)
      → IsValid p
      → p.cb ≡ none
      → OutcomeOk rest (at_header_value_unfold is_request d p ch)
  unfolding at_header_value_unfold
  at_header_value_unfold-OutcomeOk p ch rest v e = value_begun p ch rest v e

  -- A call of the value's callback outside `cb`, and the state that is entered behind it.
  value_passed :
      (p : Parser S) (s' : State) (piece : Bytes)
      → IsValid p
      → p.cb ≡ none
      → CbOk s' none
      → ((n : ℕ) → LengthOk s' n)
      → IsValid (record (invoke is_request d call_on_value p piece) { s = s' })
  value_passed p s' piece v e c l =
      let k = invoke-Keeps is_request d call_on_value p piece in
      entered s' v k.0 (subst (CbOk s') (sym e ∙ sym k.1) c)
        (l (invoke is_request d call_on_value p piece).content_length)

  pub at_header_value0_almost_done-OutcomeOk :
      (p : Parser S) (ch : ℕ) (rest : Bytes)
      → IsValid p
      → p.cb ≡ none
      → OutcomeOk rest (at_header_value0_almost_done is_request d p ch)
  unfolding at_header_value0_almost_done
  at_header_value0_almost_done-OutcomeOk p ch rest v e =
      let q : Parser S = note_upgrade p in
      let vq : IsValid q = ground arith in
      let eq : q.cb ≡ none = ground arith in
      let q' : Parser S = invoke is_request d call_on_value q [] in
      let k = invoke-Keeps is_request d call_on_value q [] in
      let name =
        at_header_name0-OutcomeOk (record q' { s = header_name0 }) ch rest
          (value_passed q header_name0 [] vq eq refl (λ n. tt)) (k.1 ∙ eq) in
      elim (Bool-cases (is_blank ch)) [
        | inl y ↦ rw y (ground arith)
        | inr n ↦ elim (Bool-cases (is_length0 p.fs)) [
          | inl y ↦ rw (n, y) (ground arith)
          | inr m ↦ elim (Bool-cases (is_set q'.ec)) [
            | inl y ↦ rw (n, m, y) (died vq k.0, omega arith, tt)
            | inr z ↦ rw (n, m, z) name
          ]
        ]
      ]

  pub at_header_value_almost_done-OutcomeOk :
      (p : Parser S) (ch : ℕ) (rest : Bytes)
      → IsValid p
      → p.cb ≡ none
      → OutcomeOk rest (at_header_value_almost_done is_request d p ch)
  unfolding at_header_value_almost_done
  at_header_value_almost_done-OutcomeOk p ch rest v e = elim (Bool-cases (is_blank ch)) [
    | inl y ↦ rw y (
      value_passed (record p { fs = folded p.fs }) header_value_unfold (b' ' ∷ []) (fold_valid) e
          refl (λ n. tt),
      omega arith,
    )
    | inr n ↦ rw n (
        at_header_name0-OutcomeOk (record p { flags = flag_at_end p.fs p.flags; s = header_name0 })
          ch rest
          (record { cb_ok = e; pos_ok = v.pos_ok; length_fits = v.length_fits; length_ok = tt }) e)
  ]
    where
      fold_valid : IsValid (record p { fs = folded p.fs })
      fold_valid = record {
        cb_ok = v.cb_ok;
        pos_ok = PosOk-folded p.fs p.pos v.pos_ok;
        length_fits = v.length_fits;
        length_ok = v.length_ok;
      }
