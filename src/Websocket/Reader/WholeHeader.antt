-- ===== src/Websocket/Reader/WholeHeader.antt =====
-- `do_read_fh` on a header that the other side has written.
use beast.Base.{
  ℕ, ◌≡◌, refl, sym, ap, ◌∙◌, false, ltb, Bool-cases, some, inl, inr, Bytes, [], ◌∷◌, ◌++◌, length,
  take, drop, arith, length-append, append-nil,
}
use beast.Websocket.Frame.{Endian, write, first_byte}
use beast.Websocket.Reader.{
  Reader, set_st, read_exactly, Header, header, second_header, first_header, do_read_fh,
}
use beast.Websocket.StreamBase.{
  Step, check_fixed, fh_need, bad_opcode, bad_mask, read_fh1, read_fh2, account,
}
use beast.Websocket.StreamBase.FixedBytes.{
  second_byte, short_form, extended, parse_fixed-first_byte, bad_opcode-short_form,
}
use beast.Websocket.StreamBase.RoundTrip.{
  IsWritable, key_bytes, write-fixed, read_fh2-tail, length-tail,
}
use beast.Websocket.Types.{code_none, FrameHeader}

abbrev pub with_input : Reader → Bytes → Reader
with_input r bs = record r { input = bs }

pub take-append : (xs ys : Bytes) → take (length xs) (xs ++ ys) ≡ xs
take-append [] ys = refl
take-append (x ∷ xs) ys = ap (◌∷◌ x) (take-append xs ys)

pub drop-append : (xs ys : Bytes) → drop (length xs) (xs ++ ys) ≡ ys
drop-append [] ys = refl
drop-append (x ∷ xs) ys = drop-append xs ys

pub read_exactly-append :
    (n : ℕ) (r : Reader) (xs ys : Bytes)
    → n ≡ length xs
    → read_exactly n (with_input r (xs ++ ys)) ≡ some (xs, with_input r ys)
read_exactly-append n r xs ys e =
    let enough : ltb (length (xs ++ ys)) n ≡ false = ground (arith, length-append xs ys, e) in
    let t : take n (xs ++ ys) ≡ xs = ap (λ k. take k (xs ++ ys)) e ∙ take-append xs ys in
    let d : drop n (xs ++ ys) ≡ ys = ap (λ k. drop k (xs ++ ys)) e ∙ drop-append xs ys in
    rw enough (λ i. some (t i, with_input r (d i)))

module _ (e : Endian) (r : Reader) (fh : FrameHeader) (w : IsWritable fh)
    (p : bad_opcode fh.op r.s.st.rd_cont fh ≡ false)
    (q : bad_mask r.s.st.role fh.mask ≡ false) where
  abbrev behind_two : Bytes
  behind_two = extended e fh.len ++ key_bytes fh

  abbrev two : Step
  two = record {
    st = record r.s.st { rd_fh = short_form r.s.st.rd_fh fh };
    db = [];
    code = code_none;
    need = fh_need (short_form r.s.st.rd_fh fh);
  }

  read_fh1-two : read_fh1 r.s.st (first_byte fh ∷ second_byte fh ∷ []) ≡ some two
  read_fh1-two =
      unfold read_fh1 in
      ap (λ h. some (check_fixed r.s.st [] h)) (parse_fixed-first_byte r.s.st.rd_fh fh) ∙ passes
    where
      passes : some (check_fixed r.s.st [] (short_form r.s.st.rd_fh fh)) ≡ some two
      passes = unfold check_fixed in rw (bad_opcode-short_form r.s.st.rd_cont r.s.st.rd_fh fh, p, q)

  abbrev counted : Step
  counted = account r.s.st [] fh

  -- What the header leaves: its account, and what is behind it.
  abbrev pub done_header : Bytes → Header
  done_header more = header (with_input (set_st counted.st r) more) counted.db counted.code

  read_fh2-two : read_fh2 two.st behind_two ≡ some counted
  read_fh2-two = ap (read_fh2 two.st) (sym (append-nil behind_two)) ∙ read_fh2-tail e r.s.st fh [] w

  length-behind : two.need ≡ length behind_two
  length-behind = omega (arith, length-tail e r.s.st fh [] w, ap length (append-nil behind_two))

  second_header-two :
      (more : Bytes)
      → second_header (with_input (set_st two.st r) more) behind_two ≡ done_header more
  unfolding second_header
  second_header-two more = rw (second_header, read_fh2-two) refl

  first_header-two :
      (more : Bytes) → first_header (with_input r (behind_two ++ more)) two ≡ done_header more
  unfolding first_header
  first_header-two more = elim (Bool-cases (ltb 0 two.need)) [
    | inl y ↦
        rw (y, read_exactly-append two.need (set_st two.st r) behind_two more length-behind)
          (second_header-two more)
    | inr z ↦
        let empty : length behind_two ≡ 0 = ground (arith, z, length-behind) in
        rw z (
          ap (λ t. second_header (with_input (set_st two.st r) (t ++ more)) [])
            (nil behind_two empty)
          ∙ ap (second_header (with_input (set_st two.st r) more)) (sym (nil behind_two empty))
          ∙ second_header-two more)
  ]
    where
      nil : (bs : Bytes) → length bs ≡ 0 → bs ≡ []
      nil [] h = refl
      nil (b ∷ bs) h = absurd (omega (arith, h))

  pub do_read_fh-write :
      (more : Bytes) → do_read_fh (with_input r (write e [] fh ++ more)) ≡ done_header more
  unfolding do_read_fh
  do_read_fh-write more =
      ap (λ t. do_read_fh (with_input r t)) (write-fixed e r.s.st fh more)
      ∙ rw
          (
            do_read_fh,
            read_exactly-append 2 r (first_byte fh ∷ second_byte fh ∷ []) (behind_two ++ more) refl,
            read_fh1-two,
          )
          (first_header-two more)
