-- ===== src/Websocket/Reader/Piece.antt =====
-- What a `read_some` gives within a payload.
use mathlib.Core.Path.{subst}
use beast.Base.{
  ℕ, suc, ◌-◌, ◌≡◌, refl, sym, ap, ◌∙◌, min, Bool, true, false, ◌&&◌, ltb, ◌==◌, if◌then◌else◌,
  Bytes, [], ◌∷◌, ◌++◌, length, take, drop, arith, length-append, append_assoc, length-take,
  take-append-drop,
}
use beast.Websocket.Frame.{Endian}
use beast.Websocket.Mask.Spec.{Key, IsBytes, key_after}
use beast.Websocket.Reader.{Net, Reader, info, Round, stop}
use beast.Websocket.Reader.Cipher.{cipher, Keyed, length-cipher, cipher-append, masked-cipher}
use beast.Websocket.Reader.Loop.{
  check_text, is_text_op, unmask, message_ends, check_payload, unmask_payload, take_payload,
  read_payload,
}
use beast.Websocket.Reader.Payload.{Mid, Steady, check_text-TextTaken}
use beast.Websocket.Reader.WholeHeader.{take-append, drop-append}
use beast.Websocket.Types.{Opcode}
use beast.Websocket.Utf8.{Utf8Checker, reset_checker, write}
use beast.Websocket.Utf8.Check.{passes}

pub IsBytes-append : (xs ys : Bytes) → IsBytes (xs ++ ys) → IsBytes xs × IsBytes ys
IsBytes-append [] ys h = (tt, h)
IsBytes-append (x ∷ xs) ys h = let r = IsBytes-append xs ys h.1 in ((h.0, r.0), r.1)

-- What the piece `a` leaves, where `b` is the rest of the payload.
pub record PieceRead (r : Reader) (op : Opcode) (fin m : Bool) (k : Key) (a b t rest : Bytes)
    (o : Round) : Type 0 where
  pub r' : Reader
  pub done : o ≡ stop r' (info op (fin && length b == 0))
  pub more : (fin && length b == 0) ≡ false → Mid r' op fin m (key_after k a) b t rest
  pub buffer-append : r'.buffer ≡ r.buffer ++ a
  pub failed-false : r'.s.st.failed ≡ false
  pub need : r'.s.st.rd_need ≡ length b
  pub input-cipher : r'.input ≡ cipher m (key_after k a) b ++ rest
  pub reset_text : (fin && length b == 0) ≡ true → is_text_op op ≡ true → r'.utf8 ≡ reset_checker
  pub steady : Steady r r'

-- What the check is given where the payload is text, and where it is not.
record Checked (op : Opcode) (ends : Bool) (x : Bytes) (u : Utf8Checker × Bool) : Type 0 where
  passed : u.1 ≡ true
  rest_passes : is_text_op op ≡ true → ends ≡ false → passes (write u.0 x) ≡ true
  reset_after : is_text_op op ≡ true → ends ≡ true → u.0 ≡ reset_checker

text_or_not :
    (c : Utf8Checker) (op : Opcode) (ends : Bool) (a x : Bytes)
    → (is_text_op op ≡ true → passes (write c (a ++ x)) ≡ true)
    → (ends ≡ true → x ≡ [])
    → Checked op ends x (if is_text_op op then check_text ends a c else (c, true))
text_or_not c op ends a x h nil = cases (is_text_op op) refl
  where
    cases :
        (b : Bool)
        → is_text_op op ≡ b
        → Checked op ends x (if b then check_text ends a c else (c, true))
    cases true e =
        let u = check_text-TextTaken ends a x c (h e) nil in
        record {
          passed = u.passed;
          rest_passes = λ _. u.rest_passes;
          reset_after = λ _. u.reset_after;
        }
    cases false e = record { passed = refl; rest_passes = λ y. cc; reset_after = λ y. cc }

module _ {r : Reader} {op : Opcode} {fin m : Bool} {k : Key} {t rest : Bytes} (a b : Bytes)
    (mid : Mid r op fin m k (a ++ b) t rest) where
  abbrev ends : Bool
  ends = fin && length b == 0

  -- The reader that `take_payload` is given.
  abbrev given : ℕ → Reader
  given reads = record r { input = cipher m (key_after k a) b ++ rest; reads = reads }

  unmask-cipher : (reads : ℕ) → (unmask (cipher m k a) (given reads)).0 ≡ a
  unmask-cipher reads =
      rw mid.mask_is
        (masked-cipher m r.s.st.rd_key k a mid.keyed (IsBytes-append a b mid.octets).0).0

  unmask-Keyed : (reads : ℕ) → Keyed m (unmask (cipher m k a) (given reads)).1 (key_after k a)
  unmask-Keyed reads =
      rw mid.mask_is
        (masked-cipher m r.s.st.rd_key k a mid.keyed (IsBytes-append a b mid.octets).0).1

  length-rest : r.s.st.rd_need - length (cipher m k a) ≡ length b
  length-rest = omega (arith, mid.need, length-cipher m k a, length-append a b)

  message_ends-ends : (reads : ℕ) → message_ends (cipher m k a) (given reads) ≡ ends
  message_ends-ends reads = ground (arith, length-rest, mid.fin_is)

  check_payload-check_text :
      (reads : ℕ)
      → check_payload (cipher m k a) (given reads)
        ≡ (if is_text_op op then check_text ends a r.utf8 else (r.utf8, true))
  check_payload-check_text reads =
      unfold check_payload in
      λ i.
        if is_text_op (mid.opcode_is i)
        then check_text (message_ends-ends reads i) (unmask-cipher reads i) r.utf8
        else (r.utf8, true)

  check_payload-Checked :
      (reads : ℕ) → Checked op ends (b ++ t) (check_payload (cipher m k a) (given reads))
  check_payload-Checked reads =
      subst (Checked op ends (b ++ t)) (sym (check_payload-check_text reads)) (
        text_or_not r.utf8 op ends a (b ++ t)
          (λ e. ap (λ x. passes (write r.utf8 x)) (sym (append_assoc a b t)) ∙ mid.checked e)
          (λ e. nothing_left (ground (arith, e)) (mid.last (ground (arith, e)))))
    where
      nothing_left : length b ≡ 0 → t ≡ [] → b ++ t ≡ []
      nothing_left l e = empty b l e
        where
          empty : (b : Bytes) → length b ≡ 0 → t ≡ [] → b ++ t ≡ []
          empty [] l e = e
          empty (x ∷ b) l e = absurd (omega (arith, l))

  abbrev taken : ℕ → Reader
  taken reads =
      let r' = unmask_payload (cipher m k a) (given reads) in
      record r' { buffer = r.buffer ++ (unmask (cipher m k a) (given reads)).0 }

  take_payload-done :
      (e : Endian) (net : Net) (reads : ℕ)
      → take_payload e net (cipher m k a) (given reads) ≡ stop (taken reads) (info op ends)
  unfolding take_payload
  take_payload-done e net reads =
      let c = check_payload-Checked reads in
      let f : (r.s.st.rd_fh.fin && (r.s.st.rd_need - length (cipher m k a)) == 0) ≡ ends =
        ground (arith, length-rest, mid.fin_is) in
      rw c.passed (λ i. stop (taken reads) (info (mid.opcode_is i) (f i)))

  taken-PieceRead :
      (reads : ℕ) (o : Round)
      → o ≡ stop (taken reads) (info op ends)
      → PieceRead r op fin m k a b t rest o
  unfolding unmask_payload
  taken-PieceRead reads o d =
      let c = check_payload-Checked reads in
      record {
        r' = taken reads;
        done = d;
        more = λ z. record {
          need = length-rest;
          input-cipher = refl;
          fin_is = mid.fin_is;
          mask_is = mid.mask_is;
          opcode_is = mid.opcode_is;
          keyed = unmask-Keyed reads;
          octets = (IsBytes-append a b mid.octets).1;
          checked = λ e. c.rest_passes e z;
          last = mid.last;
        };
        buffer-append = ap (λ x. r.buffer ++ x) (unmask-cipher reads);
        failed-false = refl;
        need = length-rest;
        input-cipher = refl;
        reset_text = λ z e. c.reset_after e z;
        steady = record {
          role = refl;
          rd_cont = refl;
          rd_msg_max = refl;
          rd_size = refl;
          rd_opcode = refl;
          sent = refl;
          pongs = refl;
        };
      }

  read_payload-given :
      (e : Endian) (net : Net)
      → min r.s.st.rd_need (suc (net.chunk r.reads)) ≡ length a
      → read_payload e net r ≡ take_payload e net (cipher m k a) (given (suc r.reads))
  unfolding read_payload
  read_payload-given e net n =
      let split : r.input ≡ cipher m k a ++ (cipher m (key_after k a) b ++ rest) =
        mid.input-cipher
        ∙ ap (λ x. x ++ rest) (cipher-append m k a b)
        ∙ append_assoc (cipher m k a) (cipher m (key_after k a) b) rest in
      let n' : min r.s.st.rd_need (suc (net.chunk r.reads)) ≡ length (cipher m k a) =
        n ∙ sym (length-cipher m k a) in
      let enough : (ltb 0 r.s.st.rd_need && length r.input == 0) ≡ false = ground (
        arith,
        mid.need,
        ap length mid.input-cipher,
        length-append (cipher m k (a ++ b)) rest,
        length-cipher m k (a ++ b),
      ) in
      let first : take (length (cipher m k a)) r.input ≡ cipher m k a =
        ap (take (length (cipher m k a))) split ∙ take-append (cipher m k a) _ in
      let behind : drop (length (cipher m k a)) r.input ≡ cipher m (key_after k a) b ++ rest =
        ap (drop (length (cipher m k a))) split ∙ drop-append (cipher m k a) _ in
      rw (enough, n')
        (λ i. take_payload e net (first i) (record r { input = behind i; reads = suc r.reads }))

-- Within a frame, where as many bytes as the stream below gives are read off the payload `q`.
pub read_payload-PieceRead :
    {r : Reader} {op : Opcode} {fin m : Bool} {k : Key} {q t rest : Bytes} (e : Endian) (net : Net)
    → Mid r op fin m k q t rest
    → let n = min (length q) (suc (net.chunk r.reads)) in
      PieceRead r op fin m k (take n q) (drop n q) t rest (read_payload e net r)
read_payload-PieceRead {r} {op} {fin} {m} {k} {q} {t} {rest} e net mid =
    let n = min (length q) (suc (net.chunk r.reads)) in
    let mid' = subst (λ x. Mid r op fin m k x t rest) (sym (take-append-drop n q)) mid in
    let len : min r.s.st.rd_need (suc (net.chunk r.reads)) ≡ length (take n q) =
      omega (arith, mid.need, length-take n q) in
    taken-PieceRead (take n q) (drop n q) mid' (suc r.reads) (read_payload e net r) (
      read_payload-given (take n q) (drop n q) mid' e net len
      ∙ take_payload-done (take n q) (drop n q) mid' e net (suc r.reads))
