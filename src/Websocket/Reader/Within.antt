-- ===== src/Websocket/Reader/Within.antt =====
-- `read` from within a frame.
use mathlib.Core.Path.{subst}
use beast.Base.{
  ℕ, suc, zero, ◌<◌, ◌≡◌, ◌⊎◌, inl, inr, sym, ap, ◌∙◌, min, Bool, true, false, not, ◌&&◌, ◌==◌,
  Bool-cases, Option, Bytes, [], ◌++◌, length, take, drop, arith, length-append, append_assoc,
  append-nil, length-drop, take-append-drop,
}
use beast.Websocket.Frame.{Endian}
use beast.Websocket.Mask.Spec.{Key, key_after}
use beast.Websocket.Reader.{Net, Reader, Outcome, info, stop}
use beast.Websocket.Reader.Cipher.{cipher, length-cipher}
use beast.Websocket.Reader.Loop.{read_payload, round, read}
use beast.Websocket.Reader.Message.{
  Received, Between, Between-compose, read-stop, read-more, round-read_payload, nil, Between-Mid,
}
use beast.Websocket.Reader.Payload.{Mid, Steady}
use beast.Websocket.Reader.Piece.{PieceRead, read_payload-PieceRead}
use beast.Websocket.Types.{Opcode}

-- What is known of the reads behind the frame.
abbrev pub Onward : Endian → Net → Reader → Bool → Opcode → Bytes → Bytes → Bytes → Type 0
Onward e net r fin op t rest last =
    fin ≡ false
    → (fuel : ℕ) (r' : Reader) → length r'.input < fuel
    → Between r r' op t rest
    → Received (read e net fuel r') r'.buffer r'.s.sent r'.pongs op t last

-- A frame read that is not the last of its message, and then the rest.
then-Received :
    {o o' : Option (Reader × Outcome)} {r r' : Reader} {op : Opcode} {p t last : Bytes} (a : Bytes)
    → o ≡ o'
    → r'.buffer ≡ r.buffer ++ a
    → Steady r r'
    → a ++ t ≡ p
    → Received o' r'.buffer r'.s.sent r'.pongs op t last
    → Received o r.buffer r.s.sent r.pongs op p last
then-Received {r} {t} a eq b s split g = record {
  result = g.result;
  done = eq ∙ g.done;
  buffer-append =
      g.buffer-append
      ∙ ap (λ x. x ++ t) b
      ∙ append_assoc r.buffer a t
      ∙ ap (λ x. r.buffer ++ x) split;
  input_rest = g.input_rest;
  need_zero = g.need_zero;
  cont_false = g.cont_false;
  failed_false = g.failed_false;
  sent_same = g.sent_same ∙ s.sent;
  pongs_same = g.pongs_same ∙ s.pongs;
  reset_text = g.reset_text;
}

module _ (e : Endian) (net : Net) {op : Opcode} {fin m : Bool} {t rest last : Bytes} where
  -- The last piece of a message.
  last-Received :
      {k : Key} {a b : Bytes} (fuel : ℕ) (r0 r : Reader)
      → round e net r0 ≡ read_payload e net r
      → PieceRead r op fin m k a b t rest (read_payload e net r)
      → r.s.st.rd_cont ≡ not fin
      → (fin ≡ true → (t ≡ []) × (rest ≡ last))
      → (fin && length b == 0) ≡ true
      → Received (read e net (suc fuel) r0) r.buffer r.s.sent r.pongs op (a ++ b ++ t) last
  last-Received {k} {a} {b} fuel r0 r start p c all ends =
      let final : fin ≡ true = ground (arith, ends) in
      let l : length b ≡ 0 = ground (arith, ends) in
      let none_left = nil b l in
      let all' = all final in
      record {
        result = p.r';
        done =
            read-stop e net fuel r0 p.r' op (start ∙ p.done ∙ ap (λ f. stop p.r' (info op f)) ends);
        buffer-append =
            p.buffer-append
            ∙ ap (λ x. r.buffer ++ x)
                (sym (append-nil a)
                  ∙ sym (append-nil (a ++ []))
                  ∙ (λ i. a ++ sym none_left i ++ sym all'.0 i));
        input_rest =
            p.input-cipher
            ∙ ap (λ x. x ++ rest)
                (nil (cipher m (key_after k a) b) (length-cipher m (key_after k a) b ∙ l))
            ∙ all'.1;
        need_zero = p.need ∙ l;
        cont_false = p.steady.rd_cont ∙ c ∙ ap not final;
        failed_false = p.failed-false;
        sent_same = p.steady.sent;
        pongs_same = p.steady.pongs;
        reset_text = p.reset_text ends;
      }

  pub within-Received :
      (fuel : ℕ) {k : Key} {q : Bytes} (r0 r : Reader)
      → round e net r0 ≡ read_payload e net r
      → Mid r op fin m k q t rest
      → (0 < length q) ⊎ (fin ≡ true)
      → length r.input < fuel
      → r.s.st.rd_cont ≡ not fin
      → (fin ≡ true → (t ≡ []) × (rest ≡ last))
      → Onward e net r fin op t rest last
      → Received (read e net fuel r0) r.buffer r.s.sent r.pongs op (q ++ t) last
  within-Received zero r0 r start mid some_left lt c all onward = absurd (omega (arith, lt))
  within-Received (suc fuel) {k} {q} r0 r start mid some_left lt c all onward =
      let n = min (length q) (suc (net.chunk r.reads)) in
      let a = take n q in
      let b = drop n q in
      let p = read_payload-PieceRead e net mid in
      let whole = take-append-drop n q in
      elim (Bool-cases (fin && length b == 0)) [
        | inl ends ↦
            subst
              (λ x. Received (read e net (suc fuel) r0) r.buffer r.s.sent r.pongs op (x ++ t) last)
              whole (last-Received fuel r0 r start p c all ends)
        | inr goes ↦
            let next =
              read-more e net fuel r0 p.r' op
                (start ∙ p.done ∙ ap (λ f. stop p.r' (info op f)) goes) in
            let mid' = p.more goes in
            let shorter : length p.r'.input < fuel = ground (
              arith,
              lt,
              some_left,
              goes,
              ap length mid.input-cipher,
              ap length mid'.input-cipher,
              length-append (cipher m k q) rest,
              length-append (cipher m (key_after k a) b) rest,
              length-cipher m k q,
              length-cipher m (key_after k a) b,
              length-drop n q,
            ) in
            elim (Bool-cases (length b == 0)) [
              | inl none_left ↦
                  let l : length b ≡ 0 = ground (arith, none_left) in
                  let going : fin ≡ false = ground (arith, goes, none_left) in
                  then-Received a next p.buffer-append p.steady
                    (ap (λ x. x ++ t)
                      (sym (append-nil a) ∙ ap (λ x. a ++ x) (sym (nil b l)) ∙ whole))
                    (onward going fuel p.r' shorter (Between-Mid mid' l p.steady))
              | inr left ↦
                  let l : 0 < length b = ground (arith, left) in
                  then-Received a next p.buffer-append p.steady
                    (sym (append_assoc a b t) ∙ ap (λ x. x ++ t) whole)
                    (within-Received fuel p.r' p.r'
                      (round-read_payload e net p.r' (omega (arith, p.need, l))) mid' (inl l)
                      shorter (p.steady.rd_cont ∙ c) all
                      (λ f fu r'' lt' h.
                        onward f fu r'' lt' (Between-compose r p.r' r'' op t rest p.steady h)))
            ]
      ]
