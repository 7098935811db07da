-- ===== src/Websocket/Reader/Message.antt =====
-- `read` of a message that the other side has written.
use beast.Base.{
  ℕ, suc, ◌<◌, ◌≡◌, refl, sym, ap, ◌∙◌, Bool, true, false, ◌==◌, Option, some, Bytes, List, [], ◌∷◌,
  ◌++◌, length, arith,
}
use beast.Websocket.Frame.{Endian}
use beast.Websocket.Mask.Spec.{Key}
use beast.Websocket.Reader.{Net, Reader, Outcome, info, stop}
use beast.Websocket.Reader.Cipher.{cipher, length-cipher}
use beast.Websocket.Reader.Loop.{is_text_op, read_payload, round, read_frame, read}
use beast.Websocket.Reader.Payload.{Mid, Steady}
use beast.Websocket.Reader.Total.{read-behind}
use beast.Websocket.Types.{Opcode}
use beast.Websocket.Utf8.{reset_checker, write}
use beast.Websocket.Utf8.Check.{passes}

-- A whole message `p` has been read, from a reader with the given buffer, and `rest` is behind it.
pub record Received (o : Option (Reader × Outcome)) (buffer : Bytes) (sent pongs : List Bytes)
    (op : Opcode) (p rest : Bytes) : Type 0 where
  pub result : Reader
  pub done : o ≡ some (result, info op true)
  pub buffer-append : result.buffer ≡ buffer ++ p
  pub input_rest : result.input ≡ rest
  pub need_zero : result.s.st.rd_need ≡ 0
  pub cont_false : result.s.st.rd_cont ≡ false
  pub failed_false : result.s.st.failed ≡ false
  pub sent_same : result.s.sent ≡ sent
  pub pongs_same : result.pongs ≡ pongs
  pub reset_text : is_text_op op ≡ true → result.utf8 ≡ reset_checker

-- Between the frames of a message, where `t` of it is to come.
pub record Between (r r' : Reader) (op : Opcode) (t rest : Bytes) : Type 0 where
  pub need_zero : r'.s.st.rd_need ≡ 0
  pub input_rest : r'.input ≡ rest
  pub opcode_is : r'.s.st.rd_opcode ≡ op
  pub checked : is_text_op op ≡ true → passes (write r'.utf8 t) ≡ true
  pub steady : Steady r r'

pub Steady-compose : (a b c : Reader) → Steady a b → Steady b c → Steady a c
Steady-compose a b c p q = record {
  role = q.role ∙ p.role;
  rd_cont = q.rd_cont ∙ p.rd_cont;
  rd_msg_max = q.rd_msg_max ∙ p.rd_msg_max;
  rd_size = q.rd_size ∙ p.rd_size;
  rd_opcode = q.rd_opcode ∙ p.rd_opcode;
  sent = q.sent ∙ p.sent;
  pongs = q.pongs ∙ p.pongs;
}

pub Between-compose :
    (a b c : Reader) (op : Opcode) (t rest : Bytes)
    → Steady a b
    → Between b c op t rest
    → Between a c op t rest
Between-compose a b c op t rest p q = record {
  need_zero = q.need_zero;
  input_rest = q.input_rest;
  opcode_is = q.opcode_is;
  checked = q.checked;
  steady = Steady-compose a b c p q.steady;
}

module _ (e : Endian) (net : Net) where
  read_frame-stop :
      (fuel : ℕ) (r r' : Reader) (o : Outcome)
      → round e net r ≡ stop r' o
      → read_frame e net (suc fuel) r ≡ some (r', o)
  unfolding read_frame
  read_frame-stop fuel r r' o h = rw (read_frame, h) refl

  pub read-stop :
      (fuel : ℕ) (r r' : Reader) (op : Opcode)
      → round e net r ≡ stop r' (info op true)
      → read e net (suc fuel) r ≡ some (r', info op true)
  read-stop fuel r r' op h =
      read-behind e net fuel r ∙ rw (read_frame-stop (length r.input) r r' (info op true) h) refl

  pub read-more :
      (fuel : ℕ) (r r' : Reader) (op : Opcode)
      → round e net r ≡ stop r' (info op false)
      → read e net (suc fuel) r ≡ read e net fuel r'
  read-more fuel r r' op h =
      read-behind e net fuel r ∙ rw (read_frame-stop (length r.input) r r' (info op false) h) refl

  pub round-read_payload : (r : Reader) → 0 < r.s.st.rd_need → round e net r ≡ read_payload e net r
  unfolding round
  round-read_payload r h =
      let some_left : (r.s.st.rd_need == 0) ≡ false = ground (arith, h) in rw some_left refl

pub nil : (bs : Bytes) → length bs ≡ 0 → bs ≡ []
nil [] h = refl
nil (b ∷ bs) h = absurd (omega (arith, h))

pub Between-Mid :
    {r r' : Reader} {op : Opcode} {fin m : Bool} {k : Key} {b t rest : Bytes}
    → Mid r' op fin m k b t rest
    → length b ≡ 0
    → Steady r r'
    → Between r r' op t rest
Between-Mid {r'} {m} {k} {b} {t} {rest} mid l s =
    let none_left = nil b l in
    record {
      need_zero = mid.need ∙ l;
      input_rest =
          mid.input-cipher ∙ ap (λ x. x ++ rest) (nil (cipher m k b) (length-cipher m k b ∙ l));
      opcode_is = mid.opcode_is;
      checked = λ e. ap (λ x. passes (write r'.utf8 (x ++ t))) (sym none_left) ∙ mid.checked e;
      steady = s;
    }
