-- ===== src/Websocket/Reader/RoundTrip.antt =====
-- A message from `write_frame` at one end to `read` at the other.
use mathlib.Core.Path.{subst}
use beast.Base.{
  ℕ, suc, ◌^◌, ◌≤◌, ◌<◌, ◌≡◌, ◌≢◌, ◌⊎◌, inr, refl, sym, ap, ◌∙◌, true, false, some, Bytes, List,
  ◌++◌, length, flat, arith,
}
use beast.Websocket.Frame.{Endian}
use beast.Websocket.Mask.Spec.{IsBytes}
use beast.Websocket.Reader.{Net, Reader}
use beast.Websocket.Reader.Deliver.{read-Frames}
use beast.Websocket.Reader.FrameStart.{Start}
use beast.Websocket.Reader.Loop.{is_text_op, read}
use beast.Websocket.Reader.Message.{Received}
use beast.Websocket.Reader.WholeHeader.{with_input}
use beast.Websocket.Stream.{Below, Stream, write_frame}
use beast.Websocket.Stream.Message.{IsIdle, wr_prepare-max, write_frame-Finished}
use beast.Websocket.StreamBase.{StreamBase, bad_mask}
use beast.Websocket.StreamBase.Write.{is_client, wr_prepare}
use beast.Websocket.Types.{Opcode, text, binary, Role, client, server}
use beast.Websocket.Utf8.{reset_checker, write, check_utf8}
use beast.Websocket.Utf8.Check.{passes, check_utf8_iff}
use beast.Websocket.Utf8.Spec.{IsUtf8}

-- A reader between messages, which may read a message `bs` with the opcode from the given role.
pub record Awaits (r : Reader) (role : Role) (op : Opcode) (bs : Bytes) : Type 0 where
  pub need_zero : r.s.st.rd_need ≡ 0
  pub cont_false : r.s.st.rd_cont ≡ false
  pub other_role : r.s.st.role ≢ role
  pub utf8_reset : r.utf8 ≡ reset_checker
  pub is_data : (op ≡ text) ⊎ (op ≡ binary)
  pub octets : IsBytes bs
  pub fits : length bs < 2 ^ 64
  pub within_max : (r.s.st.rd_msg_max ≡ 0) ⊎ (length bs ≤ r.s.st.rd_msg_max)
  pub text_valid : is_text_op op ≡ true → IsUtf8 bs

bad_mask-other_role : (mine other : Role) → mine ≢ other → bad_mask mine (is_client other) ≡ false
unfolding bad_mask
bad_mask-other_role client client n = absurd (n refl)
bad_mask-other_role client server n = refl
bad_mask-other_role server client n = refl
bad_mask-other_role server server n = absurd (n refl)

passes-IsUtf8 : (bs : Bytes) → IsBytes bs → IsUtf8 bs → passes (write reset_checker bs) ≡ true
passes-IsUtf8 bs b u = unfold check_utf8 in (check_utf8_iff bs b).1 u

Awaits-Start :
    (r : Reader) (role : Role) (op : Opcode) (bs input : Bytes)
    → Awaits r role op bs
    → Start (with_input r input) role op op bs
Awaits-Start r role op bs input a = record {
  need_zero = a.need_zero;
  mask_ok = bad_mask-other_role r.s.st.role role a.other_role;
  continues = inr (a.is_data, a.cont_false, refl);
  fits = ground (arith, a.fits, a.is_data);
  within_max = ground (arith, a.within_max, a.is_data);
  octets = a.octets;
  checked =
      λ t. ap (λ c. passes (write c bs)) a.utf8_reset ∙ passes-IsUtf8 bs a.octets (a.text_valid t);
}

wr_prepare-role : (st : StreamBase) → (wr_prepare st false).role ≡ st.role
unfolding wr_prepare
wr_prepare-role st = ground arith

-- For a stream that fragments, is not within a message and has a buffer of a positive size, whose
-- mask keys have 32 bits, and a reader of the other role between messages: where no write below
-- fails, a message of octets that fits 64 bits and the reader's limit, and is UTF-8 where it is
-- text, is written by a final `write_frame`; and what it has written, with anything behind it, is
-- read by `read`, however the bytes come, as the message with its opcode. What is behind it is left,
-- the reader is between messages again, and it has written nothing.
pub read-write_frame :
    (e : Endian) (b : Below) (net : Net) (s : Stream) (r : Reader) (bs rest : Bytes)
    → ((i : ℕ) → b.fails i ≡ false)
    → ((i : ℕ) → b.keys i < 2 ^ 32)
    → IsIdle s
    → Awaits r s.st.role s.st.wr_opcode bs
    → (t : Stream) × (writes : List Bytes) × (write_frame e b true bs s ≡ some t)
      × (t.sent ≡ s.sent ++ writes)
      × Received
          (read e net (suc (length (flat writes ++ rest))) (with_input r (flat writes ++ rest)))
          r.buffer
          r.s.sent
          r.pongs
          s.st.wr_opcode
          bs
          rest
read-write_frame e b net s r bs rest ok keys idle a =
    let f = write_frame-Finished e b bs s ok idle in
    let input = flat f.writes ++ rest in
    let start =
      subst (λ role. Start (with_input r input) role s.st.wr_opcode s.st.wr_opcode bs)
        (sym (wr_prepare-role s.st)) (Awaits-Start r s.st.role s.st.wr_opcode bs input a) in
    (
      f.result,
      f.writes,
      f.done,
      f.sent-writes,
      read-Frames e b net (suc (length input)) rest keys
          (omega (arith, wr_prepare-max s.st, idle.buf_size-positive)) f.frames start refl
          (omega arith),
    )
