-- ===== src/Websocket/Reader/FrameStart.antt =====
-- From the header of a data frame to its payload.
use beast.Base.{
  ℕ, ◌+◌, ◌-◌, ◌^◌, ◌≤◌, ◌<◌, ◌≡◌, ◌⊎◌, refl, ap, Bool, true, false, not, ◌&&◌, ◌||◌, ltb, ◌==◌,
  if◌then◌else◌, Bytes, [], ◌++◌, length, arith,
}
use beast.Websocket.Frame.{Endian, write}
use beast.Websocket.Mask.Defs.{prepare_key64}
use beast.Websocket.Mask.Laws.{key_bytes, mask_general64-key_bytes}
use beast.Websocket.Mask.Spec.{IsBytes}
use beast.Websocket.Reader.{Reader}
use beast.Websocket.Reader.Cipher.{cipher}
use beast.Websocket.Reader.Loop.{is_text_op}
use beast.Websocket.Stream.{data_header, frame}
use beast.Websocket.StreamBase.{StreamBase, bad_opcode, bad_mask, is_cont, account}
use beast.Websocket.StreamBase.RoundTrip.{IsWritable}
use beast.Websocket.StreamBase.Write.{is_client}
use beast.Websocket.Types.{
  Opcode, cont, text, binary, is_control, code_none, Role, client, server, FrameHeader,
}
use beast.Websocket.Utf8.{write as write_text}
use beast.Websocket.Utf8.Check.{passes}

-- A data header as it is received: with no key where nothing is masked.
abbrev pub received : Role → Opcode → Bool → ℕ → ℕ → FrameHeader
received role op fin len key = data_header role op fin len (if is_client role then key else 0)

pub frame-received :
    (e : Endian) (role : Role) (op : Opcode) (fin : Bool) (key : ℕ) (p : Bytes)
    → key < 2 ^ 32
    → IsBytes p
    → frame e (data_header role op fin (length p) key) p
      ≡ write e [] (received role op fin (length p) key)
        ++ cipher (is_client role) (key_bytes key) p
unfolding frame
frame-received e client op fin key p h b =
    ap (λ x. write e [] (data_header client op fin (length p) key) ++ x.0)
      (mask_general64-key_bytes key h p b)
frame-received e server op fin key p h b = unfold write in refl

pub received-IsWritable :
    (role : Role) (op : Opcode) (fin : Bool) (len key : ℕ)
    → len < 2 ^ 64
    → key < 2 ^ 32
    → IsWritable (received role op fin len key)
received-IsWritable client op fin len key l k = record {
  len_fits = l;
  key_fits = k;
  no_key = λ e. cc;
}
received-IsWritable server op fin len key l k = record {
  len_fits = l;
  key_fits = omega arith;
  no_key = λ e. refl;
}

-- Whether the frame starts a message or continues one, whose opcode is `whole`.
abbrev pub Continues : StreamBase → Opcode → Opcode → Type 0
Continues st op whole =
    ((op ≡ cont) × (st.rd_cont ≡ true) × (st.rd_opcode ≡ whole))
    ⊎ (((op ≡ text) ⊎ (op ≡ binary)) × (st.rd_cont ≡ false) × (whole ≡ op))

-- The size of the message in front of the frame.
abbrev pub before : StreamBase → Opcode → ℕ
before st op = if is_cont op then st.rd_size else 0

-- A reader between frames, in front of `p` of a message whose next frame has the opcode `op`.
pub record Start (r : Reader) (role : Role) (op whole : Opcode) (p : Bytes) : Type 0 where
  pub need_zero : r.s.st.rd_need ≡ 0
  pub mask_ok : bad_mask r.s.st.role (is_client role) ≡ false
  pub continues : Continues r.s.st op whole
  pub fits : before r.s.st op + length p < 2 ^ 64
  pub within_max : (r.s.st.rd_msg_max ≡ 0) ⊎ (before r.s.st op + length p ≤ r.s.st.rd_msg_max)
  pub octets : IsBytes p
  pub checked : is_text_op whole ≡ true → passes (write_text r.utf8 p) ≡ true

-- The account of the header.
abbrev pub after_header : StreamBase → FrameHeader → StreamBase
after_header st fh = record st {
  rd_fh = fh;
  rd_key = if fh.mask then prepare_key64 fh.key else st.rd_key;
  rd_size = if is_cont fh.op then st.rd_size + fh.len else fh.len;
  rd_opcode = if is_cont fh.op then st.rd_opcode else fh.op;
  rd_need = fh.len;
  rd_cont = not fh.fin;
}

pub account-after_header :
    (st : StreamBase) (fh : FrameHeader)
    → is_control fh.op ≡ false
    → before st fh.op + fh.len < 2 ^ 64
    → (st.rd_msg_max ≡ 0) ⊎ (before st fh.op + fh.len ≤ st.rd_msg_max)
    → account st [] fh ≡ record { st = after_header st fh; db = []; code = code_none; need = 0 }
unfolding account
account-after_header st fh c f w =
    let fits : (is_cont fh.op && ltb (2 ^ 64 - 1 - fh.len) st.rd_size) ≡ false =
      ground (arith, f) in
    let within_max : (not (st.rd_msg_max == 0)
          && ltb st.rd_msg_max (if is_cont fh.op then st.rd_size + fh.len else fh.len))
        ≡ false =
      ground (arith, w) in
    rw (c, fits, within_max) refl

pub Continues-data :
    (st : StreamBase) (op whole : Opcode) (fin : Bool) (fh : FrameHeader)
    → Continues st op whole
    → (fh.rsv1 || fh.rsv2 || fh.rsv3) ≡ false
    → (is_control op ≡ false)
      × (bad_opcode op st.rd_cont fh ≡ false)
      × ((if is_cont op then st.rd_opcode else op) ≡ whole)
unfolding is_control bad_opcode
Continues-data st cont whole fin fh h n = (refl, ground (arith, h, n), ground (arith, h))
Continues-data st text whole fin fh h n = (refl, ground (arith, h, n), ground (arith, h))
Continues-data st binary whole fin fh h n = (refl, ground (arith, h, n), ground (arith, h))
Continues-data st _ whole fin fh h n = absurd (ground (arith, h))
