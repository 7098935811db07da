-- ===== src/Websocket/StreamBase/Control.antt =====
-- `wr_prepare`, and control frames from one end of a connection to the other.
use mathlib.Core.Path.{subst}
use beast.Base.{
  ◌+◌, append_assoc, append-nil, ◌==◌, ◌%◌, ◌/◌, ◌∷◌, ℕ, ◌^◌, ◌≤◌, ◌<◌, ◌≡◌, ◌⊎◌, inl, inr, refl,
  sym, ap, ◌∙◌, Bool, true, false, ◌||◌, if◌then◌else◌, none, some, Bytes, [], ◌++◌, length, arith,
}
use beast.Websocket.Frame.{Endian, write}
use beast.Websocket.Mask.Defs.{mask_inplace64, prepare_key64, mask_general64}
use beast.Websocket.Mask.Laws.{mask_general64-mask_general64, mask_inplace64-flat}
use beast.Websocket.Mask.Spec.{IsBytes}
use beast.Websocket.StreamBase.{
  CloseReason, StreamBase, Step, read_fh1, read_fh2, account, bad_opcode, bad_mask,
}
use beast.Websocket.StreamBase.RoundTrip.{read_fh2-read_fh1-write}
use beast.Websocket.StreamBase.Write.{
  write_close, masked, control_header, write_ping, wr_prepare, is_client,
}
use beast.Websocket.Types.{
  close, Opcode, ping, pong, is_control, code_none, client, server, FrameHeader,
}

-- Behind `wr_prepare`, for a writer whose buffer has the size that it notes: the writer has nothing
-- stored, its size is the one that is set, and it has a buffer of that size where the message is
-- compressed, fragmented or masked, and none otherwise.
pub wr_prepare_lem :
    (st : StreamBase) (compress : Bool)
    → (st.wr.buf ≡ none) ⊎ (st.wr.buf ≡ some st.wr.max)
    → let w = (wr_prepare st compress).wr in
      (w.size ≡ 0)
      × (w.max ≡ st.wr_buf_size)
      × (w.buf
          ≡ (if compress || st.wr_autofrag || is_client st.role then some st.wr_buf_size else none))
unfolding wr_prepare
wr_prepare_lem st compress h = ground arith

-- What the reader is left with behind a control frame that is masked.
account-masked :
    (st : StreamBase) (db : Bytes) (fh : FrameHeader)
    → is_control fh.op ≡ true
    → fh.mask ≡ true
    → let t = account st db fh in
      (t.code ≡ code_none) × (t.st.rd_fh ≡ fh) × (t.db ≡ db) × (t.st.rd_key ≡ prepare_key64 fh.key)
unfolding account
account-masked st db fh c m = ground arith

-- The opcodes of the control frames that are written.
abbrev IsWritten : Opcode → Type 0
IsWritten op = (op ≡ close) ⊎ ((op ≡ ping) ⊎ (op ≡ pong))

is_control-IsWritten : (op : Opcode) → IsWritten op → is_control op ≡ true
unfolding is_control
is_control-IsWritten op (inl e) = rw e refl
is_control-IsWritten op (inr (inl e)) = rw e refl
is_control-IsWritten op (inr (inr e)) = rw e refl

bad_opcode-IsWritten :
    (op : Opcode) (unfinished : Bool) (fh : FrameHeader)
    → IsWritten op
    → fh.fin ≡ true
    → fh.len ≤ 125
    → (fh.rsv1 || fh.rsv2 || fh.rsv3) ≡ false
    → bad_opcode op unfinished fh ≡ false
unfolding bad_opcode
bad_opcode-IsWritten op unfinished fh (inl e) f l r = rw e (ground arith)
bad_opcode-IsWritten op unfinished fh (inr (inl e)) f l r = rw e (ground arith)
bad_opcode-IsWritten op unfinished fh (inr (inr e)) f l r = rw e (ground arith)

-- The bytes of a control frame of a client.
abbrev wire : Endian → StreamBase → Opcode → Bytes → ℕ → Bytes
wire e from op payload key =
    write e [] (control_header from op (length payload) key)
    ++ (mask_general64 payload (prepare_key64 key)).0

-- What the two steps of the reader give on the bytes of a control frame.
abbrev pub ReadBack : StreamBase → FrameHeader → Bytes → Bytes → Type 0
ReadBack to fh payload bytes =
    (s : Step) × (t : Step) × (read_fh1 to bytes ≡ some s)
    × (s.code ≡ code_none)
    × (read_fh2 s.st s.db ≡ some t)
    × (t.code ≡ code_none)
    × (t.st.rd_fh ≡ fh)
    × ((mask_general64 t.db t.st.rd_key).0 ≡ payload)

module _ (e : Endian) (from to : StreamBase) (op : Opcode) (payload : Bytes) (key : ℕ)
    (c : from.role ≡ client) (r : to.role ≡ server) (o : IsWritten op) (l : length payload ≤ 125)
    (b : IsBytes payload) (k : key < 2 ^ 32) where
  is_client-role : is_client from.role ≡ true
  is_client-role = ap is_client c

  wire-ReadBack :
      ReadBack to (control_header from op (length payload) key) payload (wire e from op payload key)
  wire-ReadBack =
      let fh : FrameHeader = control_header from op (length payload) key in
      let body : Bytes = (mask_general64 payload (prepare_key64 key)).0 in
      let read =
        read_fh2-read_fh1-write e to fh body
          (record {
            len_fits = omega arith;
            key_fits = k;
            no_key = λ n. masked_only (sym is_client-role ∙ n);
          })
          (bad_opcode-IsWritten op to.rd_cont fh o refl l refl)
          (unfold bad_mask in rw (r, is_client-role) refl) in
      let t = account-masked to body fh (is_control-IsWritten op o) is_client-role in
      (
        read.0,
        account to body fh,
        read.1,
        read.2,
        read.4,
        t.0,
        t.1,
        rw (t.2, t.3) (mask_general64-mask_general64 key payload k b),
      )
    where
      masked_only : true ≡ false → key ≡ 0
      masked_only n = cc

write_ping-wire :
    (e : Endian) (from : StreamBase) (op : Opcode) (payload : Bytes) (key : ℕ)
    → is_client from.role ≡ true
    → write_ping e from [] op payload key ≡ wire e from op payload key
unfolding write_ping
write_ping-wire e from op payload key m =
    ap
      (λ m.
        write e [] (control_header from op (length payload) key)
        ++ (masked m payload (prepare_key64 key)).0)
      m

-- For a ping or a pong of at most 125 octets, written into an empty buffer by a client with a 32-bit
-- key, and any stream of a server that reads it: both steps of the header reader accept it, the
-- header read is the one written, the payload is what is left, and masking it with the key that the
-- reader has prepared gives the octets of the ping.
pub ReadBack-write_ping :
    (e : Endian) (from to : StreamBase) (op : Opcode) (payload : Bytes) (key : ℕ)
    → from.role ≡ client
    → to.role ≡ server
    → (op ≡ ping) ⊎ (op ≡ pong)
    → length payload ≤ 125
    → IsBytes payload
    → key < 2 ^ 32
    → ReadBack to
        (control_header from op (length payload) key)
        payload
        (write_ping e from [] op payload key)
ReadBack-write_ping e from to op payload key c r o l b k =
    rw (write_ping-wire e from op payload key (ap is_client c))
      (wire-ReadBack e from to op payload key c r (inr o) l b k)

IsBytes-append : (xs ys : Bytes) → IsBytes xs → IsBytes ys → IsBytes (xs ++ ys)
IsBytes-append [] ys p q = q
IsBytes-append (x ∷ xs) ys p q = (p.0, IsBytes-append xs ys p.1 q)

-- The two parts of a close frame are masked as one.
mask-append :
    (key : ℕ) (xs ys : Bytes)
    → key < 2 ^ 32
    → IsBytes xs
    → IsBytes ys
    → let first = mask_general64 xs (prepare_key64 key) in
      first.0 ++ (mask_general64 ys first.1).0 ≡ (mask_general64 (xs ++ ys) (prepare_key64 key)).0
unfolding mask_inplace64
mask-append key xs ys k p q =
    let both =
      mask_inplace64-flat key (xs ∷ ys ∷ []) ((xs ++ ys) ∷ []) k (p, (q, tt))
        (IsBytes-append xs ys p q, tt) (sym (append_assoc xs ys [])) in
    let key' : ℕ = (mask_general64 xs (prepare_key64 key)).1 in
    ap (λ t. (mask_general64 xs (prepare_key64 key)).0 ++ t)
      (sym (append-nil (mask_general64 ys key').0))
    ∙ both.0
    ∙ append-nil (mask_general64 (xs ++ ys) (prepare_key64 key)).0

module _ (e : Endian) (cr : CloseReason) where
  -- The payload of a close frame.
  abbrev pub close_payload : Bytes
  close_payload = e.big16 (cr.code % 2 ^ 16) ++ cr.reason

  code_bytes : e.big16 (cr.code % 2 ^ 16) ≡ cr.code % 2 ^ 16 / 2 ^ 8 ∷ cr.code % 2 ^ 16 % 2 ^ 8 ∷ []
  code_bytes = e.big16_bytes (cr.code % 2 ^ 16) (omega arith)

  code-IsBytes : IsBytes (e.big16 (cr.code % 2 ^ 16))
  code-IsBytes = subst IsBytes (sym code_bytes) (omega arith)

  length-close_payload : length close_payload ≡ 2 + length cr.reason
  length-close_payload = ap (λ t. length (t ++ cr.reason)) code_bytes ∙ omega arith

  write_close-wire :
      (from : StreamBase) (key : ℕ)
      → is_client from.role ≡ true
      → (cr.code == code_none) ≡ false
      → IsBytes cr.reason
      → key < 2 ^ 32
      → write_close e from [] cr key ≡ wire e from close close_payload key
  unfolding write_close
  write_close-wire from key m n b k =
      let body = mask-append key (e.big16 (cr.code % 2 ^ 16)) cr.reason k code-IsBytes b in
      let size = sym length-close_payload in
      let first = mask_general64 (e.big16 (cr.code % 2 ^ 16)) (prepare_key64 key) in
      rw (n, m)
        (append_assoc (header (2 + length cr.reason)) first.0 (mask_general64 cr.reason first.1).0
          ∙ λ i. header (size i) ++ body i)
    where
      header : ℕ → Bytes
      header len = write e [] (record {
        op = close;
        fin = true;
        mask = true;
        rsv1 = false;
        rsv2 = false;
        rsv3 = false;
        len = len;
        key = key;
      })

-- For a close reason with a code of 16 bits other than none and at most 123 octets of text, written
-- into an empty buffer by a client with a 32-bit key, and any stream of a server that reads it: both
-- steps of the header reader accept it, the header read is that of a close frame, the payload is
-- what is left, and masking it with the key that the reader has prepared gives the two bytes of the
-- code and the text.
pub ReadBack-write_close :
    (e : Endian) (from to : StreamBase) (cr : CloseReason) (key : ℕ)
    → from.role ≡ client
    → to.role ≡ server
    → (cr.code == code_none) ≡ false
    → length cr.reason ≤ 123
    → IsBytes cr.reason
    → key < 2 ^ 32
    → ReadBack to
        (control_header from close (length (close_payload e cr)) key)
        (close_payload e cr)
        (write_close e from [] cr key)
ReadBack-write_close e from to cr key c r n l b k =
    rw (write_close-wire e cr from key (ap is_client c) n b k) (
      wire-ReadBack e from to close (close_payload e cr) key c r (inl refl)
        (omega (arith, length-close_payload e cr))
        (IsBytes-append _ cr.reason (code-IsBytes e cr) b) k)
