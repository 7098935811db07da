-- ===== src/Websocket/Reader/Closes.antt =====
-- The close frames among the writes of a stream.
use beast.Base.{
  ℕ, ◌+◌, ◌≡◌, ◌⊎◌, inl, inr, refl, ◌∙◌, bit_and, Bool, true, false, ◌==◌, if◌then◌else◌, Bytes,
  List, [], ◌∷◌, ◌++◌, length, arith,
}
use beast.Websocket.Frame.{Endian, write, first_byte}
use beast.Websocket.Reader.{Net, Reader}
use beast.Websocket.Reader.Control.{send_pong, send_close}
use beast.Websocket.Stream.{Stream, send}
use beast.Websocket.StreamBase.{CloseReason, StreamBase}
use beast.Websocket.StreamBase.Write.{write_ping, write_close, control_header}
use beast.Websocket.Types.{Opcode, ping, pong, close, code_none, FrameHeader}

-- Whether a write starts with the opcode of a close frame, and how many do.
abbrev pub is_close : Bytes → Bool
is_close [] = false
is_close (b ∷ bs) = bit_and b 0x0f == 8

abbrev pub closes : List Bytes → ℕ
closes [] = 0
closes (w ∷ ws) = (if is_close w then 1 else 0) + closes ws

pub closes-append :
    (ws : List Bytes) (w : Bytes)
    → closes (ws ++ (w ∷ [])) ≡ closes ws + (if is_close w then 1 else 0)
closes-append [] w = omega arith
closes-append (x ∷ ws) w = omega (arith, closes-append ws w)

-- A close frame has been written once where `wr_close_` is set, and never where it is not.
abbrev pub IsOnce : Stream → Type 0
IsOnce s = closes s.sent ≡ (if s.st.wr_close then 1 else 0)

is_close-append :
    (e : Endian) (fh : FrameHeader) (bs : Bytes)
    → is_close (write e [] fh ++ bs) ≡ (bit_and (first_byte fh) 0x0f == 8)
unfolding write
is_close-append e fh bs = refl

is_close-write :
    (e : Endian) (fh : FrameHeader) → is_close (write e [] fh) ≡ (bit_and (first_byte fh) 0x0f == 8)
unfolding write
is_close-write e fh = refl

is_close-control :
    (e : Endian) (st : StreamBase) (len key : ℕ) (code reason : Bytes)
    → is_close (write e [] (control_header st close len key) ++ code ++ reason) ≡ true
unfolding first_byte write
is_close-control e st len key code reason = refl

is_close_if :
    (b : Bool) (x y : Bytes)
    → is_close x ≡ true
    → is_close y ≡ true
    → is_close (if b then x else y) ≡ true
is_close_if true x y p q = p
is_close_if false x y p q = q

pub is_close-write_close :
    (e : Endian) (st : StreamBase) (cr : CloseReason) (key : ℕ)
    → is_close (write_close e st [] cr key) ≡ true
unfolding write_close first_byte
is_close-write_close e st cr key =
    let len = if cr.code == code_none then 0 else 2 + length cr.reason in
    is_close_if (cr.code == code_none) _ _ (is_close-write e (control_header st close len key))
      (is_close-control e st len key _ _)

pub is_close-write_ping :
    (e : Endian) (st : StreamBase) (op : Opcode) (payload : Bytes) (key : ℕ)
    → (op ≡ ping) ⊎ (op ≡ pong)
    → is_close (write_ping e st [] op payload key) ≡ false
unfolding write_ping
is_close-write_ping e st op payload key (inl o) =
    rw o (
      is_close-append e (control_header st ping (length payload) key) _ ∙ unfold first_byte in refl)
is_close-write_ping e st op payload key (inr o) =
    rw o (
      is_close-append e (control_header st pong (length payload) key) _ ∙ unfold first_byte in refl)

pub send_pong-IsOnce :
    (e : Endian) (net : Net) (payload : Bytes) (r : Reader)
    → IsOnce r.s
    → IsOnce (send_pong e net payload r).s
unfolding send_pong send
send_pong-IsOnce e net payload r h =
    let w = write_ping e r.s.st [] pong payload (net.below.keys r.s.drawn) in
    let other = is_close-write_ping e r.s.st pong payload (net.below.keys r.s.drawn) (inr refl) in
    ground (arith, closes-append r.s.sent w, other, h)

pub send_close-IsOnce :
    (e : Endian) (net : Net) (cr : CloseReason) (s : Stream)
    → s.st.wr_close ≡ false
    → IsOnce s
    → IsOnce (send_close e net cr s)
unfolding send_close send
send_close-IsOnce e net cr s open_yet h =
    let st = record s.st { wr_close = true } in
    let w = write_close e st [] cr (net.below.keys s.drawn) in
    let one = is_close-write_close e st cr (net.below.keys s.drawn) in
    ground (arith, closes-append s.sent w, one, h, open_yet)

pub send_close-wr_close :
    (e : Endian) (net : Net) (cr : CloseReason) (s : Stream)
    → (send_close e net cr s).st.wr_close ≡ true
unfolding send_close send
send_close-wr_close e net cr s = refl
