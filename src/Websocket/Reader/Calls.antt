-- ===== src/Websocket/Reader/Calls.antt =====
-- Calls of a stream one after the other.
use mathlib.Core.Path.{subst}
use beast.Base.{
  [], ◌+◌, ◌≡◌, inl, refl, sym, ap, ◌∙◌, Bool, true, false, if◌then◌else◌, Option, none, some,
  Bytes, length, arith,
}
use beast.Websocket.Frame.{Endian}
use beast.Websocket.Reader.{Net, Reader, Outcome}
use beast.Websocket.Reader.Closes.{IsOnce, closes-append, is_close-write_ping, send_close-IsOnce}
use beast.Websocket.Reader.Control.{send_close}
use beast.Websocket.Reader.Loop.{close_with, send_ping, read_frame}
use beast.Websocket.Reader.Total.{Ended, read_frame-Ended}
use beast.Websocket.Reader.WholeHeader.{with_input}
use beast.Websocket.Stream.{Stream, send}
use beast.Websocket.StreamBase.{CloseReason}
use beast.Websocket.StreamBase.Write.{write_ping}
use beast.Websocket.Types.{ping}

-- What a caller may do with a stream, in any order, while its input grows or is cut off.
pub data Calls (e : Endian) (net : Net) (r : Reader) : Reader → Type 0 where
  here : Calls e net r r
  arrive : {r1 : Reader} (bs : Bytes) → Calls e net r r1 → Calls e net r (with_input r1 bs)
  read_one :
      {r1 r2 : Reader} {o : Outcome}
      → Calls e net r r1
      → read_frame e net (1 + length r1.input) r1 ≡ some (r2, o)
      → Calls e net r r2
  close_one :
      {r1 r2 : Reader} (cr : CloseReason)
      → Calls e net r r1
      → close_with e net cr r1 ≡ some r2
      → Calls e net r r2
  ping_one :
      {r1 : Reader} (payload : Bytes)
      → Calls e net r r1
      → Calls e net r (send_ping e net payload r1)

unless : (b : Bool) (x y : Reader) → (if b then none else some x) ≡ some y → (b ≡ false) × (x ≡ y)
unless true x y h = cc
unless false x y h = (refl, ap (λ o. elim o [ none ↦ x | some r ↦ r ]) h)

close_with-IsOnce :
    (e : Endian) (net : Net) (cr : CloseReason) (r r' : Reader)
    → close_with e net cr r ≡ some r'
    → IsOnce r.s
    → IsOnce r'.s
close_with-IsOnce e net cr r r' h o =
    let u =
      unless r.s.st.wr_close (record r { s = send_close e net cr r.s }) r'
        (unfold close_with in h) in
    subst (λ x. IsOnce x.s) u.1 (send_close-IsOnce e net cr r.s u.0 o)

send_ping-IsOnce :
    (e : Endian) (net : Net) (payload : Bytes) (r : Reader)
    → IsOnce r.s
    → IsOnce (send_ping e net payload r).s
unfolding send_ping send
send_ping-IsOnce e net payload r h =
    let w = write_ping e r.s.st [] ping payload (net.below.keys r.s.drawn) in
    let other = is_close-write_ping e r.s.st ping payload (net.below.keys r.s.drawn) (inl refl) in
    ground (arith, closes-append r.s.sent w, other, h)

IsOnce-result :
    (s : Stream) (o : Option (Reader × Outcome)) (r : Reader) (u : Outcome)
    → Ended s o
    → o ≡ some (r, u)
    → IsOnce s
    → IsOnce r.s
IsOnce-result s o r u d h once =
    let same : d.result ≡ r =
      ap (λ o. elim o [ none ↦ d.result | some x ↦ x.0 ]) (sym d.done ∙ h) in
    subst (λ x. IsOnce x.s) same (d.once once)

-- From a stream whose writes hold one close frame where `wr_close_` is set and none where it is not,
-- as they do when it opens: whatever calls are made, `read_frame` on any input, `close` where its
-- assertion holds, and `ping`, in any order and whatever fails below, that is still so: no second
-- close frame is ever written.
pub Calls-IsOnce :
    (e : Endian) (net : Net) {r r' : Reader} → Calls e net r r' → IsOnce r.s → IsOnce r'.s
Calls-IsOnce e net here o = o
Calls-IsOnce e net (arrive bs c) o = Calls-IsOnce e net c o
Calls-IsOnce e net {r'} (read_one {r1} {o = u} c h) o =
    IsOnce-result r1.s (read_frame e net (1 + length r1.input) r1) r' u
      (read_frame-Ended e net (1 + length r1.input) r1 (omega arith)) h (Calls-IsOnce e net c o)
Calls-IsOnce e net {r'} (close_one {r1} cr c h) o =
    close_with-IsOnce e net cr r1 r' h (Calls-IsOnce e net c o)
Calls-IsOnce e net (ping_one {r1} payload c) o =
    send_ping-IsOnce e net payload r1 (Calls-IsOnce e net c o)
