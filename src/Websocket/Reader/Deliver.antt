-- ===== src/Websocket/Reader/Deliver.antt =====
-- From `write_frame` at one end to `read` at the other.
use mathlib.Core.Path.{subst}
use beast.Base.{
  ℕ, ◌+◌, ◌^◌, ◌<◌, ◌≡◌, ◌⊎◌, inl, inr, refl, sym, ap, ◌∙◌, Bool, true, false, not, Option, Bytes,
  List, [], ◌++◌, length, flat, arith, length-append, append_assoc, append-nil,
}
use beast.Websocket.Frame.{Endian}
use beast.Websocket.Reader.{Net, Reader, Outcome}
use beast.Websocket.Reader.FrameRead.{FrameRead, round-FrameRead}
use beast.Websocket.Reader.FrameStart.{before, Start}
use beast.Websocket.Reader.Loop.{read}
use beast.Websocket.Reader.Message.{Received, Between}
use beast.Websocket.Reader.Piece.{IsBytes-append}
use beast.Websocket.Reader.Within.{Onward, within-Received}
use beast.Websocket.Stream.{Below, data_header, frame}
use beast.Websocket.Stream.Fragments.{Frames, last_frame, full_frame}
use beast.Websocket.StreamBase.Write.{is_client}
use beast.Websocket.StreamBase.{bad_mask}
use beast.Websocket.Types.{Opcode, cont, Role}

-- The same from a reader that has read nothing yet.
Received-same :
    {o : Option (Reader × Outcome)} {buffer buffer' : Bytes} {sent sent' pongs pongs' : List Bytes}
    {op : Opcode} {p rest : Bytes}
    → buffer' ≡ buffer
    → sent' ≡ sent
    → pongs' ≡ pongs
    → Received o buffer' sent' pongs' op p rest
    → Received o buffer sent pongs op p rest
Received-same {p} b s q g = record {
  result = g.result;
  done = g.done;
  buffer-append = g.buffer-append ∙ ap (λ x. x ++ p) b;
  input_rest = g.input_rest;
  need_zero = g.need_zero;
  cont_false = g.cont_false;
  failed_false = g.failed_false;
  sent_same = g.sent_same ∙ s;
  pongs_same = g.pongs_same ∙ q;
  reset_text = g.reset_text;
}

-- A frame and then the rest of its message.
frame-Received :
    (e : Endian) (net : Net) {r : Reader} {role : Role} {op whole : Opcode} (fuel : ℕ) (fin : Bool)
    (key : ℕ) (part t rest last : Bytes)
    → Start r role op whole (part ++ t)
    → key < 2 ^ 32
    → r.input ≡ frame e (data_header role op fin (length part) key) part ++ rest
    → (0 < length part) ⊎ (fin ≡ true)
    → (fin ≡ true → (t ≡ []) × (rest ≡ last))
    → length r.input < fuel
    → (FrameRead e net r role op whole fin key part t rest
        → (r1 : Reader) → r1.s.st.role ≡ r.s.st.role
        → r1.s.st.rd_cont ≡ not fin
        → r1.s.st.rd_msg_max ≡ r.s.st.rd_msg_max
        → r1.s.st.rd_size ≡ before r.s.st op + length part
        → Onward e net r1 fin whole t rest last)
    → Received (read e net fuel r) r.buffer r.s.sent r.pongs whole (part ++ t) last
frame-Received e net {r} fuel fin key part t rest last s k i nonempty all lt onward =
    let f = round-FrameRead e net fin key part t rest s k i nonempty (λ h. (all h).0) in
    Received-same f.buffer_same f.sent f.pongs (
      within-Received e net fuel r f.r' f.done f.mid nonempty (omega (arith, f.shorter, lt))
        f.rd_cont all (onward f f.r' f.role_same f.rd_cont f.rd_msg_max f.rd_size))

-- A reader behind a frame that is not the last, in front of the next.
Start-next :
    {r r1 r2 : Reader} {role : Role} {op whole : Opcode} {t rest : Bytes} (part : Bytes)
    → Start r role op whole (part ++ t)
    → r1.s.st.role ≡ r.s.st.role
    → r1.s.st.rd_cont ≡ true
    → r1.s.st.rd_msg_max ≡ r.s.st.rd_msg_max
    → r1.s.st.rd_size ≡ before r.s.st op + length part
    → Between r1 r2 whole t rest
    → Start r2 role cont whole t
Start-next {r} {role} {t} part s ro co mx sz h = record {
  need_zero = h.need_zero;
  mask_ok = ap (λ x. bad_mask x (is_client role)) (h.steady.role ∙ ro) ∙ s.mask_ok;
  continues = inl (refl, h.steady.rd_cont ∙ co, h.opcode_is);
  fits = omega (arith, s.fits, h.steady.rd_size, sz, length-append part t);
  within_max =
      omega
        (arith, s.within_max, h.steady.rd_size, sz, h.steady.rd_msg_max, mx, length-append part t);
  octets = (IsBytes-append part t s.octets).1;
  checked = h.checked;
}

pub read-Frames :
    (e : Endian) (b : Below) (net : Net) {role : Role} {max : ℕ} {op : Opcode} {drawn : ℕ}
    {p : Bytes} {ws : List Bytes} {whole : Opcode} {r : Reader} (fuel : ℕ) (rest : Bytes)
    → ((i : ℕ) → b.keys i < 2 ^ 32)
    → 0 < max
    → Frames e b role max op drawn p ws
    → Start r role op whole p
    → r.input ≡ flat ws ++ rest
    → length r.input < fuel
    → Received (read e net fuel r) r.buffer r.s.sent r.pongs whole p rest
read-Frames e b net {role} {op} {drawn} {whole} {r} fuel rest keys pos (last_frame p le) s i lt =
    let f = frame e (data_header role op true (length p) (b.keys drawn)) p in
    let none_more = append-nil p in
    subst (λ x. Received (read e net fuel r) r.buffer r.s.sent r.pongs whole x rest) none_more
      (frame-Received e net fuel true (b.keys drawn) p [] rest rest
        (subst (Start r role op whole) (sym none_more) s) (keys drawn)
        (i ∙ ap (λ x. x ++ rest) (append-nil f)) (inr refl) (λ h. (refl, refl)) lt
        (λ f' r1 ro co mx sz h. cc))
read-Frames e b net {role} {op} {drawn} {p} {whole} {r} fuel rest keys pos
      (full_frame {rest = t} {ws} part full split more) s i lt =
    let f = frame e (data_header role op false (length part) (b.keys drawn)) part in
    let s' = subst (Start r role op whole) split s in
    subst (λ x. Received (read e net fuel r) r.buffer r.s.sent r.pongs whole x rest) (sym split)
      (frame-Received e net fuel false (b.keys drawn) part t (flat ws ++ rest) rest s' (keys drawn)
        (i ∙ append_assoc f (flat ws) rest) (inl (omega (arith, full, pos))) (λ h. cc) lt
        (λ f' r1 ro co mx sz h fu r2 lt' bt.
          read-Frames e b net fu rest keys pos more (Start-next part s' ro co mx sz bt)
            bt.input_rest lt'))
