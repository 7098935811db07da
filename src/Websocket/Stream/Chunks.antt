-- ===== src/Websocket/Stream/Chunks.antt =====
-- A masked frame that `write_frame` sends in chunks.
use mathlib.Core.Path.{subst}
use beast.Base.{
  ℕ, zero, suc, ◌^◌, ◌≡◌, ◌<◌, refl, sym, ap, ◌∙◌, min, true, false, not, Option, some, Bytes, List,
  [], ◌∷◌, ◌++◌, length, take, drop, arith, length-drop, take-append-drop, append_assoc, append-nil,
  flat, All,
}
use beast.Websocket.Frame.{Endian, write}
use beast.Websocket.Mask.Defs.{prepare_key64, mask_inplace64, mask_general64}
use beast.Websocket.Mask.Spec.{IsBytes}
use beast.Websocket.Mask.Laws.{mask_inplace64-flat}
use beast.Websocket.StreamBase.Write.{masked}
use beast.Websocket.Stream.{Below, Stream, send, set_cont, draw, frame, send_chunks, write_masked}
use beast.Websocket.Types.{FrameHeader}

-- The chunks of a payload, as they are masked and sent.
record Chunked (cb : Bytes) (key : ℕ) (s : Stream) (o : Option Stream) : Type 0 where
  result : Stream
  done : o ≡ some result
  parts : List Bytes
  whole : flat parts ≡ cb
  sent-parts : result.sent ≡ s.sent ++ (mask_inplace64 parts key).0
  drawn-same : result.drawn ≡ s.drawn
  failed-false : result.st.failed ≡ false

Chunked-nil : (key : ℕ) (s : Stream) → s.st.failed ≡ false → Chunked [] key s (some s)
unfolding mask_inplace64
Chunked-nil key s ok = record {
  result = s;
  done = refl;
  parts = [];
  whole = refl;
  sent-parts = sym (append-nil s.sent);
  drawn-same = refl;
  failed-false = ok;
}

Chunked-cons :
    (part rest cb : Bytes) (key : ℕ) (b : Below) (s : Stream) (o o' : Option Stream)
    → cb ≡ part ++ rest
    → o ≡ o'
    → Chunked rest (mask_general64 part key).1 (send b (mask_general64 part key).0 s) o'
    → Chunked cb key s o
unfolding mask_inplace64 send
Chunked-cons part rest cb key b s o o' split eq c = record {
  result = c.result;
  done = eq ∙ c.done;
  parts = part ∷ c.parts;
  whole = ap (λ t. part ++ t) c.whole ∙ sym split;
  sent-parts =
      c.sent-parts
      ∙ append_assoc s.sent ((mask_general64 part key).0 ∷ [])
          (mask_inplace64 c.parts (mask_general64 part key).1).0;
  drawn-same = c.drawn-same;
  failed-false = c.failed-false;
}

send_chunks-more :
    (b : Below) (fuel key c : ℕ) (cs : Bytes) (s : Stream)
    → ((i : ℕ) → b.fails i ≡ false)
    → let n = min (length (c ∷ cs)) s.st.wr.max in
      let m = mask_general64 (take n (c ∷ cs)) key in
      send_chunks b (suc fuel) key (c ∷ cs) s
      ≡ send_chunks b fuel m.1 (drop n (c ∷ cs)) (send b m.0 s)
unfolding send_chunks send
send_chunks-more b fuel key c cs s ok = rw (ok (length s.sent)) refl

send-max : (b : Below) (bs : Bytes) (s : Stream) → (send b bs s).st.wr.max ≡ s.st.wr.max
unfolding send
send-max b bs s = refl

send-failed :
    (b : Below) (bs : Bytes) (s : Stream) → (send b bs s).st.failed ≡ b.fails (length s.sent)
unfolding send
send-failed b bs s = refl

send_chunks-Chunked :
    (b : Below) (fuel key : ℕ) (cb : Bytes) (s : Stream)
    → ((i : ℕ) → b.fails i ≡ false)
    → 0 < s.st.wr.max
    → length cb < fuel
    → s.st.failed ≡ false
    → Chunked cb key s (send_chunks b fuel key cb s)
send_chunks-Chunked b zero key cb s ok pos lt f = absurd (omega arith)
send_chunks-Chunked b (suc fuel) key [] s ok pos lt f = unfold send_chunks in Chunked-nil key s f
send_chunks-Chunked b (suc fuel) key (c ∷ cs) s ok pos lt f =
    let n = min (length (c ∷ cs)) s.st.wr.max in
    let part = take n (c ∷ cs) in
    let rest = drop n (c ∷ cs) in
    let m = mask_general64 part key in
    let next = send b m.0 s in
    Chunked-cons part rest (c ∷ cs) key b s (send_chunks b (suc fuel) key (c ∷ cs) s)
      (send_chunks b fuel m.1 rest next) (sym (take-append-drop n (c ∷ cs)))
      (send_chunks-more b fuel key c cs s ok)
      (send_chunks-Chunked b fuel m.1 rest next ok (omega (arith, pos, send-max b m.0 s))
        (omega (arith, length-drop n (c ∷ cs), pos, lt)) (send-failed b m.0 s ∙ ok (length s.sent)))

IsBytes-split : (xs ys : Bytes) → IsBytes (xs ++ ys) → IsBytes xs × IsBytes ys
IsBytes-split [] ys h = (tt, h)
IsBytes-split (x ∷ xs) ys h = let r = IsBytes-split xs ys h.1 in ((h.0, r.0), r.1)

IsBytes-flat : (ps : List Bytes) → IsBytes (flat ps) → All IsBytes ps
IsBytes-flat [] h = tt
IsBytes-flat (p ∷ ps) h = let r = IsBytes-split p (flat ps) h in (r.0, IsBytes-flat ps r.1)

-- Masked chunk by chunk, the payload is what it is masked as a whole.
flat-mask_inplace64 :
    (key : ℕ) (ps : List Bytes) (bs : Bytes)
    → key < 2 ^ 32
    → IsBytes bs
    → flat ps ≡ bs
    → flat (mask_inplace64 ps (prepare_key64 key)).0 ≡ (mask_general64 bs (prepare_key64 key)).0
unfolding mask_inplace64
flat-mask_inplace64 key ps bs fits p e =
    (mask_inplace64-flat key ps (bs ∷ []) fits (IsBytes-flat ps (subst IsBytes (sym e) p)) (p, tt)
      (e ∙ sym (append-nil bs))).0
    ∙ append-nil (mask_general64 bs (prepare_key64 key)).0

-- What a write that does not fail leaves: the bytes of all its writes together.
pub record Wrote (bytes : Bytes) (s : Stream) (o : Option Stream) : Type 0 where
  pub result : Stream
  pub done : o ≡ some result
  pub writes : List Bytes
  pub sent-writes : result.sent ≡ s.sent ++ writes
  pub flat-writes : flat writes ≡ bytes
  pub failed-false : result.st.failed ≡ false

frame-mask :
    (e : Endian) (fh : FrameHeader) (bs : Bytes)
    → fh.mask ≡ true
    → frame e fh bs ≡ write e [] fh ++ (mask_general64 bs (prepare_key64 fh.key)).0
unfolding frame
frame-mask e fh bs mask = ap (λ m. write e [] fh ++ (masked m bs (prepare_key64 fh.key)).0) mask

masked_header : Endian → FrameHeader → Bytes → ℕ → Bytes
masked_header e fh bs n = write e [] fh ++ (mask_general64 (take n bs) (prepare_key64 fh.key)).0

first_chunk : Endian → Below → FrameHeader → Bytes → Stream → Stream
unfolding masked_header
first_chunk e b fh bs s =
    send b (masked_header e fh bs (min (length bs) s.st.wr.max)) (set_cont (not fh.fin) (draw s))

write_masked-send_chunks :
    (e : Endian) (b : Below) (fh : FrameHeader) (bs : Bytes) (s : Stream)
    → ((i : ℕ) → b.fails i ≡ false)
    → let n = min (length bs) s.st.wr.max in
      write_masked e b fh bs s
      ≡ send_chunks b
          (suc (length bs))
          (mask_general64 (take n bs) (prepare_key64 fh.key)).1
          (drop n bs)
          (first_chunk e b fh bs s)
unfolding write_masked first_chunk masked_header send
write_masked-send_chunks e b fh bs s ok = rw (ok (length s.sent)) refl

first_chunk-max :
    (e : Endian) (b : Below) (fh : FrameHeader) (bs : Bytes) (s : Stream)
    → (first_chunk e b fh bs s).st.wr.max ≡ s.st.wr.max
      × (first_chunk e b fh bs s).st.failed ≡ b.fails (length s.sent)
      × (first_chunk e b fh bs s).sent
        ≡ s.sent ++ (masked_header e fh bs (min (length bs) s.st.wr.max) ∷ [])
unfolding first_chunk send
first_chunk-max e b fh bs s = (refl, refl, refl)

-- Where no write below fails and the buffer has a positive size: a masked frame that is not
-- fragmented is sent in chunks, which together are its header and its payload masked as a whole.
pub write_masked-Wrote :
    (e : Endian) (b : Below) (fh : FrameHeader) (bs : Bytes) (s : Stream)
    → ((i : ℕ) → b.fails i ≡ false)
    → 0 < s.st.wr.max
    → fh.key < 2 ^ 32
    → IsBytes bs
    → fh.mask ≡ true
    → Wrote (frame e fh bs) s (write_masked e b fh bs s)
unfolding mask_inplace64 masked_header
write_masked-Wrote e b fh bs s ok pos fits bytes mask =
    let n = min (length bs) s.st.wr.max in
    let part = take n bs in
    let key = prepare_key64 fh.key in
    let m = mask_general64 part key in
    let header = write e [] fh in
    let first = first_chunk-max e b fh bs s in
    let c =
      send_chunks-Chunked b (suc (length bs)) m.1 (drop n bs) (first_chunk e b fh bs s) ok
        (omega (arith, pos, first.0)) (omega (arith, length-drop n bs))
        (first.1 ∙ ok (length s.sent)) in
    let later = (mask_inplace64 c.parts m.1).0 in
    let joined : flat (part ∷ c.parts) ≡ bs = ap (λ t. part ++ t) c.whole ∙ take-append-drop n bs in
    record {
      result = c.result;
      done = write_masked-send_chunks e b fh bs s ok ∙ c.done;
      writes = (header ++ m.0) ∷ later;
      sent-writes =
          c.sent-parts
          ∙ ap (λ t. t ++ later) first.2
          ∙ append_assoc s.sent ((header ++ m.0) ∷ []) later;
      flat-writes =
          append_assoc header m.0 (flat later)
          ∙ ap (λ t. header ++ t) (flat-mask_inplace64 fh.key (part ∷ c.parts) bs fits bytes joined)
          ∙ sym (frame-mask e fh bs mask);
      failed-false = c.failed-false;
    }
