-- ===== src/Websocket/Stream/Message.antt =====
-- Messages that `write_frame` is given whole, or in parts.
use beast.Base.{
  ℕ, suc, ◌-◌, ◌≡◌, ◌<◌, inr, refl, ap, ◌∙◌, min, Bool, true, false, ltb, ◌==◌, Option, some, Bytes,
  [], ◌∷◌, ◌++◌, length, take, arith, length-append,
}
use beast.Websocket.Frame.{Endian}
use beast.Websocket.StreamBase.{StreamBase}
use beast.Websocket.StreamBase.Write.{is_client, masked, wr_prepare}
use beast.Websocket.Mask.Defs.{prepare_key64}
use beast.Websocket.Stream.{
  Below, Stream, send, data_header, frame, set_held, send_fragment, fragment, prepare_write,
  write_prepared, write_frame,
}
use beast.Websocket.Stream.Fragments.{IsReady, Finished, fragment-Finished}
use beast.Websocket.Types.{Opcode}

-- A stream between messages, which fragments.
pub record IsIdle (s : Stream) : Type 0 where
  pub autofrag : s.st.wr_autofrag ≡ true
  pub not_cont : s.st.wr.cont ≡ false
  pub buf_size-positive : 0 < s.st.wr_buf_size

-- What `wr_prepare` makes of it.
abbrev pub started : Stream → Stream
started s = record s { st = wr_prepare s.st false; held = [] }

record Prepared (s : Stream) : Type 0 where
  wr_size : s.st.wr.size ≡ 0
  wr_cont : s.st.wr.cont ≡ false
  wr_autofrag : s.st.wr.autofrag ≡ true

wr_prepare-Prepared : (s : Stream) → IsIdle s → Prepared (started s)
unfolding wr_prepare
wr_prepare-Prepared s i = record {
  wr_size = ground (arith, i.autofrag);
  wr_cont = ground (arith, i.autofrag, i.not_cont);
  wr_autofrag = ground (arith, i.autofrag);
}

pub wr_prepare-max : (st : StreamBase) → (wr_prepare st false).wr.max ≡ st.wr_buf_size
unfolding wr_prepare
wr_prepare-max st = ground arith

wr_prepare-opcode : (st : StreamBase) → (wr_prepare st false).wr_opcode ≡ st.wr_opcode
unfolding wr_prepare
wr_prepare-opcode st = ground arith

prepare_write-started : (s : Stream) → s.st.wr.cont ≡ false → prepare_write s ≡ started s
unfolding prepare_write
prepare_write-started s h = rw h refl

write_prepared-fragment :
    (e : Endian) (b : Below) (fin : Bool) (bs : Bytes) (s : Stream)
    → s.st.wr.cont ≡ false
    → s.st.wr.autofrag ≡ true
    → write_prepared e b fin bs s ≡ fragment e b (suc (suc (length bs))) fin s.st.wr_opcode bs s
unfolding write_prepared
write_prepared-fragment e b fin bs s c a = rw (c, a) refl

write_frame-fragment :
    (e : Endian) (b : Below) (fin : Bool) (bs : Bytes) (s : Stream)
    → IsIdle s
    → write_frame e b fin bs s
      ≡ fragment e b (suc (suc (length bs))) fin s.st.wr_opcode bs (started s)
unfolding write_frame
write_frame-fragment e b fin bs s i =
    let p = wr_prepare-Prepared s i in
    ap (write_prepared e b fin bs) (prepare_write-started s i.not_cont)
    ∙ write_prepared-fragment e b fin bs (started s) p.wr_cont p.wr_autofrag
    ∙ ap (λ op. fragment e b (suc (suc (length bs))) fin op bs (started s)) (wr_prepare-opcode s.st)

started-IsReady : (s : Stream) → IsIdle s → IsReady (started s)
started-IsReady s i =
    let p = wr_prepare-Prepared s i in
    record {
      max-positive = omega (arith, wr_prepare-max s.st, i.buf_size-positive);
      size-held = p.wr_size;
      held-max = omega arith;
    }

-- For a stream that fragments, is not within a message and has a buffer of a positive size: where no
-- write below fails, a final `write_frame` ends without an error, and has sent the message as full
-- frames and a last one, each with its own key, of which only the last has the final bit and only
-- the first the message's opcode.
pub write_frame-Finished :
    (e : Endian) (b : Below) (bs : Bytes) (s : Stream)
    → ((i : ℕ) → b.fails i ≡ false)
    → IsIdle s
    → Finished e b s.st.wr_opcode bs (started s) (write_frame e b true bs s)
write_frame-Finished e b bs s ok i = rw (write_frame-fragment e b true bs s i) (
    fragment-Finished e b (suc (suc (length bs))) s.st.wr_opcode bs (started s) ok
      (started-IsReady s i) (inr (omega arith)))

-- A part that is not final and for which there is room: it is stored, and nothing else changes.
fragment-stored :
    (e : Endian) (b : Below) (fuel : ℕ) (op : Opcode) (cb : Bytes) (s : Stream)
    → length cb < s.st.wr.max - s.st.wr.size
    → fragment e b (suc fuel) false op cb s ≡ some (set_held (s.held ++ cb) s)
unfolding fragment
fragment-stored e b fuel op cb s lt =
    let small : ltb (length cb) (s.st.wr.max - s.st.wr.size) ≡ true = ground (arith, lt) in
    rw small refl

stored-IsIdle : (s : Stream) (bs : Bytes) → IsIdle s → IsIdle (set_held bs (started s))
unfolding wr_prepare
stored-IsIdle s bs i = record {
  autofrag = ground (arith, i.autofrag);
  not_cont = ground (arith, i.autofrag, i.not_cont);
  buf_size-positive = ground (arith, i.buf_size-positive);
}

-- For a stream that fragments and is not within a message: a part that is not final and fits the
-- buffer is not sent, and the stream is still taken to be between messages. The next call drops it:
-- where no write below fails, a final part that follows is sent alone, with the message's opcode.
pub write_frame-lost :
    (e : Endian) (b : Below) (xs ys : Bytes) (s : Stream)
    → ((i : ℕ) → b.fails i ≡ false)
    → IsIdle s
    → length xs < s.st.wr_buf_size
    → (t : Stream) × (write_frame e b false xs s ≡ some t)
      × (t.sent ≡ s.sent)
      × Finished e b t.st.wr_opcode ys (started t) (write_frame e b true ys t)
write_frame-lost e b xs ys s ok i fits =
    let p = wr_prepare-Prepared s i in
    let t = set_held ([] ++ xs) (started s) in
    let room : length xs < (started s).st.wr.max - (started s).st.wr.size =
      omega (arith, p.wr_size, wr_prepare-max s.st, fits) in
    (
      t,
      write_frame-fragment e b false xs s i
          ∙ fragment-stored e b (suc (length xs)) s.st.wr_opcode xs (started s) room,
      refl,
      write_frame-Finished e b ys t ok (stored-IsIdle s xs i),
    )

-- What a final write leaves whose first write below fails: the error, and one write.
pub record Failed (s : Stream) (o : Option Stream) : Type 0 where
  pub result : Stream
  pub done : o ≡ some result
  pub failed-true : result.st.failed ≡ true
  pub length-sent : length result.sent ≡ suc (length s.sent)

fragment-Failed :
    (e : Endian) (b : Below) (fuel : ℕ) (op : Opcode) (cb : Bytes) (s : Stream)
    → b.fails (length s.sent) ≡ true
    → Failed s (fragment e b (suc fuel) true op cb s)
unfolding fragment send_fragment send
fragment-Failed e b fuel op cb s bad =
    let n = min (length cb) (s.st.wr.max - s.st.wr.size) in
    let mb = s.held ++ take n cb in
    let s' = send_fragment e b (n == length cb) op mb s in
    record {
      result = record s' {
        held =
            take s.st.wr.size (masked (is_client s.st.role) mb (prepare_key64 (b.keys s.drawn))).0;
      };
      done = rw bad refl;
      failed-true = bad;
      length-sent = omega (
        arith,
        length-append s.sent (
            frame e (data_header s.st.role op (n == length cb) (length mb) (b.keys s.drawn)) mb
            ∷ []),
      );
    }

-- For a stream that fragments and is not within a message: where the first write below fails, a
-- final `write_frame` ends with the error set, and has written nothing more.
pub write_frame-Failed :
    (e : Endian) (b : Below) (bs : Bytes) (s : Stream)
    → IsIdle s
    → b.fails (length s.sent) ≡ true
    → Failed (started s) (write_frame e b true bs s)
write_frame-Failed e b bs s i bad =
    rw (write_frame-fragment e b true bs s i)
      (fragment-Failed e b (suc (length bs)) s.st.wr_opcode bs (started s) bad)
