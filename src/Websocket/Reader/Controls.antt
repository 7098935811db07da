-- ===== src/Websocket/Reader/Controls.antt =====
-- What a control frame leads to, whatever it holds and whatever fails.
use beast.Base.{
  ℕ, ◌≤◌, ◌<◌, ◌≡◌, ◌⊎◌, inl, inr, refl, Bool, true, false, not, ltb, ◌==◌, if◌then◌else◌,
  Bool-cases, none, some, Bytes, [], ◌∷◌, ◌++◌, length, take, drop, arith, length-take, length-drop,
}
use beast.Websocket.Frame.{Endian}
use beast.Websocket.Mask.Lengths.{length-mask_general64}
use beast.Websocket.Reader.{
  Net, Reader, Error, below_failed, closed, failed, info, error, Round, again, stop, set_st,
  read_exactly, read_failed,
}
use beast.Websocket.Reader.Closes.{IsOnce, send_pong-IsOnce, send_close-IsOnce, send_close-wr_close}
use beast.Websocket.Reader.Control.{
  send_pong, send_close, tear_down, fail_connection, on_close, on_ping, on_pong, on_control,
  read_control,
}
use beast.Websocket.Reader.HeadRead.{IsKnown}
use beast.Websocket.Stream.{Stream}
use beast.Websocket.StreamBase.{CloseReason}
use beast.Websocket.StreamBase.Close.{read_close-outcome}
use beast.Websocket.StreamBase.Write.{masked}
use beast.Websocket.Types.{Opcode, close, ping, pong, CloseCode, code_none}
use beast.Websocket.Utf8.{check_utf8}

-- A round goes on or gives payload only behind input that it has taken. An error sets `failed_`;
-- where it is not one of the stream below a close frame has been written, here or before. None
-- writes a second close frame, and no assertion fails.
pub data Progress (n : ℕ) (s : Stream) : Round → Type 0 where
  goes_on : {r : Reader} → length r.input < n → (IsOnce s → IsOnce r.s) → Progress n s (again r)
  gives :
      {r : Reader} {op : Opcode} {fin : Bool}
      → length r.input < n
      → r.s.st.failed ≡ false
      → (IsOnce s → IsOnce r.s)
      → Progress n s (stop r (info op fin))
  fails :
      {r : Reader} {ec : Error}
      → r.s.st.failed ≡ true
      → (ec ≡ below_failed) ⊎ (r.s.st.wr_close ≡ true)
      → (IsOnce s → IsOnce r.s)
      → Progress n s (stop r (error ec))

module _ (n : ℕ) (s : Stream) where
  pub on_if :
      (b : Bool) (x y : Round)
      → (b ≡ true → Progress n s x)
      → (b ≡ false → Progress n s y)
      → Progress n s (if b then x else y)
  on_if true x y p q = p refl
  on_if false x y p q = q refl

  tear_down-Progress :
      (net : Net) (ec : Error) (r : Reader)
      → r.s.st.wr_close ≡ true
      → (IsOnce s → IsOnce r.s)
      → Progress n s (tear_down net ec r)
  unfolding tear_down
  tear_down-Progress net ec r w h = fails refl (inr w) h

  -- A close frame and then the teardown, where none has been written.
  close_now :
      (e : Endian) (net : Net) (ec : Error) (cr : CloseReason) (r : Reader)
      → r.s.st.wr_close ≡ false
      → (IsOnce s → IsOnce r.s)
      → let r' = record r { s = send_close e net cr r.s } in
        Progress n s (if r'.s.st.failed then stop r' (error below_failed) else tear_down net ec r')
  close_now e net ec cr r open_yet h =
      let r' = record r { s = send_close e net cr r.s } in
      let once : IsOnce s → IsOnce r'.s = λ o. send_close-IsOnce e net cr r.s open_yet (h o) in
      on_if r'.s.st.failed (stop r' (error below_failed)) (tear_down net ec r')
        (λ y. fails y (inl refl) once)
        (λ z. tear_down-Progress net ec r' (send_close-wr_close e net cr r.s) once)

  pub fail_connection-Progress :
      (e : Endian) (net : Net) (code : CloseCode) (r : Reader)
      → (IsOnce s → IsOnce r.s)
      → Progress n s (fail_connection e net code r)
  unfolding fail_connection
  fail_connection-Progress e net code r h =
      on_if r.s.st.wr_close _ _ (λ y. tear_down-Progress net failed r y h)
        (λ z. close_now e net failed (record { code = code; reason = [] }) r z h)

  on_ping-Progress :
      (e : Endian) (net : Net) (fb : Bytes) (r : Reader)
      → length fb ≤ 125
      → length r.input < n
      → (IsOnce s → IsOnce r.s)
      → Progress n s (on_ping e net fb r)
  unfolding on_ping
  on_ping-Progress e net fb r small lt h =
      let r' = send_pong e net fb r in
      let once : IsOnce s → IsOnce r'.s = λ o. send_pong-IsOnce e net fb r (h o) in
      on_if (ltb 125 (length fb)) _ _ (λ y. absurd (ground (arith, y, small)))
        (λ z.
          on_if r'.s.st.failed _ _ (λ y. fails y (inl refl) once)
            (λ z. goes_on (unfold send_pong in lt) once))

  on_pong-Progress :
      (net : Net) (fb : Bytes) (r : Reader)
      → length fb ≤ 125
      → length r.input < n
      → (IsOnce s → IsOnce r.s)
      → Progress n s (on_pong net fb r)
  unfolding on_pong
  on_pong-Progress net fb r small lt h =
      on_if (ltb 125 (length fb)) _ _ (λ y. absurd (ground (arith, y, small)))
        (λ z. goes_on_if net.pong_cb (record r { pongs = r.pongs ++ (fb ∷ []) }) r lt h lt h)
    where
      goes_on_if :
          (b : Bool) (x y : Reader)
          → length x.input < n
          → (IsOnce s → IsOnce x.s)
          → length y.input < n
          → (IsOnce s → IsOnce y.s)
          → Progress n s (again (if b then x else y))
      goes_on_if true x y p q p' q' = goes_on p q
      goes_on_if false x y p q p' q' = goes_on p' q'

  on_close-Progress :
      (e : Endian) (net : Net) (fb : Bytes) (r : Reader)
      → length fb ≤ 125
      → (IsOnce s → IsOnce r.s)
      → Progress n s (on_close e net fb r)
  unfolding on_close
  on_close-Progress e net fb r small h =
      let c = read_close-outcome check_utf8 r.s.st.cr fb small in
      let r' = set_st (record r.s.st { cr = c.0.0 }) r in
      rw (on_close, c.1)
        (on_if (not (c.0.1 == code_none)) _ _ (λ y. fail_connection-Progress e net c.0.1 r' h)
          (λ z.
            on_if r.s.st.wr_close _ _ (λ y. tear_down-Progress net closed r' y h)
              (λ z. close_now e net closed _ r' z h)))

  on_control-Progress :
      (e : Endian) (net : Net) (op : Opcode) (fb : Bytes) (r : Reader)
      → IsKnown op
      → length fb ≤ 125
      → length r.input < n
      → (IsOnce s → IsOnce r.s)
      → Progress n s (on_control e net op fb r)
  unfolding on_control
  on_control-Progress e net ping fb r k small lt h = on_ping-Progress e net fb r small lt h
  on_control-Progress e net pong fb r k small lt h = on_pong-Progress net fb r small lt h
  on_control-Progress e net close fb r k small lt h = on_close-Progress e net fb r small h
  on_control-Progress e net _ fb r k small lt h = absurd (ground (arith, k))

  length-masked : (m : Bool) (bs : Bytes) (key : ℕ) → length (masked m bs key).0 ≡ length bs
  length-masked true bs key = length-mask_general64 bs key
  length-masked false bs key = refl

  -- What is done with the payload of a control frame.
  abbrev with_payload : Endian → Net → Bytes → Reader → Bytes × Reader → Round
  with_payload e net fb r (mb, r') =
      let m = masked r.s.st.rd_fh.mask mb r.s.st.rd_key in
      on_control e net r.s.st.rd_fh.op (fb ++ m.0) (set_st (record r'.s.st { rd_key = m.1 }) r')

  on_read :
      (k : ℕ) (r : Reader) (x : Round) (f : Bytes × Reader → Round)
      → Progress n s x
      → (k ≤ length r.input
          → Progress n s (f (take k r.input, record r { input = drop k r.input })))
      → Progress n s (elim (read_exactly k r) [ none ↦ x | some (a, b) ↦ f (a, b) ])
  on_read k r x f p q = elim (Bool-cases (ltb (length r.input) k)) [
    | inl y ↦ rw y p
    | inr z ↦ let enough : k ≤ length r.input = ground (arith, z) in rw z (q enough)
  ]

  pub read_control-Progress :
      (e : Endian) (net : Net) (r : Reader)
      → IsKnown r.s.st.rd_fh.op × (r.s.st.rd_fh.len ≤ 125)
      → length r.input < n
      → (IsOnce s → IsOnce r.s)
      → Progress n s (read_control e net [] r)
  unfolding read_control
  read_control-Progress e net r known lt h =
      let fh = r.s.st.rd_fh in
      let mb = take fh.len r.input in
      let m = masked fh.mask mb r.s.st.rd_key in
      let r' = record r { input = drop fh.len r.input } in
      on_if (ltb 0 fh.len) _ _
        (λ y.
          on_read fh.len r (read_failed r) (with_payload e net [] r) (fails refl (inl refl) h)
            (λ enough.
              on_control-Progress e net fh.op m.0 (set_st (record r'.s.st { rd_key = m.1 }) r')
                known.0
                (omega (
                  arith,
                  known.1,
                  length-masked fh.mask mb r.s.st.rd_key,
                  length-take fh.len r.input,
                ))
                (omega (arith, length-drop fh.len r.input, lt)) h))
        (λ z. on_control-Progress e net fh.op [] r known.0 (omega arith) lt h)
