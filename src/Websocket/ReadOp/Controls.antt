-- ===== src/Websocket/ReadOp/Controls.antt =====
-- What the cases of read_frame_op.ipp that answer a control frame or fail the connection keep.
use beast.Base.{
  ℕ, ◌≡◌, inl, inr, refl, Bool, true, false, not, ltb, ◌==◌, if◌then◌else◌, Option-cases, some,
  Bytes, [], ◌∷◌, ◌++◌, length, arith,
}
use beast.Websocket.Frame.{Endian}
use beast.Websocket.ReadOp.{Op, close_sent, start_write, set_block, is_blocked}
use beast.Websocket.ReadOp.Cases.{
  control_ping, control_pong, control_close, on_control, block_and_write, on_pong, send_failure,
  on_fail, note_close, with_close, is_mine,
}
use beast.Websocket.ReadOp.Rounds.{Kept, goes, waits, answers, asserts, on_if, plain}
use beast.Websocket.Reader.{Net}
use beast.Websocket.Reader.Closes.{
  is_close, IsOnce, closes-append, is_close-write_ping, is_close-write_close,
}
use beast.Websocket.StreamBase.Close.{read_close}
use beast.Websocket.Types.{Opcode, close, ping, pong, CloseCode, code_none}
use beast.Websocket.Utf8.{check_utf8}

-- What `fb` holds is written: a pong, or the close frame that has been noted.
pong-IsOnce :
    (b : _) (d : Op)
    → is_close d.fb ≡ false
    → IsOnce d.r.s
    → IsOnce (start_write (set_block b d)).r.s
pong-IsOnce b d n o = ground (arith, closes-append d.r.s.sent d.fb, n, o)

close-IsOnce :
    (b : _) (d : Op)
    → is_close d.fb ≡ true
    → d.r.s.st.wr_close ≡ false
    → IsOnce d.r.s
    → IsOnce (start_write (set_block b (note_close d))).r.s
close-IsOnce b d c n o = ground (arith, closes-append d.r.s.sent d.fb, c, n, o)

pub on_pong-Kept :
    (me : ℕ) (bs : Bytes) (d : Op) → is_close d.fb ≡ false → IsOnce d.r.s → Kept 1 (on_pong me bs d)
unfolding on_pong block_and_write
on_pong-Kept me bs d n o =
    on_if 1 d.r.s.st.wr_close _ _ (λ y. goes refl refl (plain o))
      (λ z.
        on_if 1 (is_blocked d) _ _ (λ y. asserts)
          (λ z. waits (plain (pong-IsOnce (some me) d n o))))

pub do_close-Kept :
    (me : ℕ) (d : Op)
    → is_close d.fb ≡ true
    → d.r.s.st.wr_close ≡ false
    → IsOnce d.r.s
    → Kept 0 (block_and_write me close_sent (note_close d))
unfolding block_and_write
do_close-Kept me d c n o =
    on_if 0 (is_blocked d) _ _ (λ y. asserts) (λ z. waits (plain (close-IsOnce (some me) d c n o)))

pub send_failure-Kept :
    (n me : ℕ) (d : Op)
    → is_close d.fb ≡ true
    → d.r.s.st.wr_close ≡ false
    → IsOnce d.r.s
    → Kept n (send_failure me d)
unfolding send_failure block_and_write
send_failure-Kept n me d c w o =
    on_if n (is_blocked d) _ _ (λ y. asserts) (λ z. waits (plain (close-IsOnce (some me) d c w o)))

pub on_fail-Kept :
    (e : Endian) (net : Net) (me : ℕ) (code : CloseCode) (bs : Bytes) (d : Op)
    → IsOnce d.r.s
    → Kept 1 (on_fail e net me code bs d)
unfolding on_fail
on_fail-Kept e net me code bs d o =
    let c =
      is_close-write_close e d.r.s.st (record { code = code; reason = [] })
        (net.below.keys d.r.s.drawn) in
    on_if 1 d.r.s.st.wr_close _ _ (λ y. goes refl refl (plain o))
      (λ z.
        on_if 1 (is_blocked d) _ _ (λ y. waits (o, λ e. c, λ e. cc, λ e. cc))
          (λ z'.
            send_failure-Kept 1 me (with_close e net (record { code = code; reason = [] }) d) c z
              o))

control_ping-Kept :
    (e : Endian) (net : Net) (me : ℕ) (bs : Bytes) (d : Op)
    → IsOnce d.r.s
    → Kept 2 (control_ping e net me bs d)
unfolding control_ping
control_ping-Kept e net me bs d o =
    let c = is_close-write_ping e d.r.s.st pong d.fb (net.below.keys d.r.s.drawn) (inr refl) in
    on_if 2 (ltb 125 (length d.fb)) _ _ (λ y. asserts)
      (λ z.
        on_if 2 d.r.s.st.wr_close _ _ (λ y. goes refl refl (plain o))
          (λ z.
            on_if 2 (is_blocked d) _ _
              (λ y.
                on_if 2 (is_mine me d) _ _ (λ y. asserts)
                  (λ z. waits (o, λ e. cc, λ e. c, λ e. cc)))
              (λ z. goes refl refl (o, λ e. cc, λ e. c, λ e. cc))))

control_pong-Kept :
    (net : Net) (bs : Bytes) (d : Op) → IsOnce d.r.s → Kept 2 (control_pong net bs d)
unfolding control_pong
control_pong-Kept net bs d o =
    on_if 2 (ltb 125 (length d.fb)) _ _ (λ y. asserts)
      (λ z. goes refl refl (plain (called net.pong_cb)))
  where
    called :
        (b : Bool) → IsOnce (if b then record d.r { pongs = d.r.pongs ++ (d.fb ∷ []) } else d.r).s
    called true = o
    called false = o

control_close-Kept :
    (e : Endian) (net : Net) (bs : Bytes) (d : Op)
    → IsOnce d.r.s
    → Kept 2 (control_close e net bs d)
unfolding control_close
control_close-Kept e net bs d o = elim (Option-cases (read_close check_utf8 d.r.s.st.cr d.fb)) [
  | inl x ↦ rw (control_close, x) asserts
  | inr ((cr, code), x) ↦
      rw (control_close, x)
        (on_if 2 (not (code == code_none)) _ _ (λ y. goes refl refl (plain o))
          (λ z.
            on_if 2 d.r.s.st.wr_close _ _ (λ y. answers o)
              (λ w.
                on_if 2 (is_blocked d) _ _
                  (λ y. waits (o, λ i. is_close-write_close e _ _ _, λ i. cc, λ i. cc))
                  (λ y. goes refl refl (o, λ i. is_close-write_close e _ _ _, λ i. cc, λ i. w)))))
]

pub on_control-Kept :
    (e : Endian) (net : Net) (me : ℕ) (op : Opcode) (bs : Bytes) (d : Op)
    → IsOnce d.r.s
    → Kept 2 (on_control e net me op bs d)
unfolding on_control
on_control-Kept e net me ping bs d o = control_ping-Kept e net me bs d o
on_control-Kept e net me pong bs d o = control_pong-Kept net bs d o
on_control-Kept e net me close bs d o = control_close-Kept e net bs d o
on_control-Kept e net me _ bs d o = asserts
