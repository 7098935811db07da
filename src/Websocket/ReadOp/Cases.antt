-- ===== src/Websocket/ReadOp/Cases.antt =====
-- read_frame_op.ipp: the cases of the switch. `me` is the address of the
-- operation.
use beast.Base.{
  ℕ, Bool, true, false, not, ◌&&◌, ltb, ◌==◌, if◌then◌else◌, none, some, Bytes, [], ◌∷◌, ◌++◌,
  length,
}
use beast.Websocket.Frame.{Endian}
use beast.Websocket.ReadOp.{
  OpState, do_read_payload, do_frame_done, do_read_fh, rest_read, do_control_payload, do_control,
  do_pong_resume, do_pong, pong_sent, do_close_resume, do_close, do_fail, fail_parked, fail_sent,
  do_call_handler, Op, read_all, write_fb, post_aborted, parked, frame_info, is_closed, is_aborted,
  Turn, go, wait, upcall, broken, at, with_st, set_block, is_blocked, start_write,
}
use beast.Websocket.Reader.{Net, set_st, set_failed}
use beast.Websocket.Reader.Loop.{unmask, check_payload, unmask_payload}
use beast.Websocket.Stream.{draw}
use beast.Websocket.StreamBase.{CloseReason, Step, read_fh1, read_fh2}
use beast.Websocket.StreamBase.Close.{read_close}
use beast.Websocket.StreamBase.Write.{masked, write_ping, write_close}
use beast.Websocket.Types.{
  Opcode, close, ping, pong, is_control, CloseCode, code_none, code_normal, code_bad_payload,
}
use beast.Websocket.Utf8.{check_utf8}

-- `fi` is set, and the handler is called.
unfoldable pub frame_done : Op → Turn
frame_done d =
    upcall d (frame_info d.r.s.st.rd_opcode (d.r.s.st.rd_fh.fin && d.r.s.st.rd_need == 0))

-- Payload is read until the frame has no more of it.
unfoldable pub on_payload : Bytes → Op → Turn
unfolding frame_done
on_payload bytes d =
    let r' = set_failed d.r.s.st.failed (unmask_payload bytes d.r) in
    let d' = record d { r = record r' { buffer = d.r.buffer ++ (unmask bytes d.r).0 } } in
    if not (check_payload bytes d.r).1
    then go (record d { r = r'; state = do_fail }) code_bad_payload bytes
    else if ltb 0 r'.s.st.rd_need
    then go (at do_read_payload d') code_none bytes
    else frame_done d'

-- `read_fh1` has left `t`.
unfoldable pub after_fixed : Bytes → Op → Step → Turn
after_fixed bytes d t =
    let d' = record d { r = set_st t.st d.r; fb = t.db } in
    if not (t.code == code_none)
    then go (at do_fail d') t.code bytes
    else if t.need == 0
    then go (at rest_read d') code_none []
    else wait (at rest_read d') (read_all t.need)

unfoldable pub on_fixed : Bytes → Op → Turn
unfolding after_fixed
on_fixed bytes d = elim (read_fh1 d.r.s.st (d.fb ++ bytes)) [
  | none ↦ broken
  | some t ↦ after_fixed bytes d t
]

-- `read_fh2` has left `t`.
unfoldable pub after_rest : Bytes → Op → Step → Turn
after_rest bytes d t =
    let d' = record d { r = set_st t.st d.r; fb = t.db } in
    if not (t.code == code_none)
    then go (at do_fail d') t.code bytes
    else if is_control t.st.rd_fh.op
    then (if ltb 0 t.st.rd_fh.len
        then wait (at do_control_payload d') (read_all t.st.rd_fh.len)
        else go (at do_control d') code_none bytes)
    else if ltb 0 t.st.rd_need
    then go (at do_read_payload d') code_none bytes
    else go (at do_frame_done d') code_none bytes

unfoldable pub on_rest : Bytes → Op → Turn
unfolding after_rest
on_rest bytes d = elim (read_fh2 d.r.s.st (d.fb ++ bytes)) [
  | none ↦ broken
  | some t ↦ after_rest bytes d t
]

unfoldable pub unmask_control : Bytes → Op → Turn
unmask_control bytes d =
    let m = masked d.r.s.st.rd_fh.mask bytes d.r.s.st.rd_key in
    go
      (record d {
        r = set_st (record d.r.s.st { rd_key = m.1 }) d.r;
        state = do_control;
        fb = d.fb ++ m.0;
      })
      code_none bytes

-- `wr_block_ == &d`
abbrev pub is_mine : ℕ → Op → Bool
is_mine me d = elim d.r.s.st.wr_block [ none ↦ false | some w ↦ w == me ]

-- A ping is answered unless a close frame has been sent.
unfoldable pub control_ping : Endian → Net → ℕ → Bytes → Op → Turn
control_ping e net me bytes d =
    let pong_frame = write_ping e d.r.s.st [] pong d.fb (net.below.keys d.r.s.drawn) in
    let d' = record d { r = record d.r { s = draw d.r.s }; fb = pong_frame } in
    if ltb 125 (length d.fb)
    then broken
    else if d.r.s.st.wr_close
    then go (record d { state = do_read_fh; fb = [] }) code_none bytes
    else if is_blocked d
    then (if is_mine me d then broken else wait (at do_pong_resume d') parked)
    else go (at do_pong d') code_none bytes

unfoldable pub control_pong : Net → Bytes → Op → Turn
control_pong net bytes d =
    let r' = record d.r { pongs = d.r.pongs ++ (d.fb ∷ []) } in
    if ltb 125 (length d.fb)
    then broken
    else go (record d { r = if net.pong_cb then r' else d.r; state = do_read_fh; fb = [] })
        code_none bytes

-- A close frame with the reason, written into `fb`.
abbrev pub with_close : Endian → Net → CloseReason → Op → Op
with_close e net cr d = record d {
  r = record d.r { s = draw d.r.s };
  fb = write_close e d.r.s.st [] cr (net.below.keys d.r.s.drawn);
}

unfoldable pub control_close : Endian → Net → Bytes → Op → Turn
control_close e net bytes d = elim (read_close check_utf8 d.r.s.st.cr d.fb) [
  | none ↦ broken
  | some (cr, code) ↦
      let d' = with_st (record d.r.s.st { cr = cr }) d in
      let reply : CloseReason = record {
        code = if cr.code == code_none then code_normal else cr.code;
        reason = [];
      } in
      let d'' = with_close e net reply d' in
      if not (code == code_none)
      then go (at do_fail d') code bytes
      else if d.r.s.st.wr_close
      then upcall d' is_closed
      else if is_blocked d
      then wait (at do_close_resume d'') parked
      else go (at do_close d'') code_none bytes
]

unfoldable pub on_control : Endian → Net → ℕ → Opcode → Bytes → Op → Turn
unfolding control_ping control_pong control_close
on_control e net me ping bytes d = control_ping e net me bytes d
on_control e net me pong bytes d = control_pong net bytes d
on_control e net me close bytes d = control_close e net bytes d
on_control e net me op bytes d = broken

-- `wr_block_` is taken, and `fb` written.
unfoldable pub block_and_write : ℕ → OpState → Op → Turn
block_and_write me next d =
    if is_blocked d then broken else wait (at next (start_write (set_block (some me) d))) write_fb

unfoldable pub on_pong : ℕ → Bytes → Op → Turn
unfolding block_and_write
on_pong me bytes d =
    if d.r.s.st.wr_close
    then go (record d { state = do_read_fh; fb = [] }) code_none bytes
    else block_and_write me pong_sent d

abbrev pub note_close : Op → Op
note_close d = with_st (record d.r.s.st { wr_close = true }) d

-- `do_fail + 1`
unfoldable pub send_failure : ℕ → Op → Turn
unfolding block_and_write
send_failure me d =
    block_and_write me fail_sent (note_close (with_st (record d.r.s.st { failed = true }) d))

unfoldable pub on_fail : Endian → Net → ℕ → CloseCode → Bytes → Op → Turn
unfolding send_failure
on_fail e net me code bytes d =
    let d' = with_close e net (record { code = code; reason = [] }) d in
    if d.r.s.st.wr_close
    then go (at fail_sent d) code bytes
    else if is_blocked d
    then wait (at fail_parked d') parked
    else send_failure me d'

unfoldable pub on_start : Bytes → Op → Turn
on_start bytes d =
    if d.r.s.st.failed
    then wait (at do_call_handler d) post_aborted
    else go (at (if ltb 0 d.r.s.st.rd_need then do_read_payload else do_read_fh) d) code_none bytes

unfoldable pub on_close_resumed : Bytes → Op → Turn
on_close_resumed bytes d =
    if d.r.s.st.failed
    then upcall (at do_call_handler d) is_aborted
    else if d.r.s.st.wr_close
    then upcall d is_closed
    else go (at do_close d) code_none bytes
