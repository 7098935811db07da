-- ===== src/Websocket/ReadOp/Switch.antt =====
-- read_frame_op.ipp: the switch over the states, and the loop around it. `me` is the address of
-- the operation.
use beast.Base.{ℕ, zero, suc, true, if◌then◌else◌, Option, none, some, Bytes, []}
use beast.Websocket.Frame.{Endian}
use beast.Websocket.ReadOp.{
  OpState, do_start, do_read_payload, payload_read, do_frame_done, do_read_fh, fixed_read,
  rest_read, do_control_payload, do_control, do_pong_resume, pong_resumed, do_pong, pong_sent,
  do_close_resume, close_resumed, do_close, close_sent, close_torn, do_fail, fail_send, fail_parked,
  fail_resumed, fail_sent, fail_torn, do_call_handler, Op, read_some, read_all, async_teardown,
  post, Answer, is_closed, is_failed, is_aborted, no_error, Turn, go, wait, upcall, broken, at,
  with_st, set_block, release,
}
use beast.Websocket.ReadOp.Cases.{
  frame_done, on_payload, on_fixed, on_rest, unmask_control, on_control, block_and_write, on_pong,
  note_close, send_failure, on_fail, on_start, on_close_resumed,
}
use beast.Websocket.Reader.{Net}
use beast.Websocket.Types.{CloseCode, code_none}

-- The switch.
unfoldable pub switch : Endian → Net → ℕ → OpState → CloseCode → Bytes → Op → Turn
unfolding on_start on_payload frame_done on_fixed on_rest unmask_control on_control on_pong on_fail
    send_failure on_close_resumed block_and_write
switch e net me do_start code bs d = on_start bs d
switch e net me do_read_payload code bs d = wait (at payload_read d) (read_some d.r.s.st.rd_need)
switch e net me payload_read code bs d = on_payload bs d
switch e net me do_frame_done code bs d = frame_done d
switch e net me do_read_fh code bs d = wait (at fixed_read d) (read_all 2)
switch e net me fixed_read code bs d = on_fixed bs d
switch e net me rest_read code bs d = on_rest bs d
switch e net me do_control_payload code bs d = unmask_control bs d
switch e net me do_control code bs d = on_control e net me d.r.s.st.rd_fh.op bs d
switch e net me do_pong_resume code bs d = wait (at pong_resumed d) post
switch e net me pong_resumed code bs d =
    if d.r.s.st.failed then upcall d is_aborted else go (at do_pong d) code bs
switch e net me do_pong code bs d = on_pong me bs d
switch e net me pong_sent code bs d =
    go (record (set_block none d) { state = do_read_fh; fb = [] }) code bs
switch e net me do_close_resume code bs d = wait (at close_resumed d) post
switch e net me close_resumed code bs d = on_close_resumed bs d
switch e net me do_close code bs d = block_and_write me close_sent (note_close d)
switch e net me close_sent code bs d = wait (at close_torn d) async_teardown
switch e net me close_torn code bs d = upcall d is_closed
switch e net me do_fail code bs d = on_fail e net me code bs d
switch e net me fail_send code bs d = send_failure me d
switch e net me fail_parked code bs d = wait (at fail_resumed d) post
switch e net me fail_resumed code bs d =
    go (at (if d.r.s.st.failed then fail_torn else fail_send) d) code bs
switch e net me fail_sent code bs d = wait (at fail_torn d) async_teardown
switch e net me fail_torn code bs d = upcall d is_failed
switch e net me do_call_handler code bs d = upcall d no_error

-- The loop, on fuel for its rounds; behind it the write block is given back. `none` is that the
-- fuel has run out.
unfoldable pub run : Endian → Net → ℕ → ℕ → CloseCode → Bytes → Op → Option Turn
unfolding switch release
run e net me zero code bs d = none
run e net me (suc fuel) code bs d = elim (switch e net me d.state code bs d) [
  | go d' code' bs' ↦ run e net me fuel code' bs' d'
  | wait d' w ↦ some (wait d' w)
  | upcall d' a ↦ some (upcall (release me d') a)
  | broken ↦ some broken
]

-- The calls with an error code, which skip the loop, and without one; that of what reads, writes or
-- posts notes the error in `failed_`.
unfoldable pub resume : Endian → Net → ℕ → ℕ → Option Answer → Bytes → Op → Option Turn
unfolding run release
resume e net me fuel none bs d = run e net me fuel code_none bs d
resume e net me fuel (some ec) bs d = some (upcall (release me d) ec)

abbrev pub note_error : Option Answer → Op → Op
note_error none d = d
note_error (some ec) d = with_st (record d.r.s.st { failed = true }) d

unfoldable pub complete : Endian → Net → ℕ → ℕ → Option Answer → Bytes → Op → Option Turn
unfolding resume
complete e net me fuel ec bs d = resume e net me fuel ec bs (note_error ec d)
