-- ===== src/Websocket/Reader/Loop.antt =====
-- stream.ipp: `read_frame` and `read`, with `close`, `ping` and `reset`.
use beast.Base.{
  ℕ, zero, suc, ◌-◌, min, Bool, true, false, not, ◌&&◌, ltb, ◌==◌, if◌then◌else◌, Option, none,
  some, Bytes, [], ◌++◌, length, take, drop,
}
use beast.Websocket.Frame.{Endian}
use beast.Websocket.Stream.{send, draw}
use beast.Websocket.StreamBase.{CloseReason}
use beast.Websocket.StreamBase.Write.{masked, write_ping}
use beast.Websocket.Types.{Opcode, text, ping, is_control, code_none, code_bad_payload}
use beast.Websocket.Utf8.{Utf8Checker, write, finish}
use beast.Websocket.Reader.{
  Net, Reader, Outcome, info, error, Round, again, stop, broken, set_st, set_failed, read_failed,
  header, short, assertion, do_read_fh,
}
use beast.Websocket.Reader.Control.{send_close, fail_connection, read_control}

-- The UTF-8 check of a piece of a text message: the checker behind it, and whether it is passed.
unfoldable pub check_text : Bool → Bytes → Utf8Checker → Utf8Checker × Bool
check_text ends piece c =
    let w = write c piece in
    if w.1 then (if ends then finish w.0 else (w.0, true)) else (w.0, false)

abbrev pub is_text_op : Opcode → Bool
is_text_op text = true
is_text_op _ = false

-- `rd_need_` and the mask behind what `read_some` has given, and whether the message ends there.
abbrev pub unmask : Bytes → Reader → Bytes × ℕ
unmask bytes r = masked r.s.st.rd_fh.mask bytes r.s.st.rd_key

abbrev pub message_ends : Bytes → Reader → Bool
message_ends bytes r = (r.s.st.rd_need - length bytes) == 0 && r.s.st.rd_fh.fin

unfoldable pub check_payload : Bytes → Reader → Utf8Checker × Bool
unfolding check_text
check_payload bytes r =
    if is_text_op r.s.st.rd_opcode
    then check_text (message_ends bytes r) (unmask bytes r).0 r.utf8
    else (r.utf8, true)

unfoldable pub unmask_payload : Bytes → Reader → Reader
unfolding check_payload
unmask_payload bytes r =
    record (set_st
      (record r.s.st {
        failed = false;
        rd_need = r.s.st.rd_need - length bytes;
        rd_key = (unmask bytes r).1;
      })
      r) { utf8 = (check_payload bytes r).0 }

-- "read payload", with what `read_some` has given.
unfoldable pub take_payload : Endian → Net → Bytes → Reader → Round
unfolding check_payload unmask_payload fail_connection
take_payload e net bytes r =
    let r' = unmask_payload bytes r in
    if (check_payload bytes r).1
    then stop (record r' { buffer = r.buffer ++ (unmask bytes r).0 })
        (info r.s.st.rd_opcode (r.s.st.rd_fh.fin && r'.s.st.rd_need == 0))
    else fail_connection e net code_bad_payload r'

-- `read_some` into as many bytes as are needed; where none are it gives none.
unfoldable pub read_payload : Endian → Net → Reader → Round
unfolding take_payload
read_payload e net r =
    let n = min r.s.st.rd_need (suc (net.chunk r.reads)) in
    let r' = record r { input = drop n r.input; reads = suc r.reads } in
    if ltb 0 r.s.st.rd_need && length r.input == 0
    then read_failed (record r { reads = suc r.reads })
    else take_payload e net (take n r.input) r'

-- A round that starts with a header.
unfoldable pub read_header : Endian → Net → Reader → Round
unfolding do_read_fh read_control read_payload fail_connection
read_header e net r = elim (do_read_fh r) [
  | assertion ↦ broken
  | short r' ↦ read_failed r'
  | header r1 fb code ↦
      let r' = set_failed false r1 in
      if not (code == code_none)
      then fail_connection e net code r'
      else if is_control r'.s.st.rd_fh.op
      then read_control e net fb r'
      else if r'.s.st.rd_need == 0 && not r'.s.st.rd_fh.fin
      then again r'
      else read_payload e net r'
]

unfoldable pub round : Endian → Net → Reader → Round
unfolding read_header read_payload
round e net r = if r.s.st.rd_need == 0 then read_header e net r else read_payload e net r

-- `read_frame`, on fuel for its rounds. `none` is that the fuel has run out or an assertion fails.
unfoldable pub read_frame : Endian → Net → ℕ → Reader → Option (Reader × Outcome)
unfolding round
read_frame e net zero r = none
read_frame e net (suc fuel) r = elim (round e net r) [
  | again r' ↦ read_frame e net fuel r'
  | stop r' o ↦ some (r', o)
  | broken ↦ none
]

-- `read`: frames up to the final one or an error, each on fuel that is enough for it.
unfoldable pub read : Endian → Net → ℕ → Reader → Option (Reader × Outcome)
unfolding read_frame
read e net zero r = none
read e net (suc fuel) r = elim (read_frame e net (suc (length r.input)) r) [
  | none ↦ none
  | some (r', error ec) ↦ some (r', error ec)
  | some (r', info op true) ↦ some (r', info op true)
  | some (r', info op false) ↦ read e net fuel r'
]

-- `close`, behind its assertion that no close frame has been sent, `ping`, which leaves `failed_` as
-- it is, and `reset`, which drops what `stream_` has buffered.
unfoldable pub close_with : Endian → Net → CloseReason → Reader → Option Reader
unfolding send_close
close_with e net cr r =
    if r.s.st.wr_close then none else some (record r { s = send_close e net cr r.s })

unfoldable pub send_ping : Endian → Net → Bytes → Reader → Reader
send_ping e net payload r =
    let s =
      send net.below (write_ping e r.s.st [] ping payload (net.below.keys r.s.drawn)) (draw r.s) in
    set_failed r.s.st.failed (record r { s = s })

unfoldable pub reset_stream : ℕ → Reader → Reader
reset_stream buffered r =
    set_st
      (record r.s.st {
        failed = false;
        rd_need = 0;
        rd_cont = false;
        wr_close = false;
        wr = record r.s.st.wr { cont = false };
        wr_block = none;
        pong_data = none;
      })
      (record r { input = drop buffered r.input })
