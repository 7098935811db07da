-- ===== src/Websocket/ReadOp.antt =====
-- include/beast/websocket/impl/read_frame_op.ipp: the asynchronous read of a frame, a state machine
-- that is called when what it has started is done. The operations that it starts, and the bytes
-- that they give, are the environment's.
pub mod Cases
pub mod Switch
pub mod Rounds
pub mod Controls
pub mod Loop
use beast.Base.{
  ℕ, ◌≡◌, Bool, true, false, ◌==◌, if◌then◌else◌, Option, none, some, Bytes, [], ◌∷◌, ◌++◌,
}
use beast.Websocket.Reader.{Reader, set_st}
use beast.Websocket.StreamBase.{StreamBase}
use beast.Websocket.Types.{Opcode, CloseCode}

-- The values of `state`: `do_x` is that of the source, and the others are the numbers behind one.
pub data OpState : Type 0 where
  do_start do_read_payload payload_read do_frame_done do_read_fh fixed_read rest_read : OpState
  do_control_payload do_control do_pong_resume pong_resumed do_pong pong_sent : OpState
  do_close_resume close_resumed do_close close_sent close_torn : OpState
  do_fail fail_send fail_parked fail_resumed fail_sent fail_torn do_call_handler : OpState

-- The operation: its stream with the caller's buffer, `state`, and `fb`. `cont`, a hint to what
-- schedules it, is left out.
pub record Op : Type 0 where
  pub r : Reader
  pub state : OpState
  pub fb : Bytes

-- What it starts before it returns: reads, the write of `fb`, the teardown, a post of itself, or
-- its place in `rd_op_`, from which another operation resumes it.
pub data Wants : Type 0 where
  read_some read_all : ℕ → Wants
  write_fb async_teardown post post_aborted parked : Wants

-- What the handler is called with: `fi`, an error, or neither.
pub data Answer : Type 0 where
  frame_info : Opcode → Bool → Answer
  is_closed is_failed is_aborted no_error below_failed : Answer

-- How a case ends: `break`, with the close code and the bytes that the next case sees; `return`;
-- `goto upcall`; or a failed assertion. The upcall resumes an operation that waits in `wr_op_`, and
-- calls the handler: both are the environment's.
pub data Turn : Type 0 where
  go : Op → CloseCode → Bytes → Turn
  wait : Op → Wants → Turn
  upcall : Op → Answer → Turn
  broken : Turn

abbrev pub at : OpState → Op → Op
at state d = record d { state = state }

abbrev pub with_st : StreamBase → Op → Op
with_st st d = record d { r = set_st st d.r }

abbrev pub set_block : Option ℕ → Op → Op
set_block b d = with_st (record d.r.s.st { wr_block = b }) d

abbrev pub is_blocked : Op → Bool
is_blocked d = elim d.r.s.st.wr_block [ none ↦ false | some w ↦ true ]

-- `async_write` of `fb`: the bytes are with the stream below.
abbrev pub start_write : Op → Op
start_write d = record d {
  r = record d.r { s = record d.r.s { sent = d.r.s.sent ++ (d.fb ∷ []) } };
}

-- "upcall": the write block is given back.
unfoldable pub release : ℕ → Op → Op
release me d = elim d.r.s.st.wr_block [
  | none ↦ d
  | some w ↦ if w == me then set_block none d else d
]
