-- ===== src/Websocket/ReadOp/Loop.antt =====
-- The loop of read_frame_op.ipp: what a whole call keeps.
use beast.Base.{
  ℕ, zero, suc, ◌<◌, ◌≡◌, inl, inr, refl, sym, ap, Bool, true, false, ltb, ◌==◌, if◌then◌else◌,
  Option, Option-cases, none, some, Bytes, arith,
}
use beast.Websocket.Frame.{Endian}
use beast.Websocket.ReadOp.{
  OpState, do_start, do_read_payload, payload_read, do_frame_done, do_read_fh, fixed_read,
  rest_read, do_control_payload, do_control, do_pong_resume, pong_resumed, do_pong, pong_sent,
  do_close_resume, close_resumed, do_close, close_sent, close_torn, do_fail, fail_send, fail_parked,
  fail_resumed, fail_sent, fail_torn, do_call_handler, Op, Wants, write_fb, Answer, Turn, go, wait,
  upcall, broken, set_block, release, at, with_st, start_write,
}
use beast.Websocket.ReadOp.Cases.{
  frame_done, unmask_control, on_start, send_failure, block_and_write, note_close, on_close_resumed,
}
use beast.Websocket.ReadOp.Switch.{switch, run}
use beast.Websocket.ReadOp.Controls.{
  do_close-Kept, on_pong-Kept, on_fail-Kept, send_failure-Kept, on_control-Kept,
}
use beast.Websocket.ReadOp.Rounds.{
  rank, Inv, Kept, goes, waits, answers, asserts, on_if, plain, is_resumed, on_payload-Kept,
  on_fixed-Kept, on_rest-Kept, false-true,
}
use beast.Websocket.Reader.{Net}
use beast.Websocket.Reader.Closes.{closes, is_close, IsOnce, closes-append}
use beast.Websocket.Types.{CloseCode}

abbrev in_state : OpState → Op → Op
in_state s d = record d { state = s }

-- What `do_fail + 3` does not test.
abbrev pub Unclosed : Op → Type 0
Unclosed d = is_resumed d.state ≡ true → d.r.s.st.wr_close ≡ false

on_start-Kept : (bs : Bytes) (d : Op) → IsOnce d.r.s → Kept 1 (on_start bs d)
unfolding on_start
on_start-Kept bs d o =
    on_if 1 d.r.s.st.failed _ _ (λ y. waits (plain o)) (λ z. next (ltb 0 d.r.s.st.rd_need))
  where
    next : (b : Bool) → Kept 1 (go (in_state (if b then do_read_payload else do_read_fh) d) 0 bs)
    next true = goes refl refl (plain o)
    next false = goes refl refl (plain o)

on_close_resumed-Kept :
    (bs : Bytes) (d : Op) → is_close d.fb ≡ true → IsOnce d.r.s → Kept 1 (on_close_resumed bs d)
unfolding on_close_resumed
on_close_resumed-Kept bs d c o =
    on_if 1 d.r.s.st.failed _ _ (λ y. answers o)
      (λ z.
        on_if 1 d.r.s.st.wr_close _ _ (λ y. answers o)
          (λ w. goes refl refl (o, λ i. c, λ i. absurd (false-true i), λ i. w)))

fail_resumed-Kept :
    (code : CloseCode) (bs : Bytes) (d : Op) (b : Bool)
    → is_close d.fb ≡ true
    → d.r.s.st.wr_close ≡ false
    → IsOnce d.r.s
    → Kept 1 (go (in_state (if b then fail_torn else fail_send) d) code bs)
fail_resumed-Kept code bs d true c w o = goes refl refl (plain o)
fail_resumed-Kept code bs d false c w o =
    goes refl refl (o, λ i. c, λ i. absurd (false-true i), λ i. w)

-- A round keeps what holds, in every state.
switch-Kept :
    (e : Endian) (net : Net) (me : ℕ) (s : OpState) (code : CloseCode) (bs : Bytes) (d : Op)
    → Inv (in_state s d)
    → Unclosed (in_state s d)
    → Kept (rank s) (switch e net me s code bs (in_state s d))
unfolding switch unmask_control frame_done
switch-Kept e net me do_start code bs d i u = on_start-Kept bs (in_state do_start d) i.0
switch-Kept e net me do_read_payload code bs d i u = waits (plain i.0)
switch-Kept e net me payload_read code bs d i u = on_payload-Kept bs (in_state payload_read d) i.0
switch-Kept e net me do_frame_done code bs d i u = answers i.0
switch-Kept e net me do_read_fh code bs d i u = waits (plain i.0)
switch-Kept e net me fixed_read code bs d i u = on_fixed-Kept bs (in_state fixed_read d) i.0
switch-Kept e net me rest_read code bs d i u = on_rest-Kept bs (in_state rest_read d) i.0
switch-Kept e net me do_control_payload code bs d i u = goes refl refl (plain i.0)
switch-Kept e net me do_control code bs d i u =
    on_control-Kept e net me d.r.s.st.rd_fh.op bs (in_state do_control d) i.0
switch-Kept e net me do_pong_resume code bs d i u =
    waits (i.0, λ h. absurd (false-true h), λ h. i.2 refl, λ h. absurd (false-true h))
switch-Kept e net me pong_resumed code bs d i u =
    on_if 2 d.r.s.st.failed _ _ (λ y. answers i.0)
      (λ z.
        goes refl refl (i.0, λ h. absurd (false-true h), λ h. i.2 refl, λ h. absurd (false-true h)))
switch-Kept e net me do_pong code bs d i u = on_pong-Kept me bs (in_state do_pong d) (i.2 refl) i.0
switch-Kept e net me pong_sent code bs d i u = goes refl refl (plain i.0)
switch-Kept e net me do_close_resume code bs d i u =
    waits (i.0, λ h. i.1 refl, λ h. absurd (false-true h), λ h. absurd (false-true h))
switch-Kept e net me close_resumed code bs d i u =
    on_close_resumed-Kept bs (in_state close_resumed d) (i.1 refl) i.0
switch-Kept e net me do_close code bs d i u =
    do_close-Kept me (in_state do_close d) (i.1 refl) (i.3 refl) i.0
switch-Kept e net me close_sent code bs d i u = waits (plain i.0)
switch-Kept e net me close_torn code bs d i u = answers i.0
switch-Kept e net me do_fail code bs d i u = on_fail-Kept e net me code bs (in_state do_fail d) i.0
switch-Kept e net me fail_send code bs d i u =
    send_failure-Kept 0 me (in_state fail_send d) (i.1 refl) (i.3 refl) i.0
switch-Kept e net me fail_parked code bs d i u =
    waits (i.0, λ h. i.1 refl, λ h. absurd (false-true h), λ h. absurd (false-true h))
switch-Kept e net me fail_resumed code bs d i u =
    fail_resumed-Kept code bs (in_state fail_resumed d) d.r.s.st.failed (i.1 refl) (u refl) i.0
switch-Kept e net me fail_sent code bs d i u = waits (plain i.0)
switch-Kept e net me fail_torn code bs d i u = answers i.0
switch-Kept e net me do_call_handler code bs d i u = answers i.0

-- What a call leaves: an operation that waits keeps what holds, and one that is done has written at
-- most one close frame.
pub data Returned : Option Turn → Type 0 where
  waiting : {d : Op} {w : Wants} → Inv d → Returned (some (wait d w))
  called : {d : Op} {a : Answer} → IsOnce d.r.s → Returned (some (upcall d a))
  asserted : Returned (some broken)

release-IsOnce : (me : ℕ) (d : Op) → IsOnce d.r.s → IsOnce (release me d).r.s
unfolding release
release-IsOnce me d o = elim (Option-cases d.r.s.st.wr_block) [
  | inl e ↦ rw (release, e) o
  | inr (w, e) ↦ rw (release, e) (once (w == me))
]
  where
    once : (b : Bool) → IsOnce (if b then set_block none d else d).r.s
    once true = o
    once false = o

false_not_true : (b : Bool) → b ≡ false → b ≡ true → ⊥
false_not_true true e h = false-true (sym e)
false_not_true false e h = false-true h

ltb_lt : (a b : ℕ) → ltb a b ≡ true → a < b
ltb_lt a b h = ground (arith, h)

abbrev pub sent_failure : ℕ → Op → Op
sent_failure me d =
    at fail_sent (
      start_write
        (set_block (some me) (note_close (with_st (record d.r.s.st { failed = true }) d))))

module _ (e : Endian) (net : Net) (me : ℕ) where
  -- What the loop does behind a round.
  abbrev behind_round : ℕ → Turn → Option Turn
  behind_round fuel (go d code bs) = run e net me fuel code bs d
  behind_round fuel (wait d w) = some (wait d w)
  behind_round fuel (upcall d a) = some (upcall (release me d) a)
  behind_round fuel broken = some broken

  turn_cases :
      (n fuel : ℕ) (t : Turn)
      → Kept n t
      → ((code : CloseCode) (bs : Bytes) (d : Op)
          → rank d.state < n
          → Inv d
          → Unclosed d
          → Returned (run e net me fuel code bs d))
      → Returned (behind_round fuel t)
  turn_cases n fuel (go d code bs) (goes lt p i) f =
      f code bs d (ltb_lt (rank d.state) n lt) i
        (λ q. absurd (false_not_true (is_resumed d.state) p q))
  turn_cases n fuel (wait d w) (waits i) f = waiting i
  turn_cases n fuel (upcall d a) (answers o) f = called (release-IsOnce me d o)
  turn_cases n fuel broken asserts f = asserted

  -- For an operation with which what is kept between two rounds holds: as many close frames are
  -- written as `wr_close_` notes, `fb` holds a close frame where one is to be written, and none
  -- where a pong is to be, and `wr_close_` is clear where a close frame is written at once; and
  -- where it is resumed to send a failure, `wr_close_` is clear. Then a call of it, with more
  -- rounds than the rank of its state, which is at most 4, returns, whatever the bytes that it is
  -- given: it waits, and all of that but the last holds of it again; or it calls its handler, and
  -- as many close frames are written as `wr_close_` notes, which is at most one; or it fails an
  -- assertion.
  pub run-Returned :
      (fuel : ℕ) (code : CloseCode) (bs : Bytes) (d : Op)
      → rank d.state < fuel
      → Inv d
      → Unclosed d
      → Returned (run e net me fuel code bs d)
  unfolding run
  run-Returned zero code bs d lt i u = absurd (omega (arith, lt))
  run-Returned (suc fuel) code bs d lt i u =
      turn_cases (rank d.state) fuel (switch e net me d.state code bs d)
        (switch-Kept e net me d.state code bs d i u)
        (λ code' bs' d' lt'. run-Returned fuel code' bs' d' (omega (arith, lt, lt')))

  failure_write :
      (d : Op) → d.r.s.st.wr_block ≡ none → send_failure me d ≡ wait (sent_failure me d) write_fb
  unfolding send_failure block_and_write
  failure_write d b = rw b refl

  -- An operation that is resumed to send its failure does not look whether a close frame has been
  -- sent since it was parked: where nothing has failed and no write is under way, it starts the
  -- write of its own close frame, be `wr_close_` set or not.
  pub resumed_failure-closes :
      (fuel : ℕ) (code : CloseCode) (bs : Bytes) (d : Op)
      → d.r.s.st.failed ≡ false
      → d.r.s.st.wr_block ≡ none
      → is_close d.fb ≡ true
      → (run e net me (suc (suc fuel)) code bs (at fail_resumed d)
          ≡ some (wait (sent_failure me d) write_fb))
        × closes (sent_failure me d).r.s.sent ≡ suc (closes d.r.s.sent)
  unfolding run switch
  resumed_failure-closes fuel code bs d f b c =
      (sends d.r.s.st.failed f, omega (arith, closes-append d.r.s.sent d.fb, one (is_close d.fb) c))
    where
      sends :
          (failed : Bool)
          → failed ≡ false
          → behind_round
              (suc fuel)
              (go (in_state (if failed then fail_torn else fail_send) d) code bs)
            ≡ some (wait (sent_failure me d) write_fb)
      sends true h = absurd (false-true (sym h))
      sends false h = ap (behind_round fuel) (failure_write (in_state fail_send d) b)

      one : (c : Bool) → c ≡ true → ◌≡◌ {A = ℕ} (if c then 1 else 0) 1
      one true h = refl
      one false h = absurd (false-true h)
