-- ===== src/Examples/ReadOps.antt =====
-- An operation that has read the close frame of its peer.
use beast.Base.{refl, ◌∷◌, [], arith}
use beast.Examples.Frames.{boost, stream}
use beast.Examples.Readers.{slow, listener}
use beast.Websocket.ReadOp.{Op, do_control}
use beast.Websocket.ReadOp.Loop.{Returned, run-Returned}
use beast.Websocket.ReadOp.Rounds.{false-true, plain}
use beast.Websocket.ReadOp.Switch.{run}
use beast.Websocket.Reader.{set_st}
use beast.Websocket.Types.{close, server, code_none}

abbrev close_read : Op
close_read = record {
  r = set_st (record stream { role = server; rd_fh = record stream.rd_fh { op = close } }) listener;
  state = do_control;
  fb = 0x03 ∷ 0xe8 ∷ [];
}

run-Returned_example : Returned (run boost slow 7 3 code_none [] close_read)
run-Returned_example =
    run-Returned boost slow 7 3 code_none [] close_read (omega arith) (plain refl)
      (λ q. absurd (false-true q))
