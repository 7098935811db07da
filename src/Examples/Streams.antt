-- ===== src/Examples/Streams.antt =====
-- A stream with a buffer of four bytes: messages that are fragmented, sent in chunks, and lost.
use beast.Base.{
  ◌≡◌, ◌⊎◌, inr, refl, Bool, true, false, some, Bytes, [], ◌∷◌, arith, ltb, if◌then◌else◌,
}
use beast.Examples.Frames.{boost, stream}
use beast.Websocket.StreamBase.{CloseReason}
use beast.Websocket.StreamBase.Control.{close_payload}
use beast.Websocket.StreamBase.Close.{
  read_close, IsAccepted, IsRejected, read_close-outcome, read_close-close_payload,
}
use beast.Websocket.Stream.{Below, Stream, data_header, frame, write_masked, write_frame}
use beast.Websocket.Stream.Fragments.{Finished}
use beast.Websocket.Stream.Message.{
  IsIdle, started, Failed, write_frame-Finished, write_frame-lost, write_frame-Failed,
}
use beast.Websocket.Stream.Chunks.{Wrote, write_masked-Wrote}
use beast.Websocket.Types.{client, text, code_none, code_protocol_error, CloseCode, is_valid_code}

-- A stream below that never fails, and one whose first write does.
abbrev pub works : Below
works = record { fails = λ i. false; keys = λ i. 0x3d21fa37 }

abbrev pub broken : Below
broken = record { fails = λ i. true; keys = λ i. 0 }

abbrev pub small : Stream
small = record {
  st = record stream { wr_buf_size = 4; role = client };
  held = [];
  sent = [];
  drawn = 0;
}

pub small-IsIdle : IsIdle small
small-IsIdle = record { autofrag = refl; not_cont = refl; buf_size-positive = omega arith }

abbrev pub hello : Bytes
hello = b'h' ∷ b'e' ∷ b'l' ∷ b'l' ∷ b'o' ∷ []

write_frame-Finished_example :
    Finished boost works text hello (started small) (write_frame boost works true hello small)
write_frame-Finished_example = write_frame-Finished boost works hello small (λ i. refl) small-IsIdle

-- `hi` is lost.
write_frame-lost_example :
    (t : Stream) × (write_frame boost works false (b'h' ∷ b'i' ∷ []) small ≡ some t)
    × (t.sent ≡ [])
    × Finished boost works t.st.wr_opcode hello (started t) (write_frame boost works true hello t)
write_frame-lost_example =
    write_frame-lost boost works (b'h' ∷ b'i' ∷ []) hello small (λ i. refl) small-IsIdle
      (omega arith)

write_frame-Failed_example : Failed (started small) (write_frame boost broken true hello small)
write_frame-Failed_example = write_frame-Failed boost broken hello small small-IsIdle refl

abbrev chunked : Stream
chunked = record small { st = record small.st { wr = record small.st.wr { max = 4 } } }

write_masked-Wrote_example :
    Wrote
      (frame boost (data_header client text true 5 0x3d21fa37) hello)
      chunked
      (write_masked boost works (data_header client text true 5 0x3d21fa37) hello chunked)
write_masked-Wrote_example =
    write_masked-Wrote boost works (data_header client text true 5 0x3d21fa37) hello chunked
      (λ i. refl) (omega arith) (omega arith) (omega arith) refl

-- Text of ASCII characters.
abbrev ascii : Bytes → Bool
ascii [] = true
ascii (c ∷ cs) = if ltb c 128 then ascii cs else false

abbrev bye : CloseReason
bye = record { code = 1000; reason = b'b' ∷ b'y' ∷ b'e' ∷ [] }

abbrev no_reason : CloseReason
no_reason = record { code = code_none; reason = [] }

read_close-close_payload_example :
    read_close ascii no_reason (close_payload boost bye) ≡ some (bye, code_none)
unfolding is_valid_code
read_close-close_payload_example =
    read_close-close_payload boost ascii no_reason bye (omega arith) refl (omega arith) (inr refl)

read_close-outcome_example :
    (r : CloseReason × CloseCode) × (read_close ascii no_reason (3 ∷ 238 ∷ 200 ∷ []) ≡ some r)
    × (((r.1 ≡ code_none) × IsAccepted ascii (3 ∷ 238 ∷ 200 ∷ []) r.0)
        ⊎ ((r.1 ≡ code_protocol_error) × IsRejected ascii (3 ∷ 238 ∷ 200 ∷ [])))
read_close-outcome_example = read_close-outcome ascii no_reason (3 ∷ 238 ∷ 200 ∷ []) (omega arith)
