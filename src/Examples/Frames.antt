-- ===== src/Examples/Frames.antt =====
-- The theorems on frame headers at concrete headers.
use beast.Base.{
  inl, false, ℕ, ◌*◌, ◌+◌, ◌/◌, ◌%◌, ◌^◌, ◌≡◌, ◌<◌, ◌≤◌, ◌↔◌, ◌⊎◌, inr, refl, true, none, some, [],
  ◌∷◌, ◌++◌, length, arith,
}
use beast.Websocket.Frame.{Endian, write}
use beast.Websocket.StreamBase.{
  CloseReason, StreamBase, Step, parse_fixed, read_fh1, read_fh2, account, bad_opcode, bad_mask,
}
use beast.Websocket.StreamBase.Laws.{IsAdmitted, read_fh1_iff}
use beast.Websocket.StreamBase.Sizes.{
  Within, total, Reads, stop, more, data_length, account-data, message_size,
}
use beast.Websocket.StreamBase.RoundTrip.{IsWritable, read_fh2-read_fh1-write}
use beast.Websocket.StreamBase.Control.{
  ReadBack, ReadBack-write_ping, ReadBack-write_close, close_payload,
}
use beast.Websocket.StreamBase.Write.{write_close, control_header, write_ping}
use beast.Websocket.Types.{
  close, client, Opcode, text, cont, ping, is_control, code_none, code_protocol_error, code_too_big,
  server, FrameHeader,
}

abbrev pub boost : Endian
boost = record {
  big16 = λ v. v / 2 ^ 8 ∷ v % 2 ^ 8 ∷ [];
  big64 = λ v.
      v / 2 ^ 56
      ∷ v / 2 ^ 48 % 2 ^ 8
      ∷ v / 2 ^ 40 % 2 ^ 8
      ∷ v / 2 ^ 32 % 2 ^ 8
      ∷ v / 2 ^ 24 % 2 ^ 8
      ∷ v / 2 ^ 16 % 2 ^ 8
      ∷ v / 2 ^ 8 % 2 ^ 8
      ∷ v % 2 ^ 8
      ∷ [];
  big16_bytes = λ v h. refl;
  big64_bytes = λ v h. refl;
}

abbrev header : Opcode → ℕ → FrameHeader
header op len = record {
  op = op;
  fin = true;
  mask = true;
  rsv1 = false;
  rsv2 = false;
  rsv3 = false;
  len = len;
  key = 0x3d21fa37;
}

abbrev pub stream : StreamBase
stream = record {
  keep_alive = false;
  rd_msg_max = 16 * 1024 * 1024;
  wr_autofrag = true;
  wr_buf_size = 4096;
  wr_opcode = text;
  role = server;
  failed = false;
  rd_fh = header text 0;
  rd_key = 0;
  rd_size = 100;
  rd_need = 0;
  rd_opcode = text;
  rd_cont = false;
  wr_close = false;
  wr_block = none;
  pong_data = none;
  cr = record { code = code_none; reason = [] };
  wr = record { cont = false; autofrag = true; compress = false; size = 0; max = 4096; buf = none };
}

header-IsWritable : IsWritable (header text 300)
header-IsWritable = record { len_fits = omega arith; key_fits = omega arith; no_key = λ e. cc }

read_fh2-read_fh1-write_example :
    (s : Step) × (read_fh1 stream (write boost [] (header text 300) ++ 7 ∷ []) ≡ some s)
    × (s.code ≡ code_none)
    × (length s.db ≡ s.need + length {A = ℕ} (7 ∷ []))
    × (read_fh2 s.st s.db ≡ some (account stream (7 ∷ []) (header text 300)))
read_fh2-read_fh1-write_example =
    read_fh2-read_fh1-write boost stream (header text 300) (7 ∷ []) header-IsWritable
      (unfold bad_opcode in refl) (unfold bad_mask in refl)

read_fh1_iff_example :
    let fh = parse_fixed stream.rd_fh 0x81 0x85 in
    (s : Step) × (read_fh1 stream (0x81 ∷ 0x85 ∷ 1 ∷ []) ≡ some s)
    × (s.st ≡ record stream { rd_fh = fh })
    × (s.db ≡ 1 ∷ [])
    × ((s.code ≡ code_none) ↔ IsAdmitted server false fh)
    × ((s.code ≡ code_none) ⊎ ((s.code ≡ code_protocol_error) × (s.need ≡ 0)))
read_fh1_iff_example = read_fh1_iff stream 0x81 0x85 (1 ∷ [])

account-data_example :
    let s = account stream [] (header cont 50) in
    (Within stream (header cont 50)
      × (s.code ≡ code_none)
      × (s.st.rd_size ≡ total stream (header cont 50))
      × (s.st.rd_need ≡ 50)
      × (s.st.rd_cont ≡ false))
    ⊎ (¬ Within stream (header cont 50) × (s.code ≡ code_too_big))
account-data_example =
    account-data stream [] (header cont 50) (unfold is_control in refl) (omega arith) (omega arith)

two_frames :
    Reads stream
      (header text 50 ∷ header cont 20 ∷ [])
      (account (account stream [] (header text 50)).st [] (header cont 20)).st
unfolding account
two_frames = more refl (more refl stop)

message_size_example :
    let st' = (account (account stream [] (header text 50)).st [] (header cont 20)).st in
    (st'.rd_size ≡ data_length (header text 50 ∷ header cont 20 ∷ []))
    × (data_length (header text 50 ∷ header cont 20 ∷ []) < 2 ^ 64)
    × ((stream.rd_msg_max ≡ 0) ⊎ (st'.rd_size ≤ stream.rd_msg_max))
    × (st'.rd_opcode ≡ text)
message_size_example =
    message_size (header text 50) (header cont 20 ∷ []) (unfold is_control in refl) refl
      (omega arith) ((inr refl, omega arith), tt) two_frames

abbrev client_stream : StreamBase
client_stream = record stream { role = client }

ReadBack-write_ping_example :
    ReadBack stream
      (control_header client_stream ping 2 0x3d21fa37)
      (0x68 ∷ 0x69 ∷ [])
      (write_ping boost client_stream [] ping (0x68 ∷ 0x69 ∷ []) 0x3d21fa37)
ReadBack-write_ping_example =
    ReadBack-write_ping boost client_stream stream ping (0x68 ∷ 0x69 ∷ []) 0x3d21fa37 refl refl
      (inl refl) (omega arith) (omega arith) (omega arith)

abbrev going_away : CloseReason
going_away = record { code = 1001; reason = 0x62 ∷ 0x79 ∷ 0x65 ∷ [] }

ReadBack-write_close_example :
    ReadBack stream
      (control_header client_stream close (length (close_payload boost going_away)) 0x3d21fa37)
      (close_payload boost going_away)
      (write_close boost client_stream [] going_away 0x3d21fa37)
ReadBack-write_close_example =
    ReadBack-write_close boost client_stream stream going_away 0x3d21fa37 refl refl refl
      (omega arith) (omega arith) (omega arith)
