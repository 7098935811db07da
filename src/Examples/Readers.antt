-- ===== src/Examples/Readers.antt =====
-- A server that reads from the client of Examples/Streams, and text octets.
use beast.Base.{
  ◌≡◌, ◌↔◌, inl, refl, false, true, suc, some, Bytes, List, [], ◌∷◌, ◌++◌, length, flat, arith,
}
use beast.Examples.Frames.{boost, stream}
use beast.Examples.Streams.{works, broken, small, small-IsIdle, hello}
use beast.Websocket.Reader.{Net, Reader}
use beast.Websocket.Reader.Calls.{here, arrive, ping_one, Calls-IsOnce}
use beast.Websocket.Reader.Closes.{IsOnce}
use beast.Websocket.Reader.Loop.{read, send_ping}
use beast.Websocket.Reader.Message.{Received}
use beast.Websocket.Reader.RoundTrip.{Awaits, read-write_frame}
use beast.Websocket.Reader.Total.{Ended, read-Ended}
use beast.Websocket.Reader.WholeHeader.{with_input}
use beast.Websocket.Stream.{Stream, write_frame}
use beast.Websocket.Types.{text, server}
use beast.Websocket.Utf8.{reset_checker, write, write_buffers, check_utf8}
use beast.Websocket.Utf8.Check.{write_buffers-flat, check_utf8_iff}
use beast.Websocket.Utf8.Encode.{clean, write-encode}
use beast.Websocket.Utf8.Spec.{encode, IsUtf8, nothing, scalar}

-- A stream below that gives three bytes at a time, and one whose writes fail.
abbrev pub slow : Net
slow = record { below = works; chunk = λ i. 2; teardown_fails = false; pong_cb = true }

abbrev cut : Net
cut = record { below = broken; chunk = λ i. 0; teardown_fails = true; pong_cb = false }

abbrev pub listener : Reader
listener = record {
  s = record { st = record stream { role = server }; held = []; sent = []; drawn = 0 };
  utf8 = reset_checker;
  input = [];
  reads = 0;
  buffer = [];
  pongs = [];
  teardowns = 0;
}

hello-IsUtf8 : IsUtf8 hello
unfolding encode
hello-IsUtf8 = scalar b'h' _ (omega arith) refl (
    scalar b'e' _ (omega arith) refl (
      scalar b'l' _ (omega arith) refl
        (scalar b'l' _ (omega arith) refl (scalar b'o' _ (omega arith) refl nothing))))

listener-Awaits : Awaits listener small.st.role text hello
listener-Awaits = record {
  need_zero = refl;
  cont_false = refl;
  other_role = λ h. cc;
  utf8_reset = refl;
  is_data = inl refl;
  octets = omega arith;
  fits = omega arith;
  within_max = omega arith;
  text_valid = λ t. hello-IsUtf8;
}

read-write_frame_example :
    (t : Stream) × (writes : List Bytes) × (write_frame boost works true hello small ≡ some t)
    × (t.sent ≡ [] ++ writes)
    × Received
        (read boost slow
          (suc (length (flat writes ++ (1 ∷ 2 ∷ []))))
          (with_input listener (flat writes ++ (1 ∷ 2 ∷ []))))
        []
        []
        []
        text
        hello
        (1 ∷ 2 ∷ [])
read-write_frame_example =
    read-write_frame boost works slow small listener hello (1 ∷ 2 ∷ []) (λ i. refl)
      (λ i. omega arith) small-IsIdle listener-Awaits

-- A frame with a reserved bit, for which no close frame can be sent.
read-Ended_example :
    Ended listener.s (read boost cut 4 (with_input listener (0xc1 ∷ 0x80 ∷ 7 ∷ [])))
read-Ended_example =
    read-Ended boost cut 4 (with_input listener (0xc1 ∷ 0x80 ∷ 7 ∷ [])) (omega arith)

Calls-IsOnce_example : IsOnce (send_ping boost slow hello (with_input listener (0x81 ∷ []))).s
Calls-IsOnce_example =
    Calls-IsOnce boost slow {r = listener} (ping_one hello (arrive (0x81 ∷ []) here)) refl

-- A euro sign, and a surrogate.
check_utf8_iff_example :
    (check_utf8 (0xe2 ∷ 0x82 ∷ 0xac ∷ []) ≡ true) ↔ IsUtf8 (0xe2 ∷ 0x82 ∷ 0xac ∷ [])
check_utf8_iff_example = check_utf8_iff (0xe2 ∷ 0x82 ∷ 0xac ∷ []) (omega arith)

surrogate_refused : check_utf8 (0xed ∷ 0xa0 ∷ 0x80 ∷ []) ≡ false
unfolding check_utf8
surrogate_refused = refl

write-encode_example : write (clean 7) (encode 0x20ac ++ hello) ≡ write (clean 0x20ac) hello
write-encode_example = write-encode hello 0x20ac 7 (omega arith)

write_buffers-flat_example :
    write_buffers reset_checker ((0xe2 ∷ []) ∷ [] ∷ (0x82 ∷ 0xac ∷ []) ∷ [])
    ≡ write reset_checker (0xe2 ∷ 0x82 ∷ 0xac ∷ [])
write_buffers-flat_example =
    write_buffers-flat reset_checker ((0xe2 ∷ []) ∷ [] ∷ (0x82 ∷ 0xac ∷ []) ∷ [])
