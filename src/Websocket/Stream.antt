-- ===== src/Websocket/Stream.antt =====
-- include/beast/websocket/impl/stream.ipp: the blocking writes of a stream. What the stream below
-- does is a parameter: whether its i-th write fails. So is the i-th mask key. The bytes that each
-- `boost::asio::write` is given are kept in order.
pub mod Fragments
pub mod Message
pub mod Chunks
use beast.Base.{
  ℕ, zero, suc, ◌+◌, ◌-◌, min, Bool, true, false, not, ◌&&◌, ltb, ◌==◌, if◌then◌else◌, Option, none,
  some, Bytes, List, [], ◌∷◌, ◌++◌, length, take, drop,
}
use beast.Websocket.Frame.{Endian, write}
use beast.Websocket.Mask.Defs.{prepare_key64}
use beast.Websocket.StreamBase.{StreamBase}
use beast.Websocket.StreamBase.Write.{is_client, masked, wr_prepare}
use beast.Websocket.Types.{Opcode, cont, Role, FrameHeader}

-- The stream below, and the mask generator.
pub record Below : Type 0 where
  pub fails : ℕ → Bool
  pub keys : ℕ → ℕ

-- A stream: `held` is what `wr_.buf` holds up to `wr_.size`, `sent` the writes so far, and `drawn`
-- counts the keys taken.
pub record Stream : Type 0 where
  pub st : StreamBase
  pub held : Bytes
  pub sent : List Bytes
  pub drawn : ℕ

-- `boost::asio::write` with what `failed_` is set to.
unfoldable pub send : Below → Bytes → Stream → Stream
send b bs s = record s {
  st = record s.st { failed = b.fails (length s.sent) };
  sent = s.sent ++ (bs ∷ []);
}

-- The header of a data frame; where nothing is masked the key is not read.
abbrev pub data_header : Role → Opcode → Bool → ℕ → ℕ → FrameHeader
data_header role op fin len key = record {
  op = op;
  fin = fin;
  mask = is_client role;
  rsv1 = false;
  rsv2 = false;
  rsv3 = false;
  len = len;
  key = key;
}

-- A frame: its header, and its payload masked where the header says so.
unfoldable pub frame : Endian → FrameHeader → Bytes → Bytes
frame e fh payload = write e [] fh ++ (masked fh.mask payload (prepare_key64 fh.key)).0

abbrev pub set_cont : Bool → Stream → Stream
set_cont c s = record s { st = record s.st { wr = record s.st.wr { cont = c } } }

-- `wr_.size` and the bytes up to it.
abbrev pub set_held : Bytes → Stream → Stream
set_held bs s = record s {
  st = record s.st { wr = record s.st.wr { size = length bs } };
  held = bs;
}

-- The key of the next frame, which is drawn where the frame is masked.
abbrev pub draw : Stream → Stream
draw s = record s { drawn = if is_client s.st.role then suc s.drawn else s.drawn }

-- A round of the loop that fragments: the frame of what is held and of `n` bytes more.
unfoldable pub send_fragment : Endian → Below → Bool → Opcode → Bytes → Stream → Stream
unfolding send frame
send_fragment e b fin op mb s =
    send b (frame e (data_header s.st.role op fin (length mb) (b.keys s.drawn)) mb) (draw s)

-- The loop of `write_frame` for `wr_.autofrag`, on fuel, with what is left of the buffers; `none` is
-- that the fuel has run out. The error code is `failed_`.
unfoldable pub fragment : Endian → Below → ℕ → Bool → Opcode → Bytes → Stream → Option Stream
unfolding send_fragment
fragment e b zero fin op cb s = none
fragment e b (suc fuel) fin op cb s =
    let room = s.st.wr.max - s.st.wr.size in
    let n = min (length cb) room in
    let mb = s.held ++ take n cb in
    let fin' = fin && (n == length cb) in
    let s' = send_fragment e b fin' op mb s in
    let s'' = set_held [] s' in
    let rest = fragment e b fuel fin cont (drop n cb) s'' in
    if not fin && ltb (length cb) room
    then some (set_held (s.held ++ cb) s)
    else if s'.st.failed
    then some (record s' {
      held = take s.st.wr.size (masked (is_client s.st.role) mb (prepare_key64 (b.keys s.drawn))).0;
    })
    else if ltb 0 (length (drop n cb))
    then rest
    else some (set_cont (not fin') s'')

-- The loop for a masked frame that is not fragmented: chunks of the payload through the buffer, on
-- fuel, with the key as it turns.
unfoldable pub send_chunks : Below → ℕ → ℕ → Bytes → Stream → Option Stream
unfolding send
send_chunks b zero key cb s = none
send_chunks b (suc fuel) key [] s = some s
send_chunks b (suc fuel) key (c ∷ cs) s =
    let n = min (length (c ∷ cs)) s.st.wr.max in
    let chunk = masked true (take n (c ∷ cs)) key in
    let s' = send b chunk.0 s in
    let rest = send_chunks b fuel chunk.1 (drop n (c ∷ cs)) s' in
    if s'.st.failed then some s' else rest

-- `if(! wr_.cont) wr_prepare(compress)`, where `compress` is `false`.
unfoldable pub prepare_write : Stream → Stream
unfolding wr_prepare
prepare_write s = if s.st.wr.cont then s else record s { st = wr_prepare s.st false; held = [] }

-- A frame that is masked and not fragmented.
unfoldable pub write_masked : Endian → Below → FrameHeader → Bytes → Stream → Option Stream
unfolding send_chunks send
write_masked e b fh bs s =
    let n = min (length bs) s.st.wr.max in
    let chunk = masked true (take n bs) (prepare_key64 fh.key) in
    let s' = send b (write e [] fh ++ chunk.0) (set_cont (not fh.fin) (draw s)) in
    let rest = send_chunks b (suc (length bs)) chunk.1 (drop n bs) s' in
    if s'.st.failed then some s' else rest

-- A frame that is neither.
unfoldable pub write_plain : Endian → Below → FrameHeader → Bytes → Stream → Option Stream
unfolding send
write_plain e b fh bs s = some (send b (write e [] fh ++ bs) (set_cont (not fh.fin) s))

-- `write_frame` behind `wr_prepare`.
unfoldable pub write_prepared : Endian → Below → Bool → Bytes → Stream → Option Stream
unfolding fragment write_masked write_plain
write_prepared e b fin bs s =
    let op = if s.st.wr.cont then cont else s.st.wr_opcode in
    let fh = data_header s.st.role op fin (length bs) (b.keys s.drawn) in
    if s.st.wr.autofrag
    then fragment e b (suc (suc (length bs))) fin op bs s
    else if is_client s.st.role
    then write_masked e b fh bs s
    else write_plain e b fh bs s

unfoldable pub write_frame : Endian → Below → Bool → Bytes → Stream → Option Stream
unfolding prepare_write write_prepared
write_frame e b fin bs s = write_prepared e b fin bs (prepare_write s)
