-- ===== src/Websocket/Frame.antt =====
-- include/beast/websocket/detail/frame.hpp `write` and detail/endian.hpp: the frame header on the
-- wire. A dynamic buffer is the list of its readable bytes: `prepare` and `commit` append to it.
use beast.Base.{
  ℕ, ◌+◌, ◌*◌, ◌/◌, ◌%◌, ◌^◌, ◌<◌, bit_and, bit_or, ◌≡◌, leb, if◌then◌else◌, Bytes, [], ◌∷◌, ◌++◌,
}
use beast.Websocket.Types.{FrameHeader, op_code}

-- The integer buffers of Boost.Endian, which the code stores through. Their documented behaviour
-- is the byte order.
pub record Endian : Type 0 where
  pub big16 : ℕ → Bytes
  pub big64 : ℕ → Bytes
  pub big16_bytes : (v : ℕ) → v < 2 ^ 16 → big16 v ≡ v / 2 ^ 8 ∷ v % 2 ^ 8 ∷ []
  pub big64_bytes :
      (v : ℕ)
      → v < 2 ^ 64
      → big64 v
        ≡ v / 2 ^ 56
          ∷ v / 2 ^ 48 % 2 ^ 8
          ∷ v / 2 ^ 40 % 2 ^ 8
          ∷ v / 2 ^ 32 % 2 ^ 8
          ∷ v / 2 ^ 24 % 2 ^ 8
          ∷ v / 2 ^ 16 % 2 ^ 8
          ∷ v / 2 ^ 8 % 2 ^ 8
          ∷ v % 2 ^ 8
          ∷ []

unfoldable pub big_uint16_to_native : ℕ → ℕ → ℕ
big_uint16_to_native p0 p1 = (p0 * 2 ^ 8 + p1) % 2 ^ 16

unfoldable pub big_uint64_to_native : ℕ → ℕ → ℕ → ℕ → ℕ → ℕ → ℕ → ℕ → ℕ
big_uint64_to_native p0 p1 p2 p3 p4 p5 p6 p7 =
    (p0 * 2 ^ 56
      + p1 * 2 ^ 48
      + p2 * 2 ^ 40
      + p3 * 2 ^ 32
      + p4 * 2 ^ 24
      + p5 * 2 ^ 16
      + p6 * 2 ^ 8
      + p7)
    % 2 ^ 64

unfoldable pub little_uint32_to_native : ℕ → ℕ → ℕ → ℕ → ℕ
little_uint32_to_native p0 p1 p2 p3 = (p0 + p1 * 2 ^ 8 + p2 * 2 ^ 16 + p3 * 2 ^ 24) % 2 ^ 32

-- `x & 0xff` on a value of any width.
abbrev low_byte : ℕ → ℕ
low_byte x = bit_and x 0xff

unfoldable pub native_to_little_uint32 : ℕ → Bytes
native_to_little_uint32 v =
    low_byte v ∷ low_byte (v / 2 ^ 8) ∷ low_byte (v / 2 ^ 16) ∷ low_byte (v / 2 ^ 24) ∷ []

-- `b[0]`: the final flag, the opcode and the reserved bits.
unfoldable pub first_byte : FrameHeader → ℕ
unfolding op_code
first_byte fh =
    let b = bit_or (if fh.fin then 0x80 else 0x00) (op_code fh.op) in
    let b = if fh.rsv1 then bit_or b 0x40 else b in
    let b = if fh.rsv2 then bit_or b 0x20 else b in if fh.rsv3 then bit_or b 0x10 else b

module _ (e : Endian) where
  -- `b[1]` and the extended length.
  unfoldable pub length_bytes : FrameHeader → Bytes
  length_bytes fh =
      let b = if fh.mask then 0x80 else 0x00 in
      if leb fh.len 125
      then bit_or b fh.len % 2 ^ 8 ∷ []
      else if leb fh.len 65535
      then bit_or b 126 ∷ e.big16 (fh.len % 2 ^ 16)
      else bit_or b 127 ∷ e.big64 fh.len

  -- `write(db, fh)`
  unfoldable pub write : Bytes → FrameHeader → Bytes
  unfolding first_byte length_bytes native_to_little_uint32
  write db fh =
      db
      ++ (first_byte fh
          ∷ (length_bytes fh ++ (if fh.mask then native_to_little_uint32 fh.key else [])))
