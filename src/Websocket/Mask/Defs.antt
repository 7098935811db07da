-- ===== src/Websocket/Mask/Defs.antt =====
-- include/beast/websocket/detail/mask.hpp: masking a payload in place, with the 32-bit key and with
-- the doubled 64-bit key. A buffer is its bytes; the key is passed by reference, so each function
-- returns the masked bytes with the key it leaves behind.
use beast.Base.{ℕ, ◌-◌, ◌*◌, ◌/◌, ◌%◌, ◌^◌, bit_and, bit_or, bit_xor, Bytes, List, [], ◌∷◌}

-- `prepare_key` for `std::uint32_t` and for `std::uint64_t`.
unfoldable pub prepare_key32 : ℕ → ℕ
prepare_key32 key = key

unfoldable pub prepare_key64 : ℕ → ℕ
prepare_key64 key = bit_or (key * 2 ^ 32 % 2 ^ 64) key

-- `ror` on an unsigned integer of the given width.
unfoldable pub ror : ℕ → ℕ → ℕ → ℕ
ror bits t n = let n = bit_and n (bits - 1) in bit_or (t * 2 ^ (bits - n) % 2 ^ bits) (t / 2 ^ n)

-- `*p ^= k` on a `std::uint8_t`.
abbrev pub xor_byte : ℕ → ℕ → ℕ
xor_byte p k = bit_xor p k % 2 ^ 8

-- `mask_inplace_general` with a `std::uint32_t` key: whole words first, then the switch on the
-- bytes that are left, which rotates the key.
unfoldable pub mask_general32 : Bytes → ℕ → Bytes × ℕ
mask_general32 (a ∷ b ∷ c ∷ d ∷ bs) key =
    let (rest, key') = mask_general32 bs key in
    (
      xor_byte a key
          ∷ xor_byte b (key / 2 ^ 8)
          ∷ xor_byte c (key / 2 ^ 16)
          ∷ xor_byte d (key / 2 ^ 24)
          ∷ rest,
      key',
    )
mask_general32 (a ∷ b ∷ c ∷ []) key =
    (xor_byte a key ∷ xor_byte b (key / 2 ^ 8) ∷ xor_byte c (key / 2 ^ 16) ∷ [], ror 32 key 24)
mask_general32 (a ∷ b ∷ []) key = (xor_byte a key ∷ xor_byte b (key / 2 ^ 8) ∷ [], ror 32 key 16)
mask_general32 (a ∷ []) key = (xor_byte a key ∷ [], ror 32 key 8)
mask_general32 [] key = ([], key)

-- The same with a `std::uint64_t` key. The switch masks bytes 5 to 7 by the low half of the key.
unfoldable pub mask_general64 : Bytes → ℕ → Bytes × ℕ
mask_general64 (a ∷ b ∷ c ∷ d ∷ e ∷ f ∷ g ∷ h ∷ bs) key =
    let (rest, key') = mask_general64 bs key in
    (
      xor_byte a key
          ∷ xor_byte b (key / 2 ^ 8)
          ∷ xor_byte c (key / 2 ^ 16)
          ∷ xor_byte d (key / 2 ^ 24)
          ∷ xor_byte e (key / 2 ^ 32)
          ∷ xor_byte f (key / 2 ^ 40)
          ∷ xor_byte g (key / 2 ^ 48)
          ∷ xor_byte h (key / 2 ^ 56)
          ∷ rest,
      key',
    )
mask_general64 (a ∷ b ∷ c ∷ d ∷ e ∷ f ∷ g ∷ []) key = (
  xor_byte a key
      ∷ xor_byte b (key / 2 ^ 8)
      ∷ xor_byte c (key / 2 ^ 16)
      ∷ xor_byte d (key / 2 ^ 24)
      ∷ xor_byte e key
      ∷ xor_byte f (key / 2 ^ 8)
      ∷ xor_byte g (key / 2 ^ 16)
      ∷ [],
  ror 64 key 56,
)
mask_general64 (a ∷ b ∷ c ∷ d ∷ e ∷ f ∷ []) key = (
  xor_byte a key
      ∷ xor_byte b (key / 2 ^ 8)
      ∷ xor_byte c (key / 2 ^ 16)
      ∷ xor_byte d (key / 2 ^ 24)
      ∷ xor_byte e key
      ∷ xor_byte f (key / 2 ^ 8)
      ∷ [],
  ror 64 key 48,
)
mask_general64 (a ∷ b ∷ c ∷ d ∷ e ∷ []) key = (
  xor_byte a key
      ∷ xor_byte b (key / 2 ^ 8)
      ∷ xor_byte c (key / 2 ^ 16)
      ∷ xor_byte d (key / 2 ^ 24)
      ∷ xor_byte e key
      ∷ [],
  ror 64 key 40,
)
mask_general64 (a ∷ b ∷ c ∷ d ∷ []) key = (
  xor_byte a key
      ∷ xor_byte b (key / 2 ^ 8)
      ∷ xor_byte c (key / 2 ^ 16)
      ∷ xor_byte d (key / 2 ^ 24)
      ∷ [],
  ror 64 key 32,
)
mask_general64 (a ∷ b ∷ c ∷ []) key =
    (xor_byte a key ∷ xor_byte b (key / 2 ^ 8) ∷ xor_byte c (key / 2 ^ 16) ∷ [], ror 64 key 24)
mask_general64 (a ∷ b ∷ []) key = (xor_byte a key ∷ xor_byte b (key / 2 ^ 8) ∷ [], ror 64 key 16)
mask_general64 (a ∷ []) key = (xor_byte a key ∷ [], ror 64 key 8)
mask_general64 [] key = ([], key)

-- `mask_inplace` over a buffer sequence.
unfoldable pub mask_inplace64 : List Bytes → ℕ → List Bytes × ℕ
unfolding mask_general64
mask_inplace64 [] key = ([], key)
mask_inplace64 (b ∷ bs) key =
    let (b', key') = mask_general64 b key in
    let (bs', key'') = mask_inplace64 bs key' in (b' ∷ bs', key'')
