-- ===== src/Websocket/Mask/Refine.antt =====
-- Both masking loops implement the rotating key, whatever the length of the buffer.
use beast.Base.{
  ℕ, ◌+◌, ◌*◌, ◌/◌, ◌%◌, ◌^◌, ◌<◌, bit_or, bit_xor, bit_xor-mod, bit_or_fields, ◌≡◌, refl, Bytes,
  [], ◌∷◌, arith,
}
use beast.Websocket.Mask.Defs.{ror, xor_byte, mask_general32}
use beast.Websocket.Mask.Spec.{Key, IsKey, IsBytes, rotate, mask_with, key_after, pack32}

pub xor_byte_lem : (p w b : ℕ) → p < 256 → w % 2 ^ 8 ≡ b → xor_byte p w ≡ bit_xor p b
xor_byte_lem p w b h e = ground (arith, bit_xor-mod 8 p w)

pub or_of_parts : (k x q r : ℕ) → x ≡ q * 2 ^ k → r < 2 ^ k → bit_or x r ≡ q * 2 ^ k + r
or_of_parts k x q r e h = rw e (bit_or_fields k q r h)

ror32_8 : (t : ℕ) → t < 2 ^ 32 → ror 32 t 8 ≡ t % 2 ^ 8 * 2 ^ 24 + t / 2 ^ 8
unfolding ror
ror32_8 t h = or_of_parts 24 _ (t % 2 ^ 8) (t / 2 ^ 8) (omega arith) (omega arith)

ror32_16 : (t : ℕ) → t < 2 ^ 32 → ror 32 t 16 ≡ t % 2 ^ 16 * 2 ^ 16 + t / 2 ^ 16
unfolding ror
ror32_16 t h = or_of_parts 16 _ (t % 2 ^ 16) (t / 2 ^ 16) (omega arith) (omega arith)

ror32_24 : (t : ℕ) → t < 2 ^ 32 → ror 32 t 24 ≡ t % 2 ^ 24 * 2 ^ 8 + t / 2 ^ 24
unfolding ror
ror32_24 t h = or_of_parts 8 _ (t % 2 ^ 24) (t / 2 ^ 24) (omega arith) (omega arith)

module _ (k : Key) (h : IsKey k) where
  pack32-ror8 : ror 32 (pack32 k) 8 ≡ pack32 (rotate k)
  pack32-ror8 = omega (arith, ror32_8 (pack32 k) (omega arith))

  pack32-ror16 : ror 32 (pack32 k) 16 ≡ pack32 (rotate (rotate k))
  pack32-ror16 = omega (arith, ror32_16 (pack32 k) (omega arith))

  pack32-ror24 : ror 32 (pack32 k) 24 ≡ pack32 (rotate (rotate (rotate k)))
  pack32-ror24 = omega (arith, ror32_24 (pack32 k) (omega arith))

  byte0 : (p : ℕ) → p < 256 → xor_byte p (pack32 k) ≡ bit_xor p k.k0
  byte0 p fits = xor_byte_lem p _ k.k0 fits (omega arith)

  byte1 : (p : ℕ) → p < 256 → xor_byte p (pack32 k / 2 ^ 8) ≡ bit_xor p k.k1
  byte1 p fits = xor_byte_lem p _ k.k1 fits (omega arith)

  byte2 : (p : ℕ) → p < 256 → xor_byte p (pack32 k / 2 ^ 16) ≡ bit_xor p k.k2
  byte2 p fits = xor_byte_lem p _ k.k2 fits (omega arith)

  byte3 : (p : ℕ) → p < 256 → xor_byte p (pack32 k / 2 ^ 24) ≡ bit_xor p k.k3
  byte3 p fits = xor_byte_lem p _ k.k3 fits (omega arith)

-- Masking with the 32-bit key applies its bytes in turn and leaves the rotated key.
pub mask_general32-mask_with :
    (k : Key) (bs : Bytes)
    → IsKey k
    → IsBytes bs
    → mask_general32 bs (pack32 k) ≡ (mask_with k bs, pack32 (key_after k bs))
unfolding mask_general32
mask_general32-mask_with k [] h p = refl
mask_general32-mask_with k (a ∷ []) h p = rw (byte0 k h a p.0, pack32-ror8 k h)
mask_general32-mask_with k (a ∷ b ∷ []) h p =
    rw (byte0 k h a p.0, byte1 k h b p.1.0, pack32-ror16 k h)
mask_general32-mask_with k (a ∷ b ∷ c ∷ []) h p =
    rw (byte0 k h a p.0, byte1 k h b p.1.0, byte2 k h c p.1.1.0, pack32-ror24 k h)
mask_general32-mask_with k (a ∷ b ∷ c ∷ d ∷ bs) h p = rw (
  byte0 k h a p.0,
  byte1 k h b p.1.0,
  byte2 k h c p.1.1.0,
  byte3 k h d p.1.1.1.0,
  mask_general32-mask_with k bs h p.1.1.1.1,
)
