-- ===== src/Websocket/Mask/Refine64.antt =====
-- The loop over the doubled 64-bit key does what the loop over the 32-bit key does.
use beast.Base.{ℕ, ◌+◌, ◌*◌, ◌/◌, ◌%◌, ◌^◌, ◌<◌, bit_xor, ◌≡◌, refl, Bytes, [], ◌∷◌, arith}
use beast.Websocket.Mask.Defs.{prepare_key64, ror, xor_byte, mask_general64}
use beast.Websocket.Mask.Refine.{xor_byte_lem, or_of_parts}
use beast.Websocket.Mask.Spec.{Key, IsKey, IsBytes, rotate, mask_with, key_after, pack32, pack64}

ror64_8 : (t : ℕ) → t < 2 ^ 64 → ror 64 t 8 ≡ t % 2 ^ 8 * 2 ^ 56 + t / 2 ^ 8
unfolding ror
ror64_8 t h = or_of_parts 56 _ (t % 2 ^ 8) (t / 2 ^ 8) (omega arith) (omega arith)

ror64_16 : (t : ℕ) → t < 2 ^ 64 → ror 64 t 16 ≡ t % 2 ^ 16 * 2 ^ 48 + t / 2 ^ 16
unfolding ror
ror64_16 t h = or_of_parts 48 _ (t % 2 ^ 16) (t / 2 ^ 16) (omega arith) (omega arith)

ror64_24 : (t : ℕ) → t < 2 ^ 64 → ror 64 t 24 ≡ t % 2 ^ 24 * 2 ^ 40 + t / 2 ^ 24
unfolding ror
ror64_24 t h = or_of_parts 40 _ (t % 2 ^ 24) (t / 2 ^ 24) (omega arith) (omega arith)

ror64_32 : (t : ℕ) → t < 2 ^ 64 → ror 64 t 32 ≡ t % 2 ^ 32 * 2 ^ 32 + t / 2 ^ 32
unfolding ror
ror64_32 t h = or_of_parts 32 _ (t % 2 ^ 32) (t / 2 ^ 32) (omega arith) (omega arith)

ror64_40 : (t : ℕ) → t < 2 ^ 64 → ror 64 t 40 ≡ t % 2 ^ 40 * 2 ^ 24 + t / 2 ^ 40
unfolding ror
ror64_40 t h = or_of_parts 24 _ (t % 2 ^ 40) (t / 2 ^ 40) (omega arith) (omega arith)

ror64_48 : (t : ℕ) → t < 2 ^ 64 → ror 64 t 48 ≡ t % 2 ^ 48 * 2 ^ 16 + t / 2 ^ 48
unfolding ror
ror64_48 t h = or_of_parts 16 _ (t % 2 ^ 48) (t / 2 ^ 48) (omega arith) (omega arith)

ror64_56 : (t : ℕ) → t < 2 ^ 64 → ror 64 t 56 ≡ t % 2 ^ 56 * 2 ^ 8 + t / 2 ^ 56
unfolding ror
ror64_56 t h = or_of_parts 8 _ (t % 2 ^ 56) (t / 2 ^ 56) (omega arith) (omega arith)

module _ (k : Key) (h : IsKey k) where
  pub prepare_key64-pack64 : prepare_key64 (pack32 k) ≡ pack64 k
  unfolding prepare_key64
  prepare_key64-pack64 = omega (
    arith,
    or_of_parts 32 (pack32 k * 2 ^ 32 % 2 ^ 64) (pack32 k) (pack32 k) (omega arith) (omega arith),
  )

  pack64-ror8 : ror 64 (pack64 k) 8 ≡ pack64 (rotate k)
  pack64-ror8 = omega (arith, ror64_8 (pack64 k) (omega arith))

  pack64-ror16 : ror 64 (pack64 k) 16 ≡ pack64 (rotate (rotate k))
  pack64-ror16 = omega (arith, ror64_16 (pack64 k) (omega arith))

  pack64-ror24 : ror 64 (pack64 k) 24 ≡ pack64 (rotate (rotate (rotate k)))
  pack64-ror24 = omega (arith, ror64_24 (pack64 k) (omega arith))

  pack64-ror32 : ror 64 (pack64 k) 32 ≡ pack64 k
  pack64-ror32 = omega (arith, ror64_32 (pack64 k) (omega arith))

  pack64-ror40 : ror 64 (pack64 k) 40 ≡ pack64 (rotate k)
  pack64-ror40 = omega (arith, ror64_40 (pack64 k) (omega arith))

  pack64-ror48 : ror 64 (pack64 k) 48 ≡ pack64 (rotate (rotate k))
  pack64-ror48 = omega (arith, ror64_48 (pack64 k) (omega arith))

  pack64-ror56 : ror 64 (pack64 k) 56 ≡ pack64 (rotate (rotate (rotate k)))
  pack64-ror56 = omega (arith, ror64_56 (pack64 k) (omega arith))

  byte0 : (p : ℕ) → p < 256 → xor_byte p (pack64 k) ≡ bit_xor p k.k0
  byte0 p fits = xor_byte_lem p _ k.k0 fits (omega arith)

  byte1 : (p : ℕ) → p < 256 → xor_byte p (pack64 k / 2 ^ 8) ≡ bit_xor p k.k1
  byte1 p fits = xor_byte_lem p _ k.k1 fits (omega arith)

  byte2 : (p : ℕ) → p < 256 → xor_byte p (pack64 k / 2 ^ 16) ≡ bit_xor p k.k2
  byte2 p fits = xor_byte_lem p _ k.k2 fits (omega arith)

  byte3 : (p : ℕ) → p < 256 → xor_byte p (pack64 k / 2 ^ 24) ≡ bit_xor p k.k3
  byte3 p fits = xor_byte_lem p _ k.k3 fits (omega arith)

  byte4 : (p : ℕ) → p < 256 → xor_byte p (pack64 k / 2 ^ 32) ≡ bit_xor p k.k0
  byte4 p fits = xor_byte_lem p _ k.k0 fits (omega arith)

  byte5 : (p : ℕ) → p < 256 → xor_byte p (pack64 k / 2 ^ 40) ≡ bit_xor p k.k1
  byte5 p fits = xor_byte_lem p _ k.k1 fits (omega arith)

  byte6 : (p : ℕ) → p < 256 → xor_byte p (pack64 k / 2 ^ 48) ≡ bit_xor p k.k2
  byte6 p fits = xor_byte_lem p _ k.k2 fits (omega arith)

  byte7 : (p : ℕ) → p < 256 → xor_byte p (pack64 k / 2 ^ 56) ≡ bit_xor p k.k3
  byte7 p fits = xor_byte_lem p _ k.k3 fits (omega arith)

-- Masking with the doubled key applies the same bytes in turn and leaves the rotated key.
pub mask_general64-mask_with :
    (k : Key) (bs : Bytes)
    → IsKey k
    → IsBytes bs
    → mask_general64 bs (pack64 k) ≡ (mask_with k bs, pack64 (key_after k bs))
unfolding mask_general64
mask_general64-mask_with k [] valid p = refl
mask_general64-mask_with k (a ∷ []) valid p = rw (byte0 k valid a p.0, pack64-ror8 k valid)
mask_general64-mask_with k (a ∷ b ∷ []) valid p =
    rw (byte0 k valid a p.0, byte1 k valid b p.1.0, pack64-ror16 k valid)
mask_general64-mask_with k (a ∷ b ∷ c ∷ []) valid p =
    rw (byte0 k valid a p.0, byte1 k valid b p.1.0, byte2 k valid c p.1.1.0, pack64-ror24 k valid)
mask_general64-mask_with k (a ∷ b ∷ c ∷ d ∷ []) valid p = rw (
  byte0 k valid a p.0,
  byte1 k valid b p.1.0,
  byte2 k valid c p.1.1.0,
  byte3 k valid d p.1.1.1.0,
  pack64-ror32 k valid,
)
mask_general64-mask_with k (a ∷ b ∷ c ∷ d ∷ e ∷ []) valid p = rw (
  byte0 k valid a p.0,
  byte1 k valid b p.1.0,
  byte2 k valid c p.1.1.0,
  byte3 k valid d p.1.1.1.0,
  byte0 k valid e p.1.1.1.1.0,
  pack64-ror40 k valid,
)
mask_general64-mask_with k (a ∷ b ∷ c ∷ d ∷ e ∷ f ∷ []) valid p = rw (
  byte0 k valid a p.0,
  byte1 k valid b p.1.0,
  byte2 k valid c p.1.1.0,
  byte3 k valid d p.1.1.1.0,
  byte0 k valid e p.1.1.1.1.0,
  byte1 k valid f p.1.1.1.1.1.0,
  pack64-ror48 k valid,
)
mask_general64-mask_with k (a ∷ b ∷ c ∷ d ∷ e ∷ f ∷ g ∷ []) valid p = rw (
  byte0 k valid a p.0,
  byte1 k valid b p.1.0,
  byte2 k valid c p.1.1.0,
  byte3 k valid d p.1.1.1.0,
  byte0 k valid e p.1.1.1.1.0,
  byte1 k valid f p.1.1.1.1.1.0,
  byte2 k valid g p.1.1.1.1.1.1.0,
  pack64-ror56 k valid,
)
mask_general64-mask_with k (a ∷ b ∷ c ∷ d ∷ e ∷ f ∷ g ∷ h ∷ bs) valid p = rw (
  byte0 k valid a p.0,
  byte1 k valid b p.1.0,
  byte2 k valid c p.1.1.0,
  byte3 k valid d p.1.1.1.0,
  byte4 k valid e p.1.1.1.1.0,
  byte5 k valid f p.1.1.1.1.1.0,
  byte6 k valid g p.1.1.1.1.1.1.0,
  byte7 k valid h p.1.1.1.1.1.1.1.0,
  mask_general64-mask_with k bs valid p.1.1.1.1.1.1.1.1,
)
