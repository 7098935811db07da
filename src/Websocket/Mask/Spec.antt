-- ===== src/Websocket/Mask/Spec.antt =====
-- What masking means: the bytes of the key are applied in turn, and the key is left rotated to the
-- byte that comes next.
use beast.Base.{
  ℕ, ◌+◌, ◌*◌, ◌^◌, ◌<◌, bit_xor, bit_xor-cancel, bit_xor-mod, ◌≡◌, refl, ap, Bytes, [], ◌∷◌, ◌++◌,
  All, arith,
}

pub record Key : Type 0 where
  pub k0 : ℕ
  pub k1 : ℕ
  pub k2 : ℕ
  pub k3 : ℕ

pub record IsKey (k : Key) : Type 0 where
  pub k0_fits : k.k0 < 256
  pub k1_fits : k.k1 < 256
  pub k2_fits : k.k2 < 256
  pub k3_fits : k.k3 < 256

abbrev pub IsBytes : Bytes → Type 0
IsBytes = All (λ b. b < 256)

abbrev pub rotate : Key → Key
rotate k = record { k0 = k.k1; k1 = k.k2; k2 = k.k3; k3 = k.k0 }

abbrev pub mask_with : Key → Bytes → Bytes
mask_with k [] = []
mask_with k (b ∷ bs) = bit_xor b k.k0 ∷ mask_with (rotate k) bs

abbrev pub key_after : Key → Bytes → Key
key_after k [] = k
key_after k (b ∷ bs) = key_after (rotate k) bs

-- The key as the code holds it.
abbrev pub pack32 : Key → ℕ
pack32 k = k.k0 + k.k1 * 2 ^ 8 + k.k2 * 2 ^ 16 + k.k3 * 2 ^ 24

abbrev pub pack64 : Key → ℕ
pack64 k = pack32 k + pack32 k * 2 ^ 32

pub mask_with-append :
    (k : Key) (xs ys : Bytes)
    → mask_with k (xs ++ ys) ≡ mask_with k xs ++ mask_with (key_after k xs) ys
mask_with-append k [] ys = refl
mask_with-append k (x ∷ xs) ys = ap (◌∷◌ (bit_xor x k.k0)) (mask_with-append (rotate k) xs ys)

pub mask_with-mask_with : (k : Key) (xs : Bytes) → mask_with k (mask_with k xs) ≡ xs
mask_with-mask_with k [] = refl
mask_with-mask_with k (x ∷ xs) = rw (bit_xor-cancel x k.k0, mask_with-mask_with (rotate k) xs)

pub key_after-mask_with : (k j : Key) (xs : Bytes) → key_after k (mask_with j xs) ≡ key_after k xs
key_after-mask_with k j [] = refl
key_after-mask_with k j (x ∷ xs) = key_after-mask_with (rotate k) (rotate j) xs

pub IsKey-rotate : {k : Key} → IsKey k → IsKey (rotate k)
IsKey-rotate h = record {
  k0_fits = h.k1_fits;
  k1_fits = h.k2_fits;
  k2_fits = h.k3_fits;
  k3_fits = h.k0_fits;
}

pub IsKey-key_after : {k : Key} (xs : Bytes) → IsKey k → IsKey (key_after k xs)
IsKey-key_after [] h = h
IsKey-key_after (x ∷ xs) h = IsKey-key_after xs (IsKey-rotate h)

bit_xor-lt : (a b : ℕ) → a < 256 → b < 256 → bit_xor a b < 256
bit_xor-lt a b p q = ground (arith, bit_xor-mod 8 a b)

pub mask_with-IsBytes : {k : Key} (xs : Bytes) → IsKey k → IsBytes xs → IsBytes (mask_with k xs)
mask_with-IsBytes [] h p = tt
mask_with-IsBytes {k} (x ∷ xs) h p =
    (bit_xor-lt x k.k0 p.0 h.k0_fits, mask_with-IsBytes xs (IsKey-rotate h) p.1)
