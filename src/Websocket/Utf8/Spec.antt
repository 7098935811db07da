-- ===== src/Websocket/Utf8/Spec.antt =====
-- RFC 3629: Unicode scalar values and their octets.
use beast.Base.{
  ℕ, ◌+◌, ◌/◌, ◌%◌, ◌^◌, ◌≤◌, ◌<◌, ◌≡◌, ◌⊎◌, ltb, if◌then◌else◌, Bytes, [], ◌∷◌, ◌++◌, arith,
}

-- Up to U+10FFFF, and no surrogate.
abbrev pub IsScalar : ℕ → Type 0
IsScalar c = (c < 0xd800) ⊎ ((0xe000 ≤ c) × (c < 0x110000))

unfoldable pub encode : ℕ → Bytes
encode c =
    if ltb c 0x80
    then c ∷ []
    else if ltb c 0x800
    then (0xc0 + c / 2 ^ 6) ∷ (0x80 + c % 2 ^ 6) ∷ []
    else if ltb c 0x10000
    then (0xe0 + c / 2 ^ 12) ∷ (0x80 + c / 2 ^ 6 % 2 ^ 6) ∷ (0x80 + c % 2 ^ 6) ∷ []
    else (0xf0 + c / 2 ^ 18)
      ∷ (0x80 + c / 2 ^ 12 % 2 ^ 6)
      ∷ (0x80 + c / 2 ^ 6 % 2 ^ 6)
      ∷ (0x80 + c % 2 ^ 6)
      ∷ []

-- The octets of a sequence of scalar values.
pub data IsUtf8 : Bytes → Type 0 where
  nothing : IsUtf8 []
  scalar :
      {bs : Bytes} (c : ℕ) (rest : Bytes)
      → IsScalar c
      → bs ≡ encode c ++ rest
      → IsUtf8 rest
      → IsUtf8 bs

pub encode_1 : (c : ℕ) → c < 0x80 → encode c ≡ c ∷ []
unfolding encode
encode_1 c h = ground (arith, h)

pub encode_2 :
    (c : ℕ) → 0x80 ≤ c → c < 0x800 → encode c ≡ (0xc0 + c / 2 ^ 6) ∷ (0x80 + c % 2 ^ 6) ∷ []
unfolding encode
encode_2 c l h = ground (arith, l, h)

pub encode_3 :
    (c : ℕ)
    → 0x800 ≤ c
    → c < 0x10000
    → encode c ≡ (0xe0 + c / 2 ^ 12) ∷ (0x80 + c / 2 ^ 6 % 2 ^ 6) ∷ (0x80 + c % 2 ^ 6) ∷ []
unfolding encode
encode_3 c l h = ground (arith, l, h)

pub encode_4 :
    (c : ℕ)
    → 0x10000 ≤ c
    → encode c
      ≡ (0xf0 + c / 2 ^ 18)
        ∷ (0x80 + c / 2 ^ 12 % 2 ^ 6)
        ∷ (0x80 + c / 2 ^ 6 % 2 ^ 6)
        ∷ (0x80 + c % 2 ^ 6)
        ∷ []
unfolding encode
encode_4 c l = ground (arith, l)
