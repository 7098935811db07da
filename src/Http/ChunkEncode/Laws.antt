-- ===== src/Http/ChunkEncode/Laws.antt =====
-- The size that a chunk starts with, as the parser reads it.
use beast.Base.{
  ℕ, zero, suc, ◌+◌, ◌*◌, ◌/◌, ◌%◌, ◌-◌, length, ◌^◌, ◌<◌, ◌≡◌, ◌≢◌, ap, refl, ◌∙◌, Bool, true,
  false, ◌==◌, ◌&&◌, ltb, Bytes, [], ◌∷◌, Option, none, some, All, arith, holds_below,
  holds_below_sound, agree_below_sound, Bool-cases, inl, inr,
}
use native.Mathlib.Nat.{pow-suc}
use beast.Http.Chars.Laws.{hex_value}
use beast.Http.ChunkEncode.{hex_char, hex_loop, to_hex}
use beast.Http.Parser.Types.{chunk_size0, Derived, Parser}
use beast.Http.Parser.Write.{write_buffer}
use beast.Http.Parser.Numbers.{number, sized, write_buffer-size0, hex, IsHex, or_zero}

hex-hex_char : (v : ℕ) → v < 16 → hex (hex_char v) ≡ v
hex-hex_char = agree_below_sound 16 (λ v. hex (hex_char v)) (λ v. v) (unfold holds_below in refl)

abbrev has_value : Option ℕ → Bool
has_value none = false
has_value (some v) = true

has_value-or_zero : (o : Option ℕ) → has_value o ≡ true → o ≡ some (or_zero o)
has_value-or_zero none h = cc
has_value-or_zero (some v) h = refl

hex_chars : holds_below 16 (λ v. ltb (hex_char v) 128 && has_value (hex_value (hex_char v))) ≡ true
unfolding holds_below
hex_chars = refl

hex_char-IsHex : (v : ℕ) → v < 16 → IsHex (hex_char v)
hex_char-IsHex v h =
    let t = holds_below_sound 16 _ v hex_chars h in
    (ground (arith, t), has_value-or_zero (hex_value (hex_char v)) (ground (arith, t)))

number-hex_loop :
    (fuel n : ℕ) (filled : Bytes)
    → n < 16 ^ fuel
    → number 16 hex 0 (hex_loop fuel n filled) ≡ number 16 hex n filled
unfolding hex_loop
number-hex_loop zero n filled h = ap (λ m. number 16 hex m filled) (omega arith)
number-hex_loop (suc fuel) n filled h = elim (Bool-cases (n == 0)) [
  | inl y ↦ rw y (ap (λ m. number 16 hex m filled) (ground arith))
  | inr m ↦ rw m (
      number-hex_loop fuel (n / 16) (hex_char (n % 16) ∷ filled) (ground (arith, pow-suc 16 fuel))
      ∙ ap (λ m. number 16 hex m filled) last)
]
  where
    last : n / 16 * 16 + hex (hex_char (n % 16)) ≡ n
    last = omega (arith, hex-hex_char (n % 16) (omega arith))

hex_loop-IsHex :
    (fuel n : ℕ) (filled : Bytes) → All IsHex filled → All IsHex (hex_loop fuel n filled)
unfolding hex_loop
hex_loop-IsHex zero n filled h = h
hex_loop-IsHex (suc fuel) n filled h = elim (Bool-cases (n == 0)) [
  | inl y ↦ rw y h
  | inr m ↦ rw m (hex_loop-IsHex fuel (n / 16) _ (hex_char-IsHex (n % 16) (omega arith), h))
]

not_empty-hex_loop : (fuel n c : ℕ) (filled : Bytes) → hex_loop fuel n (c ∷ filled) ≢ []
unfolding hex_loop
not_empty-hex_loop zero n c filled = λ e. cc
not_empty-hex_loop (suc fuel) n c filled = elim (Bool-cases (n == 0)) [
  | inl y ↦ rw y (λ e. cc)
  | inr m ↦ rw m (not_empty-hex_loop fuel (n / 16) _ (c ∷ filled))
]

not_empty-to_hex : (n : ℕ) → to_hex n ≢ []
unfolding to_hex hex_loop
not_empty-to_hex n = elim (Bool-cases (n == 0)) [
  | inl y ↦ rw y (λ e. cc)
  | inr m ↦ rw m (not_empty-hex_loop 15 (n / 16) _ [])
]

number-to_hex : (n : ℕ) → n < 2 ^ 64 → number 16 hex 0 (to_hex n) ≡ n
unfolding to_hex
number-to_hex n h = elim (Bool-cases (n == 0)) [
  | inl y ↦ rw y (ground arith)
  | inr m ↦ rw m (number-hex_loop 16 n [] (omega arith))
]

to_hex-IsHex : (n : ℕ) → All IsHex (to_hex n)
unfolding to_hex
to_hex-IsHex n = elim (Bool-cases (n == 0)) [
  | inl y ↦ rw y ((omega arith, refl), tt)
  | inr m ↦ rw m (hex_loop-IsHex 16 n [] tt)
]

-- For any derived class, a parser that waits for the size of a chunk, and a size below 2^64 - 16:
-- writing the digits that `chunk_encode_text` starts with reads them all, and the content length is
-- that size.
pub write_buffer-to_hex :
    {S : Type 0} (is_request : Bool) (d : Derived S) (p : Parser S) (n : ℕ)
    → n < 2 ^ 64 - 16
    → write_buffer is_request d (record p { s = chunk_size0; cb = none }) (to_hex n)
      ≡ (sized p n (to_hex n), length (to_hex n))
write_buffer-to_hex {S} is_request d p n h =
    go (to_hex n) (number-to_hex n (omega arith)) (to_hex-IsHex n) (not_empty-to_hex n)
  where
    go :
        (l : Bytes)
        → number 16 hex 0 l ≡ n
        → All IsHex l
        → l ≢ []
        → write_buffer is_request d (record p { s = chunk_size0; cb = none }) l
          ≡ (sized p n l, length l)
    go [] e a ne = absurd (ne refl)
    go (c ∷ ds) e a ne =
        let m : number 16 hex (hex c) ds ≡ n = ap (λ m. number 16 hex m ds) (omega arith) ∙ e in
        write_buffer-size0 is_request d p c ds a (omega arith)
        ∙ ap (λ m. (sized p m (c ∷ ds), length (c ∷ ds))) m
