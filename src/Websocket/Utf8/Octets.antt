-- ===== src/Websocket/Utf8/Octets.antt =====
-- One octet: the state it leads to and the code point so far.
use Prim.Native.Nat.{bit_or-bitwise}
use native.Mathlib.Nat.{pow-suc}
use beast.Base.{
  ℕ, zero, suc, ◌+◌, ◌-◌, ◌*◌, ◌/◌, ◌%◌, ◌^◌, ◌≤◌, ◌<◌, ◌≡◌, ◌≢◌, ◌⊎◌, inl, inr, refl, ap, ◌∙◌,
  false, ltb, ◌==◌, if◌then◌else◌, holds_below, agree_below_sound, bit_and, bit_or, bit_or_step,
  bit_and_low, Bytes, ◌∷◌, arith,
}
use beast.Websocket.Utf8.{Utf8Checker, reset_checker, type_of, next_state, advance, write}
use beast.Websocket.Utf8.States.{
  lead, next_state-lead, next_state_three, next_state_four, next_state_five, next_state_six,
  next_state_seven, next_state_eight,
}

-- The digits of a lead octet; what the machine takes from an octet that it refuses is not stated.
abbrev pub lead_digits : ℕ → ℕ → ℕ
lead_digits other b =
    if ltb b 0x80
    then b
    else if ltb b 0xc2
    then other
    else if ltb b 0xe0
    then b - 0xc0
    else if ltb b 0xf0
    then b - 0xe0
    else if ltb b 0xf5
    then b - 0xf0
    else other

abbrev taken : ℕ → ℕ
taken b = bit_and (0xff / 2 ^ type_of b) b

taken-lead_digits : (b : ℕ) → b < 256 → taken b ≡ lead_digits (taken b) b
unfolding type_of holds_below
taken-lead_digits = agree_below_sound 256 _ _ refl

or_low : (k q r : ℕ) → r < 2 ^ k → bit_or r (q * 2 ^ k) ≡ q * 2 ^ k + r
or_low zero q r h = ground (arith, bit_or-bitwise 0 q)
or_low (suc k) q r h = ground (
  arith,
  pow-suc 2 k,
  ap (λ (t : ℕ). q * t) (pow-suc 2 k),
  bit_or_step r (q * 2 ^ suc k),
  or_low k q (r / 2),
)

shifted :
    (b p : ℕ)
    → 0x80 ≤ b
    → b ≤ 0xbf
    → p < 2 ^ 26
    → bit_or (bit_and b 0x3f) (p * 2 ^ 6 % 2 ^ 32) ≡ p * 2 ^ 6 + (b - 0x80)
shifted b p l h small =
    let low : bit_and b 0x3f ≡ b - 0x80 = omega (arith, bit_and_low 6 b) in
    let fits : p * 2 ^ 6 % 2 ^ 32 ≡ p * 2 ^ 6 = omega arith in
    (λ i. bit_or (low i) (fits i)) ∙ or_low 6 p (b - 0x80) (omega arith)

lead_digits-any : (b other : ℕ) → lead b ≢ 1 → lead_digits other b ≡ lead_digits 0 b
lead_digits-any b other n = ground (arith, n)

-- A lead octet, and an octet behind it.
pub lead_octet :
    (k b : ℕ)
    → b < 256
    → lead b ≢ 1
    → advance (record { state = 0; codepoint = k }) b
      ≡ record { state = lead b; codepoint = lead_digits 0 b }
unfolding advance
lead_octet k b h n =
    let e = taken-lead_digits b h ∙ lead_digits-any b (taken b) n in
    λ i. record { state = next_state-lead b h i; codepoint = e i }

pub next_octet :
    (s next b p : ℕ)
    → 0 < s
    → next_state s b ≡ next
    → 0x80 ≤ b
    → b ≤ 0xbf
    → p < 2 ^ 26
    → advance (record { state = s; codepoint = p }) b
      ≡ record { state = next; codepoint = p * 2 ^ 6 + (b - 0x80) }
unfolding advance
next_octet zero next b p pos e l h small = elim pos [ ]
next_octet (suc s) next b p pos e l h small =
    let other : (suc s == 0) ≡ false = ground arith in
    rw other (λ i. record { state = e i; codepoint = shifted b p l h small i })

pub write_go :
    (c c' : Utf8Checker) (b : ℕ) (bs : Bytes)
    → advance c b ≡ c'
    → c'.state ≢ 1
    → write c (b ∷ bs) ≡ write c' bs
unfolding write
write_go c c' b bs e n =
    ap (λ d. if d.state == 1 then (reset_checker, false) else write d bs) e ∙ step
  where
    step : (if c'.state == 1 then (reset_checker, false) else write c' bs) ≡ write c' bs
    step = ground (arith, n)

-- The second octet of three, and of four.
pub second_of_three :
    (b t : ℕ)
    → 0xe0 ≤ b
    → b < 0xf0
    → 0x80 ≤ t
    → t ≤ 0xbf
    → (b ≡ 0xe0 → 0xa0 ≤ t)
    → (b ≡ 0xed → t ≤ 0x9f)
    → next_state (lead b) t ≡ 2
second_of_three b t l h tl th least most = elim (which b l h) [
  | inl (p, e) ↦
      ap (λ s. next_state s t) e ∙ next_state_four t (omega arith) ∙ ground (arith, least p)
  | inr (inl (p, e)) ↦
      ap (λ s. next_state s t) e ∙ next_state_five t (omega arith) ∙ ground (arith, most p)
  | inr (inr e) ↦ ap (λ s. next_state s t) e ∙ next_state_three t (omega arith) ∙ ground arith
]
  where
    which :
        (b : ℕ)
        → 0xe0 ≤ b
        → b < 0xf0
        → ((b ≡ 0xe0) × (lead b ≡ 4)) ⊎ (((b ≡ 0xed) × (lead b ≡ 5)) ⊎ (lead b ≡ 3))
    which b l h = ground arith

pub second_of_four :
    (b t : ℕ)
    → 0xf0 ≤ b
    → b < 0xf5
    → 0x80 ≤ t
    → t ≤ 0xbf
    → (b ≡ 0xf0 → 0x90 ≤ t)
    → (b ≡ 0xf4 → t ≤ 0x8f)
    → next_state (lead b) t ≡ 3
second_of_four b t l h tl th least most = elim (which b l h) [
  | inl (p, e) ↦
      ap (λ s. next_state s t) e ∙ next_state_six t (omega arith) ∙ ground (arith, least p)
  | inr (inl (p, e)) ↦
      ap (λ s. next_state s t) e ∙ next_state_eight t (omega arith) ∙ ground (arith, most p)
  | inr (inr e) ↦ ap (λ s. next_state s t) e ∙ next_state_seven t (omega arith) ∙ ground arith
]
  where
    which :
        (b : ℕ)
        → 0xf0 ≤ b
        → b < 0xf5
        → ((b ≡ 0xf0) × (lead b ≡ 6)) ⊎ (((b ≡ 0xf4) × (lead b ≡ 8)) ⊎ (lead b ≡ 7))
    which b l h = ground arith

pub lead_positive : (b : ℕ) → 0xc2 ≤ b → b < 0xf5 → (0 < lead b) × (lead b ≢ 1)
lead_positive b l h = (ground arith, λ e. ground arith)
