-- ===== src/Websocket/Utf8/Sound.antt =====
-- What the machine accepts is the octets of scalar values.
use beast.Base.{
  ℕ, suc, zero, ◌+◌, ◌-◌, ◌*◌, ◌/◌, ◌%◌, ◌^◌, ◌≤◌, ◌<◌, ◌≡◌, ◌≢◌, sym, ap, ◌∙◌, true, Bytes, [],
  ◌∷◌, ◌++◌, arith,
}
use beast.Websocket.Mask.Spec.{IsBytes}
use beast.Websocket.Utf8.{next_state, check_utf8}
use beast.Websocket.Utf8.Spec.{IsUtf8, nothing, scalar, encode_1, encode_2, encode_3, encode_4}
use beast.Websocket.Utf8.States.{
  lead, tail, next_state-lead, next_state_two, next_state_three, next_state_four, next_state_five,
  next_state_six, next_state_seven, next_state_eight, accepts, check_utf8-accepts, accepts-cons,
}

-- `n` octets, of which the first is of a range and the others from 80 to BF, and then text.
abbrev Wants : ℕ → ℕ → ℕ → Bytes → Type 0
Wants zero lo hi bs = IsUtf8 bs
Wants (suc n) lo hi [] = ⊥
Wants (suc n) lo hi (t ∷ bs) = ((lo ≤ t) × (t ≤ hi)) × Wants n 0x80 0xbf bs

-- What each state but 1 wants of what it accepts.
record Accepted (bs : Bytes) : Type 0 where
  between : accepts 0 bs ≡ true → IsUtf8 bs
  two : accepts 2 bs ≡ true → Wants 1 0x80 0xbf bs
  three : accepts 3 bs ≡ true → Wants 2 0x80 0xbf bs
  four : accepts 4 bs ≡ true → Wants 2 0xa0 0xbf bs
  five : accepts 5 bs ≡ true → Wants 2 0x80 0x9f bs
  six : accepts 6 bs ≡ true → Wants 3 0x90 0xbf bs
  seven : accepts 7 bs ≡ true → Wants 3 0x80 0xbf bs
  eight : accepts 8 bs ≡ true → Wants 3 0x80 0x8f bs

one_octet : (b : ℕ) (bs : Bytes) → b < 0x80 → IsUtf8 bs → IsUtf8 (b ∷ bs)
one_octet b bs h u = scalar b bs (omega arith) (ap (λ t. t ++ bs) (sym (encode_1 b h))) u

two_octets : (b : ℕ) (bs : Bytes) → 0xc2 ≤ b → b < 0xe0 → Wants 1 0x80 0xbf bs → IsUtf8 (b ∷ bs)
two_octets b [] l h w = absurd w
two_octets b (t ∷ bs) l h w =
    let c : ℕ = (b - 0xc0) * 2 ^ 6 + (t - 0x80) in
    let e0 : b ≡ 0xc0 + c / 2 ^ 6 = omega (arith, w.0) in
    let e1 : t ≡ 0x80 + c % 2 ^ 6 = omega (arith, w.0) in
    scalar c bs (omega (arith, w.0))
      ((λ i. e0 i ∷ e1 i ∷ bs)
        ∙ ap (λ t. t ++ bs) (sym (encode_2 c (omega (arith, w.0)) (omega (arith, w.0)))))
      w.1

three_octets :
    (b lo hi : ℕ) (bs : Bytes)
    → 0xe0 ≤ b
    → b < 0xf0
    → (0x80 ≤ lo) × (hi ≤ 0xbf)
    → (b ≡ 0xe0 → 0xa0 ≤ lo)
    → (b ≡ 0xed → hi ≤ 0x9f)
    → Wants 2 lo hi bs
    → IsUtf8 (b ∷ bs)
three_octets b lo hi [] l h r least most w = absurd w
three_octets b lo hi (t ∷ []) l h r least most w = absurd w.1
three_octets b lo hi (t ∷ u ∷ bs) l h r least most w =
    let c : ℕ = (b - 0xe0) * 2 ^ 12 + (t - 0x80) * 2 ^ 6 + (u - 0x80) in
    let e0 : b ≡ 0xe0 + c / 2 ^ 12 = omega (arith, w) in
    let e1 : t ≡ 0x80 + c / 2 ^ 6 % 2 ^ 6 = omega (arith, w) in
    let e2 : u ≡ 0x80 + c % 2 ^ 6 = omega (arith, w) in
    scalar c bs (ground (arith, w, least, most))
      ((λ i. e0 i ∷ e1 i ∷ e2 i ∷ bs)
        ∙ ap (λ t. t ++ bs) (sym (encode_3 c (ground (arith, w, least)) (ground (arith, w)))))
      w.1.1

four_octets :
    (b lo hi : ℕ) (bs : Bytes)
    → 0xf0 ≤ b
    → b < 0xf5
    → (0x80 ≤ lo) × (hi ≤ 0xbf)
    → (b ≡ 0xf0 → 0x90 ≤ lo)
    → (b ≡ 0xf4 → hi ≤ 0x8f)
    → Wants 3 lo hi bs
    → IsUtf8 (b ∷ bs)
four_octets b lo hi [] l h r least most w = absurd w
four_octets b lo hi (t ∷ []) l h r least most w = absurd w.1
four_octets b lo hi (t ∷ u ∷ []) l h r least most w = absurd w.1.1
four_octets b lo hi (t ∷ u ∷ v ∷ bs) l h r least most w =
    let c : ℕ = (b - 0xf0) * 2 ^ 18 + (t - 0x80) * 2 ^ 12 + (u - 0x80) * 2 ^ 6 + (v - 0x80) in
    let e0 : b ≡ 0xf0 + c / 2 ^ 18 = omega (arith, w) in
    let e1 : t ≡ 0x80 + c / 2 ^ 12 % 2 ^ 6 = omega (arith, w) in
    let e2 : u ≡ 0x80 + c / 2 ^ 6 % 2 ^ 6 = omega (arith, w) in
    let e3 : v ≡ 0x80 + c % 2 ^ 6 = omega (arith, w) in
    scalar c bs (ground (arith, w, least, most))
      ((λ i. e0 i ∷ e1 i ∷ e2 i ∷ e3 i ∷ bs)
        ∙ ap (λ t. t ++ bs) (sym (encode_4 c (ground (arith, w, least)))))
      w.1.1.1

module _ (s lo hi next n b : ℕ) (bs : Bytes) where
  tail_step :
      next_state s b ≡ tail lo hi next b
      → accepts s (b ∷ bs) ≡ true
      → (accepts next bs ≡ true → Wants n 0x80 0xbf bs)
      → Wants (suc n) lo hi (b ∷ bs)
  tail_step e h rest =
      let step = accepts-cons s b bs h in
      let range : (lo ≤ b) × (b ≤ hi) = ground (arith, step.1, e) in
      let same : next_state s b ≡ next = ground (arith, e, range) in
      (range, rest (ap (λ t. accepts t bs) (sym same) ∙ step.0))

-- The lead octets that are not refused.
data LeadCase (b s : ℕ) : Type 0 where
  ascii : b < 0x80 → s ≡ 0 → LeadCase b s
  of_two : 0xc2 ≤ b → b < 0xe0 → s ≡ 2 → LeadCase b s
  of_three : 0xe0 ≤ b → b < 0xf0 → b ≢ 0xe0 → b ≢ 0xed → s ≡ 3 → LeadCase b s
  lowest_three : b ≡ 0xe0 → s ≡ 4 → LeadCase b s
  surrogate : b ≡ 0xed → s ≡ 5 → LeadCase b s
  lowest_four : b ≡ 0xf0 → s ≡ 6 → LeadCase b s
  of_four : 0xf0 ≤ b → b < 0xf4 → b ≢ 0xf0 → s ≡ 7 → LeadCase b s
  highest_four : b ≡ 0xf4 → s ≡ 8 → LeadCase b s

lead_cases : (b s : ℕ) → s ≡ lead b → s ≢ 1 → LeadCase b s
lead_cases b s e h = grind (
  arith, e, h, ascii, of_two, of_three, lowest_three, surrogate, lowest_four, of_four, highest_four,
)

lead_step :
    (b : ℕ) (bs : Bytes) → b < 256 → accepts 0 (b ∷ bs) ≡ true → Accepted bs → IsUtf8 (b ∷ bs)
lead_step b bs fits h a =
    let step = accepts-cons 0 b bs h in
    let s : ℕ = next_state 0 b in
    let go : (t : ℕ) → s ≡ t → accepts t bs ≡ true =
      λ t e. ap (λ t. accepts t bs) (sym e) ∙ step.0 in
    elim (lead_cases b s (next_state-lead b fits) step.1) [
      | ascii l e ↦ one_octet b bs l (a.between (go 0 e))
      | of_two l m e ↦ two_octets b bs l m (a.two (go 2 e))
      | of_three l m p q e ↦
          three_octets b 0x80 0xbf bs l m (omega arith) (λ x. absurd (p x)) (λ x. absurd (q x))
            (a.three (go 3 e))
      | lowest_three p e ↦
          three_octets b 0xa0 0xbf bs (omega arith) (omega arith) (omega arith) (λ x. omega arith)
            (λ x. omega arith) (a.four (go 4 e))
      | surrogate p e ↦
          three_octets b 0x80 0x9f bs (omega arith) (omega arith) (omega arith) (λ x. omega arith)
            (λ x. omega arith) (a.five (go 5 e))
      | lowest_four p e ↦
          four_octets b 0x90 0xbf bs (omega arith) (omega arith) (omega arith) (λ x. omega arith)
            (λ x. omega arith) (a.six (go 6 e))
      | of_four l m p e ↦
          four_octets b 0x80 0xbf bs l (omega arith) (omega arith) (λ x. absurd (p x))
            (λ x. omega arith) (a.seven (go 7 e))
      | highest_four p e ↦
          four_octets b 0x80 0x8f bs (omega arith) (omega arith) (omega arith) (λ x. omega arith)
            (λ x. omega arith) (a.eight (go 8 e))
    ]

accepted : (bs : Bytes) → IsBytes bs → Accepted bs
accepted [] h =
    unfold accepts in
    record {
      between = λ e. nothing;
      two = λ e. cc;
      three = λ e. cc;
      four = λ e. cc;
      five = λ e. cc;
      six = λ e. cc;
      seven = λ e. cc;
      eight = λ e. cc;
    }
accepted (b ∷ bs) h =
    let a = accepted bs h.1 in
    record {
      between = λ e. lead_step b bs h.0 e a;
      two = λ e. tail_step 2 0x80 0xbf 0 0 b bs (next_state_two b h.0) e a.between;
      three = λ e. tail_step 3 0x80 0xbf 2 1 b bs (next_state_three b h.0) e a.two;
      four = λ e. tail_step 4 0xa0 0xbf 2 1 b bs (next_state_four b h.0) e a.two;
      five = λ e. tail_step 5 0x80 0x9f 2 1 b bs (next_state_five b h.0) e a.two;
      six = λ e. tail_step 6 0x90 0xbf 3 2 b bs (next_state_six b h.0) e a.three;
      seven = λ e. tail_step 7 0x80 0xbf 3 2 b bs (next_state_seven b h.0) e a.three;
      eight = λ e. tail_step 8 0x80 0x8f 3 2 b bs (next_state_eight b h.0) e a.three;
    }

pub check_utf8_sound : (bs : Bytes) → IsBytes bs → check_utf8 bs ≡ true → IsUtf8 bs
check_utf8_sound bs b h = (accepted bs b).between (sym (check_utf8-accepts bs) ∙ h)
