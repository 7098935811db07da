-- ===== src/Websocket/Utf8/Encode.antt =====
-- The machine on the octets of a scalar value, with the code point that it gathers.
use beast.Base.{
  ℕ, ◌+◌, ◌-◌, ◌*◌, ◌/◌, ◌%◌, ◌^◌, ◌≤◌, ◌<◌, ◌≡◌, ◌≢◌, ◌⊎◌, inl, inr, ap, ◌∙◌, Bytes, ◌∷◌, ◌++◌,
  arith,
}
use beast.Websocket.Utf8.{Utf8Checker, next_state, write}
use beast.Websocket.Utf8.Spec.{IsScalar, encode, encode_1, encode_2, encode_3, encode_4}
use beast.Websocket.Utf8.States.{lead, next_state_two, next_state_three}
use beast.Websocket.Utf8.Octets.{
  lead_octet, next_octet, write_go, second_of_three, second_of_four, lead_positive, lead_digits,
}

abbrev pub clean : ℕ → Utf8Checker
clean c = record { state = 0; codepoint = c }

abbrev within : ℕ → ℕ → Utf8Checker
within s c = record { state = s; codepoint = c }

module _ (rest : Bytes) where
  last_octet :
      (t p c : ℕ)
      → 0x80 ≤ t
      → t ≤ 0xbf
      → p < 2 ^ 26
      → p * 2 ^ 6 + (t - 0x80) ≡ c
      → write (within 2 p) (t ∷ rest) ≡ write (clean c) rest
  last_octet t p c l h small e =
      write_go _ (clean c) t rest
        (next_octet 2 0 t p (omega arith) (next_state_two t (omega arith) ∙ ground arith) l h small
          ∙ ap clean e)
        (λ x. omega (arith, x))

  two_more :
      (s t u p c : ℕ)
      → 0 < s
      → next_state s t ≡ 2
      → 0x80 ≤ t
      → t ≤ 0xbf
      → 0x80 ≤ u
      → u ≤ 0xbf
      → p < 2 ^ 20
      → p * 2 ^ 12 + (t - 0x80) * 2 ^ 6 + (u - 0x80) ≡ c
      → write (within s p) (t ∷ u ∷ rest) ≡ write (clean c) rest
  two_more s t u p c pos e l h l' h' small eq =
      write_go _ (within 2 (p * 2 ^ 6 + (t - 0x80))) t (u ∷ rest)
        (next_octet s 2 t p pos e l h (omega arith)) (λ x. omega (arith, x))
      ∙ last_octet u (p * 2 ^ 6 + (t - 0x80)) c l' h' (omega arith) (omega (arith, eq))

  three_more :
      (s t u v p c : ℕ)
      → 0 < s
      → next_state s t ≡ 3
      → (0x80 ≤ t) × (t ≤ 0xbf)
      → (0x80 ≤ u) × (u ≤ 0xbf)
      → (0x80 ≤ v) × (v ≤ 0xbf)
      → p < 2 ^ 14
      → p * 2 ^ 18 + (t - 0x80) * 2 ^ 12 + (u - 0x80) * 2 ^ 6 + (v - 0x80) ≡ c
      → write (within s p) (t ∷ u ∷ v ∷ rest) ≡ write (clean c) rest
  three_more s t u v p c pos e tr ur vr small eq =
      write_go _ (within 3 (p * 2 ^ 6 + (t - 0x80))) t (u ∷ v ∷ rest)
        (next_octet s 3 t p pos e tr.0 tr.1 (omega arith)) (λ x. omega (arith, x))
      ∙ two_more 3 u v (p * 2 ^ 6 + (t - 0x80)) c (omega arith)
          (next_state_three u (omega (arith, ur)) ∙ ground (arith, ur)) ur.0 ur.1 vr.0 vr.1
          (omega (arith, tr)) (omega (arith, eq))

  lead_go :
      (k b p : ℕ) (bs : Bytes)
      → b < 256
      → lead b ≢ 1
      → lead_digits 0 b ≡ p
      → write (clean k) (b ∷ bs) ≡ write (within (lead b) p) bs
  lead_go k b p bs h n e = write_go _ _ b bs (lead_octet k b h n ∙ ap (within (lead b)) e) n

  encode_4_go :
      (c k : ℕ)
      → 0x10000 ≤ c
      → c < 0x110000
      → write (clean k) (encode c ++ rest) ≡ write (clean c) rest
  encode_4_go c k l h =
      let b : ℕ = 0xf0 + c / 2 ^ 18 in
      let t : ℕ = 0x80 + c / 2 ^ 12 % 2 ^ 6 in
      let u : ℕ = 0x80 + c / 2 ^ 6 % 2 ^ 6 in
      let v : ℕ = 0x80 + c % 2 ^ 6 in
      let (pos, n) = lead_positive b (omega arith) (omega arith) in
      ap (λ o. write (clean k) (o ++ rest)) (encode_4 c l)
      ∙ lead_go k b (c / 2 ^ 18) (t ∷ u ∷ v ∷ rest) (omega arith) n (ground arith)
      ∙ three_more (lead b) t u v (c / 2 ^ 18) c pos
          (second_of_four b t (omega arith) (omega arith) (omega arith) (omega arith)
            (λ e. omega (arith, e)) (λ e. omega (arith, e)))
          (omega arith) (omega arith) (omega arith) (omega arith) (omega arith)

  encode_3_go :
      (c k : ℕ)
      → 0x800 ≤ c
      → c < 0x10000
      → (c < 0xd800) ⊎ (0xe000 ≤ c)
      → write (clean k) (encode c ++ rest) ≡ write (clean c) rest
  encode_3_go c k l h sc =
      let b : ℕ = 0xe0 + c / 2 ^ 12 in
      let t : ℕ = 0x80 + c / 2 ^ 6 % 2 ^ 6 in
      let u : ℕ = 0x80 + c % 2 ^ 6 in
      let (pos, n) = lead_positive b (omega arith) (omega arith) in
      ap (λ o. write (clean k) (o ++ rest)) (encode_3 c l h)
      ∙ lead_go k b (c / 2 ^ 12) (t ∷ u ∷ rest) (omega arith) n (ground arith)
      ∙ two_more (lead b) t u (c / 2 ^ 12) c pos
          (second_of_three b t (omega arith) (omega arith) (omega arith) (omega arith)
            (λ e. omega (arith, e)) (λ e. omega (arith, e, sc)))
          (omega arith) (omega arith) (omega arith) (omega arith) (omega arith) (omega arith)

  encode_2_go :
      (c k : ℕ) → 0x80 ≤ c → c < 0x800 → write (clean k) (encode c ++ rest) ≡ write (clean c) rest
  encode_2_go c k l h =
      let b : ℕ = 0xc0 + c / 2 ^ 6 in
      let t : ℕ = 0x80 + c % 2 ^ 6 in
      let two : lead b ≡ 2 = ground arith in
      ap (λ o. write (clean k) (o ++ rest)) (encode_2 c l h)
      ∙ lead_go k b (c / 2 ^ 6) (t ∷ rest) (omega arith) (λ e. omega (arith, e, two)) (ground arith)
      ∙ ap (λ s. write (within s (c / 2 ^ 6)) (t ∷ rest)) two
      ∙ last_octet t (c / 2 ^ 6) c (omega arith) (omega arith) (omega arith) (omega arith)

  encode_1_go : (c k : ℕ) → c < 0x80 → write (clean k) (encode c ++ rest) ≡ write (clean c) rest
  encode_1_go c k h =
      let zero_next : lead c ≡ 0 = ground arith in
      ap (λ o. write (clean k) (o ++ rest)) (encode_1 c h)
      ∙ lead_go k c c rest (omega arith) (λ e. omega (arith, e, zero_next)) (ground arith)
      ∙ ap (λ s. write (within s c) rest) zero_next

  -- Between two scalar values, the octets of a scalar value are accepted whatever follows, and leave
  -- the machine between scalar values with that value as its code point.
  pub write-encode :
      (c k : ℕ) → IsScalar c → write (clean k) (encode c ++ rest) ≡ write (clean c) rest
  write-encode c k sc = elim (sizes c sc) [
    | inl a ↦ encode_1_go c k a
    | inr (inl (l, h)) ↦ encode_2_go c k l h
    | inr (inr (inl (l, h, n))) ↦ encode_3_go c k l h n
    | inr (inr (inr (l, h))) ↦ encode_4_go c k l h
  ]
    where
      sizes :
          (c : ℕ)
          → IsScalar c
          → (c < 0x80)
            ⊎ (((0x80 ≤ c) × (c < 0x800))
                ⊎ (((0x800 ≤ c) × (c < 0x10000) × ((c < 0xd800) ⊎ (0xe000 ≤ c)))
                    ⊎ ((0x10000 ≤ c) × (c < 0x110000))))
      sizes c sc = ground arith
