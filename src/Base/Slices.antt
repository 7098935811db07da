-- ===== src/Base/Slices.antt =====
-- Parts of lists by native numbers, and the bytes of a sequence of buffers.
use Prim.Native.Nat.{ℕ, zero, suc, ◌+◌, ◌-◌, ◌≤◌, min}
use mathlib.Core.Logic.{◌⊎◌, inl, inr}
use mathlib.Core.Path.{◌≡◌, refl, sym, ap, ◌∙◌}
use mathlib.Core.List.{List, [], ◌∷◌, ◌++◌, append_assoc}
use native.Mathlib.Omega.{arith}
use beast.Base.Lists.{length, take, drop, All}

ℕ-split : (n m : ℕ) → (min n m ≡ n) ⊎ (min n m ≡ m × m ≤ n)
ℕ-split n m = omega arith

module _ {ℓ} {A : Type ℓ} where
  -- The elements of a list of lists, in order.
  abbrev pub flat : List (List A) → List A
  flat [] = []
  flat (b ∷ bs) = b ++ flat bs

  pub flat-append : (bs cs : List (List A)) → flat (bs ++ cs) ≡ flat bs ++ flat cs
  flat-append [] cs = refl
  flat-append (b ∷ bs) cs = rw (flat-append bs cs, append_assoc b (flat bs) (flat cs))

  pub take_zero : (n : ℕ) (xs : List A) → n ≡ 0 → take n xs ≡ []
  take_zero n xs e = rw e refl

  pub take_all : (n : ℕ) (xs : List A) → length xs ≤ n → take n xs ≡ xs
  take_all zero [] h = refl
  take_all zero (x ∷ xs) h = absurd (omega arith)
  take_all (suc n) [] h = refl
  take_all (suc n) (x ∷ xs) h = ap (◌∷◌ x) (take_all n xs (omega arith))

  pub drop_all : (n : ℕ) (xs : List A) → length xs ≤ n → drop n xs ≡ []
  drop_all zero [] h = refl
  drop_all zero (x ∷ xs) h = absurd (omega arith)
  drop_all (suc n) [] h = refl
  drop_all (suc n) (x ∷ xs) h = drop_all n xs (omega arith)

  pub drop-append_le :
      (n : ℕ) (xs ys : List A) → n ≤ length xs → drop n (xs ++ ys) ≡ drop n xs ++ ys
  drop-append_le zero xs ys h = refl
  drop-append_le (suc n) [] ys h = absurd (omega arith)
  drop-append_le (suc n) (x ∷ xs) ys h = drop-append_le n xs ys (omega arith)

  pub drop-append_ge :
      (n : ℕ) (xs ys : List A) → length xs ≤ n → drop n (xs ++ ys) ≡ drop (n - length xs) ys
  drop-append_ge n [] ys h = ap (λ m. drop m ys) (omega arith)
  drop-append_ge zero (x ∷ xs) ys h = absurd (omega arith)
  drop-append_ge (suc n) (x ∷ xs) ys h =
      drop-append_ge n xs ys (omega arith) ∙ ap (λ m. drop m ys) (omega arith)

  pub take-append_le : (n : ℕ) (xs ys : List A) → n ≤ length xs → take n (xs ++ ys) ≡ take n xs
  take-append_le zero xs ys h = refl
  take-append_le (suc n) [] ys h = absurd (omega arith)
  take-append_le (suc n) (x ∷ xs) ys h = ap (◌∷◌ x) (take-append_le n xs ys (omega arith))

  pub take-append_ge :
      (n : ℕ) (xs ys : List A) → length xs ≤ n → take n (xs ++ ys) ≡ xs ++ take (n - length xs) ys
  take-append_ge n [] ys h = ap (λ m. take m ys) (omega arith)
  take-append_ge zero (x ∷ xs) ys h = absurd (omega arith)
  take-append_ge (suc n) (x ∷ xs) ys h =
      ap (◌∷◌ x) (take-append_ge n xs ys (omega arith) ∙ ap (λ m. xs ++ take m ys) (omega arith))

  pub drop-drop : (n m : ℕ) (xs : List A) → drop m (drop n xs) ≡ drop (n + m) xs
  drop-drop zero m xs = ap (λ k. drop k xs) (omega arith)
  drop-drop (suc n) m [] = drop_all m [] (omega arith) ∙ sym (drop_all (suc n + m) [] (omega arith))
  drop-drop (suc n) m (x ∷ xs) =
      let e : suc (n + m) ≡ suc n + m = omega arith in
      drop-drop n m xs ∙ ap (λ k. drop k (x ∷ xs)) e

  -- A part taken, and a part behind it, are one part.
  pub take-append-take-drop :
      (n m : ℕ) (xs : List A) → take n xs ++ take m (drop n xs) ≡ take (n + m) xs
  take-append-take-drop zero m xs = ap (λ k. take k xs) (omega arith)
  take-append-take-drop (suc n) m [] =
      take_all m [] (omega arith) ∙ sym (take_all (suc n + m) [] (omega arith))
  take-append-take-drop (suc n) m (x ∷ xs) =
      let e : suc (n + m) ≡ suc n + m = omega arith in
      ap (◌∷◌ x) (take-append-take-drop n m xs) ∙ ap (λ k. take k (x ∷ xs)) e

  pub take-min : (n : ℕ) (xs : List A) → take (min n (length xs)) xs ≡ take n xs
  take-min n xs = elim (ℕ-split n (length xs)) [
    | inl h ↦ ap (λ k. take k xs) h
    | inr h ↦ rw h.0 (take_all (length xs) xs (omega arith) ∙ sym (take_all n xs h.1))
  ]

  pub drop-min : (n : ℕ) (xs : List A) → drop (min n (length xs)) xs ≡ drop n xs
  drop-min n xs = elim (ℕ-split n (length xs)) [
    | inl h ↦ ap (λ k. drop k xs) h
    | inr h ↦ rw h.0 (drop_all (length xs) xs (omega arith) ∙ sym (drop_all n xs h.1))
  ]

  pub take-take : (n m : ℕ) (xs : List A) → take n (take m xs) ≡ take (min n m) xs
  take-take zero m xs = sym (take_zero (min 0 m) xs (omega arith))
  take-take (suc n) zero xs = sym (take_zero (min (suc n) 0) xs (omega arith))
  take-take (suc n) (suc m) [] = sym (take_all (min (suc n) (suc m)) [] (omega arith))
  take-take (suc n) (suc m) (x ∷ xs) =
      let e : suc (min n m) ≡ min (suc n) (suc m) = omega arith in
      ap (◌∷◌ x) (take-take n m xs) ∙ ap (λ k. take k (x ∷ xs)) e

  pub drop-take : (n m : ℕ) (xs : List A) → drop n (take m xs) ≡ take (m - n) (drop n xs)
  drop-take zero m xs = ap (λ k. take k xs) (omega arith)
  drop-take (suc n) zero xs = sym (take_zero (0 - suc n) (drop (suc n) xs) (omega arith))
  drop-take (suc n) (suc m) [] = sym (take_all (suc m - suc n) [] (omega arith))
  drop-take (suc n) (suc m) (x ∷ xs) =
      let e : m - n ≡ suc m - suc n = omega arith in
      drop-take n m xs ∙ ap (λ k. take k (drop n xs)) e

  -- The rest of a part, behind at most `n` elements of it.
  pub drop-take-drop :
      (n m a : ℕ) (xs : List A)
      → drop n (take m (drop a xs)) ≡ take (m - min n m) (drop (a + min n m) xs)
  drop-take-drop n m a xs = elim (ℕ-split n m) [
    | inl h ↦ rw h (drop-take n m (drop a xs) ∙ ap (take (m - n)) (drop-drop a n xs))
    | inr h ↦
        drop-take n m (drop a xs)
        ∙ take_zero (m - n) (drop n (drop a xs)) (omega (arith, h.1))
        ∙ sym (take_zero (m - min n m) (drop (a + min n m) xs) (omega (arith, h.0)))
  ]

module _ {ℓ κ} {A : Type ℓ} where
  pub All-append : (P : A → Type κ) (xs ys : List A) → All P xs → All P ys → All P (xs ++ ys)
  All-append P [] ys p q = q
  All-append P (x ∷ xs) ys p q = (p.0, All-append P xs ys p.1 q)
