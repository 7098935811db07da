-- ===== src/Http/Parser/Numbers.antt =====
-- The numbers that the parser reads digit by digit: the size of a chunk and the content length.
use beast.Base.{
  ℕ, append-nil, append_assoc, ◌/◌, ◌⊎◌, inl, inr, suc, ◌+◌, ◌-◌, ◌*◌, ◌^◌, ◌≤◌, ◌<◌, ◌≡◌, ap, refl,
  sym, ◌∙◌, true, false, Bool, none, some, Bytes, [], ◌∷◌, ◌++◌, length, All, arith, ltb, ◌==◌,
  Option,
}
use mathlib.Core.Path.{subst}
use beast.Http.Chars.{unhex}
use beast.Http.Chars.Laws.{hex_value, unhex_lem}
use beast.Http.Parser.Chunks.{at_chunk_size0, at_chunk_size}
use beast.Http.Parser.Outcome.{Outcome, next, ret, stay}
use beast.Http.Parser.Types.{
  no_content_length, dead, chunk_size0, chunk_size, bad_content_length, Derived, Parser,
}
use beast.Http.Parser.Write.{at_state, round, loop, write_buffer}

-- The number that digits spell behind the number `n`.
abbrev pub number : ℕ → (ℕ → ℕ) → ℕ → Bytes → ℕ
number base digit n [] = n
number base digit n (c ∷ cs) = number base digit (n * base + digit c) cs

abbrev pub or_zero : Option ℕ → ℕ
or_zero none = 0
or_zero (some v) = v

abbrev pub hex : ℕ → ℕ
hex c = or_zero (hex_value c)

-- A hexadecimal digit.
abbrev pub IsHex : ℕ → Type 0
IsHex c = (c < 128) × (hex_value c ≡ some (hex c))

number-≥ :
    (base : ℕ) (digit : ℕ → ℕ) (n : ℕ) (cs : Bytes)
    → ((m : ℕ) → m ≤ m * base)
    → n ≤ number base digit n cs
number-≥ base digit n [] h = omega arith
number-≥ base digit n (c ∷ cs) h = omega (arith, h n, number-≥ base digit (n * base + digit c) cs h)

-- A parser that reads the size of a chunk and has read `n` so far.
abbrev pub sized : {S : Type 0} → Parser S → ℕ → Bytes → Parser S
sized p n bs = record p { s = chunk_size; cb = none; content_length = n; piece = bs }

module _ {S : Type 0} (is_request : Bool) (d : Derived S) (p : Parser S) (bs : Bytes) where
  unhex-hex : (c : ℕ) → IsHex c → unhex c ≡ some (hex c)
  unhex-hex c h = unhex_lem c (omega (arith, h.0)) ∙ ground (arith, h.0, h.1)

  round-hex :
      (c : ℕ) (rest : Bytes) (n : ℕ)
      → IsHex c
      → n * 16 + hex c < 2 ^ 64 - 16
      → round is_request d (sized p n bs) c rest ≡ next (sized p (n * 16 + hex c) bs) 0
  unfolding round at_state at_chunk_size
  round-hex c rest n h l = rw (unhex-hex c h, not_cr, not_semicolon, fits) refl
    where
      not_cr : (c == 13) ≡ false
      not_cr = ground (arith, h.1)

      not_semicolon : (c == 59) ≡ false
      not_semicolon = ground (arith, h.1)

      fits : ltb ((no_content_length - 16) / 16) n ≡ false
      fits = ground arith

  round-hex0 :
      (c : ℕ) (rest : Bytes)
      → IsHex c
      → round is_request d (record p { s = chunk_size0; cb = none; piece = bs }) c rest
        ≡ next (sized p (hex c) bs) 0
  unfolding round at_state at_chunk_size0
  round-hex0 c rest h = rw (unhex-hex c h) refl

  round-hex-too_large :
      (c : ℕ) (rest : Bytes) (n : ℕ)
      → IsHex c
      → 2 ^ 64 - 16 ≤ n * 16 + hex c
      → round is_request d (sized p n bs) c rest
        ≡ ret (record (sized p n bs) { s = dead; ec = some bad_content_length }) 0
  unfolding round at_state at_chunk_size
  round-hex-too_large c rest n h l = rw (unhex-hex c h, not_cr, not_semicolon, large) refl
    where
      not_cr : (c == 13) ≡ false
      not_cr = ground (arith, h.1)

      not_semicolon : (c == 59) ≡ false
      not_semicolon = ground (arith, h.1)

      large : ltb ((no_content_length - 16) / 16) n ≡ true
      large = ground (arith, h.1)

-- What reading the digits `ds` of a chunk's size gives, behind the number `n`.
abbrev pub SizeRead : {S : Type 0} → Parser S → ℕ → ℕ → Bytes → Bytes → Parser S × ℕ → Type 0
SizeRead p used n bs ds r =
    ((number 16 hex n ds < 2 ^ 64 - 16)
      × (r ≡ (sized p (number 16 hex n ds) (bs ++ ds), used + length ds)))
    ⊎ ((2 ^ 64 - 16 ≤ number 16 hex n ds) × (r.0.s ≡ dead) × (r.0.ec ≡ some bad_content_length))

at_most_or_above : (a b : ℕ) → (a ≤ b) ⊎ (b < a)
at_most_or_above a b = ground arith

-- The piece and the count of a loop that has read one digit more.
SizeRead-suc :
    {S : Type 0} (p : Parser S) (used n c : ℕ) (bs ds : Bytes) (r : Parser S × ℕ)
    → SizeRead p (used + 1) (n * 16 + hex c) (bs ++ c ∷ []) ds r
    → SizeRead p used n bs (c ∷ ds) r
SizeRead-suc p used n c bs ds r (inr h) = inr h
SizeRead-suc p used n c bs ds r (inl h) = inl (
  h.0,
  h.1 ∙ λ i. (
    sized p (number 16 hex (n * 16 + hex c) ds) (append_assoc bs (c ∷ []) ds i),
    later (length ds) i,
  ),
)
  where
    later : (m : ℕ) → used + 1 + m ≡ used + suc m
    later m = omega arith

module _ {S : Type 0} (is_request : Bool) (d : Derived S) (p : Parser S) where
  loop-hex :
      (used : ℕ) (n : ℕ) (bs ds : Bytes)
      → All IsHex ds
      → n < 2 ^ 64 - 16
      → SizeRead p used n bs ds (loop is_request d used (sized p n bs) 0 ds)
  unfolding loop
  loop-hex used n bs [] h l = inl (l, λ i. (sized p n (sym (append-nil bs) i), add_zero i))
    where
      add_zero : used ≡ used + 0
      add_zero = omega arith
  loop-hex used n bs (c ∷ ds) h l = elim (at_most_or_above (2 ^ 64 - 16) (n * 16 + hex c)) [
    | inl y ↦
        subst after (sym (round-hex-too_large is_request d p bs c ds n h.0 y)) (
          inr
            (omega (arith, y, number-≥ 16 hex (n * 16 + hex c) ds (λ m. omega arith)), refl, refl))
    | inr m ↦ subst after (sym (round-hex is_request d p bs c ds n h.0 m)) (
        SizeRead-suc p used n c bs ds _
          (loop-hex (used + 1) (n * 16 + hex c) (bs ++ c ∷ []) ds h.1 m))
  ]
    where
      after : Outcome S → Type 0
      after o = SizeRead p used n bs (c ∷ ds) (elim o [
        | next q n ↦ loop is_request d (used + 1) (record q { piece = q.piece ++ c ∷ [] }) n ds
        | ret q n ↦ (q, used + n)
        | stay q ↦ (q, used)
      ])

  -- For hexadecimal digits of either case, and a parser that is in the middle of a chunk's size and
  -- whose number so far is in range: writing the digits either reads them all, and the content
  -- length is the number that they spell, or that number is at least 2^64 - 16, the parser is dead
  -- and the error is `bad_content_length`. The size never wraps around.
  pub write_buffer-hex :
      (n : ℕ) (bs : Bytes) (c : ℕ) (ds : Bytes)
      → All IsHex (c ∷ ds)
      → n < 2 ^ 64 - 16
      → SizeRead p 0 n [] (c ∷ ds) (write_buffer is_request d (sized p n bs) (c ∷ ds))
  unfolding write_buffer
  write_buffer-hex n bs c ds h l = rw nonempty (loop-hex 0 n [] (c ∷ ds) h l)
    where
      nonempty : (suc (length ds) == 0) ≡ false
      nonempty = ground arith

  -- The same from the state before the size, where the number is in range.
  pub write_buffer-size0 :
      (c : ℕ) (ds : Bytes)
      → All IsHex (c ∷ ds)
      → number 16 hex (hex c) ds < 2 ^ 64 - 16
      → write_buffer is_request d (record p { s = chunk_size0; cb = none }) (c ∷ ds)
        ≡ (sized p (number 16 hex (hex c) ds) (c ∷ ds), suc (length ds))
  unfolding write_buffer
  write_buffer-size0 c ds h l = rw nonempty (
      subst after (sym (round-hex0 is_request d p [] c ds h.0))
        (in_range (loop-hex 1 (hex c) (c ∷ []) ds h.1 small)))
    where
      nonempty : (suc (length ds) == 0) ≡ false
      nonempty = ground arith

      small : hex c < 2 ^ 64 - 16
      small = omega (arith, l, number-≥ 16 hex (hex c) ds (λ m. omega arith))

      one_more : (m : ℕ) → 1 + m ≡ suc m
      one_more m = omega arith

      in_range :
          {r : Parser S × ℕ}
          → SizeRead p 1 (hex c) (c ∷ []) ds r
          → r ≡ (sized p (number 16 hex (hex c) ds) (c ∷ ds), suc (length ds))
      in_range (inl x) =
          x.1 ∙ ap (λ m. (sized p (number 16 hex (hex c) ds) (c ∷ ds), m)) (one_more (length ds))
      in_range (inr x) = absurd (omega (arith, l, x.0))

      after : Outcome S → Type 0
      after o =
          elim o [
            | next q n ↦ loop is_request d (0 + 1) (record q { piece = q.piece ++ c ∷ [] }) n ds
            | ret q n ↦ (q, 0 + n)
            | stay q ↦ (q, 0)
          ]
          ≡ (sized p (number 16 hex (hex c) ds) (c ∷ ds), suc (length ds))
