-- ===== src/Core/CiChar.antt =====
-- core/detail/ci_char_traits.hpp: strings compared without the case of their letters. A `char` is
-- its octet. Whether `char` is signed is the platform's choice, and a parameter.
use beast.Base.{
  ℕ, ◌+◌, ◌%◌, ◌≡◌, ◌≤◌, ◌<◌, ◌⊎◌, inl, inr, refl, Bool, true, false, ◌&&◌, ltb, leb, ◌==◌,
  if◌then◌else◌, Bytes, [], ◌∷◌, All, arith,
}

-- The octet of `tolower`: its table, by the ranges.
unfoldable pub tolower : ℕ → ℕ
tolower c = if leb 65 c && leb c 90 then c + 32 else c

-- Where a `char` stands among the values of its type: those from 128 on are negative where it is
-- signed.
unfoldable char_order : Bool → ℕ → ℕ
char_order signed c = if signed then (c + 128) % 256 else c

-- `<` on `char`s.
abbrev char_less : Bool → ℕ → ℕ → Bool
char_less signed c d = ltb (char_order signed c) (char_order signed d)

unfoldable pub ci_equal : Bytes → Bytes → Bool
unfolding tolower
ci_equal [] [] = true
ci_equal [] (d ∷ ds) = false
ci_equal (c ∷ cs) [] = false
ci_equal (c ∷ cs) (d ∷ ds) = (tolower c == tolower d) && ci_equal cs ds

-- `ci_less`, which is `std::lexicographical_compare` by the lower letters.
unfoldable pub ci_less : Bool → Bytes → Bytes → Bool
unfolding tolower char_order
ci_less signed cs [] = false
ci_less signed [] (d ∷ ds) = true
ci_less signed (c ∷ cs) (d ∷ ds) =
    let rest = ci_less signed cs ds in
    if char_less signed (tolower c) (tolower d)
    then true
    else if char_less signed (tolower d) (tolower c)
    then false
    else rest

-- `c` is a capital letter, and `d` its small one.
abbrev Lowers : ℕ → ℕ → Type 0
Lowers c d = (65 ≤ c) × (c ≤ 90) × (d ≡ c + 32)

-- The same character, but for the case of a letter of ASCII.
abbrev pub SameLetter : ℕ → ℕ → Type 0
SameLetter c d = (c ≡ d) ⊎ Lowers c d ⊎ Lowers d c

abbrev pub SameText : Bytes → Bytes → Type 0
SameText [] [] = Unit
SameText (c ∷ cs) (d ∷ ds) = SameLetter c d × SameText cs ds
SameText _ _ = ⊥

-- `a` is what `c` is compared as.
abbrev Folds : ℕ → ℕ → Type 0
Folds c a = Lowers c a ⊎ (((c < 65) ⊎ (90 < c)) × (a ≡ c))

-- Of two octets, the first is the lesser `char`.
abbrev Below : Bool → ℕ → ℕ → Type 0
Below false a b = a < b
Below true a b = ((128 ≤ a) × (b < 128)) ⊎ ((a < b) × ((b < 128) ⊎ (128 ≤ a)))

abbrev LetterBelow : Bool → ℕ → ℕ → Type 0
LetterBelow signed c d = (a : ℕ) × (b : ℕ) × Folds c a × Folds d b × Below signed a b

-- The order of a dictionary.
pub data Precedes (signed : Bool) : Bytes → Bytes → Type 0 where
  ends : {d : ℕ} {ds : Bytes} → Precedes signed [] (d ∷ ds)
  differs : {c d : ℕ} {cs ds : Bytes} → LetterBelow signed c d → Precedes signed (c ∷ cs) (d ∷ ds)
  agrees :
      {c d : ℕ} {cs ds : Bytes}
      → SameLetter c d
      → Precedes signed cs ds
      → Precedes signed (c ∷ cs) (d ∷ ds)

-- What the three comparisons of two strings give.
pub data Compared (signed : Bool) (cs ds : Bytes) : Bool → Bool → Bool → Type 0 where
  precedes : Precedes signed cs ds → Compared signed cs ds true false false
  same : SameText cs ds → Compared signed cs ds false true false
  follows : Precedes signed ds cs → Compared signed cs ds false false true

tolower-lt : (c : ℕ) → c < 256 → tolower c < 256
unfolding tolower
tolower-lt c p = ground arith

tolower-Folds : (c : ℕ) → Folds c (tolower c)
unfolding tolower
tolower-Folds c = ground arith

tolower-SameLetter : (c d : ℕ) → tolower c ≡ tolower d → SameLetter c d
unfolding tolower
tolower-SameLetter c d e = ground arith

-- The tests that a round of the comparisons makes.
abbrev Tests : Bool → ℕ → ℕ → Bool → Bool → Bool → Type 0
Tests signed a b x y z = (char_less signed a b ≡ x) × ((a == b) ≡ y) × (char_less signed b a ≡ z)

chars :
    (signed : Bool) (a b : ℕ)
    → a < 256
    → b < 256
    → (Tests signed a b true false false × Below signed a b)
      ⊎ (Tests signed a b false false true × Below signed b a)
      ⊎ (Tests signed a b false true false × (a ≡ b))
unfolding char_order
chars true a b p q = ground arith
chars false a b p q = ground arith

lower_below :
    (signed : Bool) (c d : ℕ) → Below signed (tolower c) (tolower d) → LetterBelow signed c d
lower_below signed c d h = (tolower c, tolower d, tolower-Folds c, tolower-Folds d, h)

SameLetter-sym : (c d : ℕ) → SameLetter c d → SameLetter d c
SameLetter-sym c d h = ground arith

agree :
    (signed : Bool) (c d : ℕ) (cs ds : Bytes) (x y z : Bool)
    → SameLetter c d
    → Compared signed cs ds x y z
    → Compared signed (c ∷ cs) (d ∷ ds) x y z
agree signed c d cs ds true false false l (precedes p) = precedes (agrees l p)
agree signed c d cs ds false true false l (same e) = same (l, e)
agree signed c d cs ds false false true l (follows p) = follows (agrees (SameLetter-sym c d l) p)
agree signed c d cs ds false false false l m = elim m [ ]
agree signed c d cs ds false true true l m = elim m [ ]
agree signed c d cs ds true false true l m = elim m [ ]
agree signed c d cs ds true true z l m = elim m [ ]

less_trans :
    (x y z : ℕ) (r s t : Bool)
    → (r ≡ true → s ≡ true → t ≡ true)
    → (if ltb x y then true else if ltb y x then false else r) ≡ true
    → (if ltb y z then true else if ltb z y then false else s) ≡ true
    → (if ltb x z then true else if ltb z x then false else t) ≡ true
less_trans x y z r s t f h k = ground (arith, f)

module _ (signed : Bool) where
  -- For octets, and `char` signed or not, one of three holds: the first text stands before the
  -- second in the order of a dictionary, by the values of the `char`s, where a capital letter counts
  -- as its small one; both are the same but for the case of letters of ASCII; or the second stands
  -- before the first. Of `ci_less`, `ci_equal` and `ci_less` the other way round, the one for that
  -- case is true, and the others are false.
  pub ci_less-ci_equal :
      (cs ds : Bytes)
      → All (λ c. c < 256) cs
      → All (λ d. d < 256) ds
      → Compared signed cs ds (ci_less signed cs ds) (ci_equal cs ds) (ci_less signed ds cs)
  unfolding ci_less ci_equal
  ci_less-ci_equal [] [] p q = same tt
  ci_less-ci_equal [] (d ∷ ds) p q = precedes ends
  ci_less-ci_equal (c ∷ cs) [] p q = follows ends
  ci_less-ci_equal (c ∷ cs) (d ∷ ds) p q =
      let rest = ci_less-ci_equal cs ds p.1 q.1 in
      elim (chars signed (tolower c) (tolower d) (tolower-lt c p.0) (tolower-lt d q.0)) [
        | inl (t, b) ↦ rw (t.0, t.1, t.2) (precedes (differs (lower_below signed c d b)))
        | inr (inl (t, b)) ↦ rw (t.0, t.1, t.2) (follows (differs (lower_below signed d c b)))
        | inr (inr (t, e)) ↦
            rw (t.0, t.1, t.2)
              (agree signed c d cs ds (ci_less signed cs ds) (ci_equal cs ds) (ci_less signed ds cs)
                (tolower-SameLetter c d e) rest)
      ]

  -- The order is transitive.
  pub ci_less_trans :
      (bs cs ds : Bytes)
      → ci_less signed bs cs ≡ true
      → ci_less signed cs ds ≡ true
      → ci_less signed bs ds ≡ true
  unfolding ci_less
  ci_less_trans bs cs [] h k = k
  ci_less_trans [] [] (d ∷ ds) h k = refl
  ci_less_trans (b ∷ bs) [] (d ∷ ds) h k = absurd (ground arith)
  ci_less_trans [] (c ∷ cs) (d ∷ ds) h k = refl
  ci_less_trans (b ∷ bs) (c ∷ cs) (d ∷ ds) h k =
      less_trans (char_order signed (tolower b)) (char_order signed (tolower c))
        (char_order signed (tolower d)) _ _ _ (ci_less_trans bs cs ds) h k
