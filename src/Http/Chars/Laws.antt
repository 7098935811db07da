-- ===== src/Http/Chars/Laws.antt =====
-- The tables against the classes of RFC 7230.
use beast.Base.{
  ℕ, ◌+◌, ◌-◌, ◌<◌, ◌≡◌, refl, Bool, true, false, not, ◌&&◌, ◌||◌, ltb, leb, ◌==◌, if◌then◌else◌,
  holds_below, holds_below_sound, agree_below_sound, Option, none, some, arith,
}
use beast.Http.Chars.{is_alpha, is_text, is_tchar, to_field_char, to_value_char, unhex}

abbrev between : ℕ → ℕ → ℕ → Bool
between lo hi c = leb lo c && leb c hi

-- RFC 7230 appendix B: `tchar`, and RFC 5234: `HEXDIG` with its value.
abbrev letter : ℕ → Bool
letter c = between b'a' b'z' c || between b'A' b'Z' c

abbrev pub tchar : ℕ → Bool
tchar c =
    c == b'!'
    || c == b'#'
    || c == b'$'
    || c == b'%'
    || c == b'&'
    || c == 39
    || c == b'*'
    || c == b'+'
    || c == b'-'
    || c == b'.'
    || c == b'^'
    || c == b'_'
    || c == 96
    || c == b'|'
    || c == b'~'
    || between b'0' b'9' c
    || letter c

-- Horizontal tab, and what is neither a control nor DEL.
abbrev pub text_char : ℕ → Bool
text_char c = c == 9 || leb 32 c && not (c == 127)

abbrev pub lower : ℕ → ℕ
lower c = if between b'A' b'Z' c then c + 32 else c

abbrev same : Bool → Bool → Bool
same true b = b
same false b = not b

same-eq : (a b : Bool) → same a b ≡ true → a ≡ b
same-eq a b h = ground arith

agree :
    (f g : ℕ → Bool)
    → holds_below 256 (λ c. same (f c) (g c)) ≡ true
    → (c : ℕ) → c < 256
    → f c ≡ g c
agree f g h c lt = same-eq (f c) (g c) (holds_below_sound 256 _ c h lt)

is_tchar-tchar : (c : ℕ) → c < 256 → is_tchar c ≡ tchar c
unfolding is_tchar holds_below
is_tchar-tchar = agree _ _ refl

is_text-text_char : (c : ℕ) → c < 256 → is_text c ≡ text_char c
unfolding is_text holds_below
is_text-text_char = agree _ _ refl

is_alpha-letter : (c : ℕ) → c < 256 → is_alpha c ≡ letter c
unfolding is_alpha holds_below
is_alpha-letter = agree _ _ refl

field_char_table : (c : ℕ) → c < 256 → to_field_char c ≡ (if tchar c then lower c else 0)
unfolding to_field_char holds_below
field_char_table = agree_below_sound 256 _ _ refl

value_char_table : (c : ℕ) → c < 256 → to_value_char c ≡ (if text_char c then lower c else 0)
unfolding to_value_char holds_below
value_char_table = agree_below_sound 256 _ _ refl

-- On every octet the tables give the classes of RFC 7230: token characters, text, and the two
-- translations to lower case, which are zero exactly outside their class.
pub tables-classes :
    (c : ℕ)
    → c < 256
    → (is_tchar c ≡ tchar c)
      × (is_text c ≡ text_char c)
      × (to_field_char c ≡ (if is_tchar c then lower c else 0))
      × (to_value_char c ≡ (if is_text c then lower c else 0))
tables-classes c h = (
  is_tchar-tchar c h,
  is_text-text_char c h,
  rw (is_tchar-tchar c h) (field_char_table c h),
  rw (is_text-text_char c h) (value_char_table c h),
)

-- The value of a hexadecimal digit.
abbrev pub hex_value : ℕ → Option ℕ
hex_value c =
    if between b'0' b'9' c
    then some (c - b'0')
    else if between b'a' b'f' c
    then some (c - b'a' + 10)
    else if between b'A' b'F' c
    then some (c - b'A' + 10)
    else none

abbrev same_value : Option ℕ → Option ℕ → Bool
same_value none none = true
same_value (some a) (some b) = a == b
same_value _ _ = false

same_value-eq : (a b : Option ℕ) → same_value a b ≡ true → a ≡ b
same_value-eq none none h = refl
same_value-eq (some a) (some b) h = ground arith
same_value-eq none (some b) h = cc
same_value-eq (some a) none h = cc

unhex_table :
    holds_below 256 (λ c. same_value (unhex c) (if ltb c 128 then hex_value c else some 0)) ≡ true
unfolding unhex holds_below
unhex_table = refl

-- On every octet: below 128, `unhex` gives the value of a hexadecimal digit and -1 for anything
-- else; from 128 on it gives 0, as for the digit 0, since the table stops there.
pub unhex_lem : (c : ℕ) → c < 256 → unhex c ≡ (if ltb c 128 then hex_value c else some 0)
unhex_lem c h = same_value-eq _ _ (holds_below_sound 256 _ c unhex_table h)

pub unhex-lt : (c v : ℕ) → c < 256 → unhex c ≡ some v → v < 16
unhex-lt c v h e = ground (arith, unhex_lem c h)
