-- ===== src/Http/Rfc7230/Unquote.antt =====
-- Quoted strings: what the loop over one has gone past, `unquote` reads within its quotes.
use beast.Base.{
  ℕ, ◌-◌, ◌≡◌, inl, inr, refl, sym, ap, ◌∙◌, Bool, true, false, not, ◌&&◌, ◌||◌, ◌==◌,
  if◌then◌else◌, Bool-cases, Option, none, some, Bytes, [], ◌∷◌, ◌++◌, length, take, All, arith,
  length-append, take-append_le, take_all, append_assoc,
}
use beast.Http.Chars.{is_qdchar, is_qpchar}
use beast.Http.Rfc7230.{between, quoted, unescape, unquote, param_plain}
use beast.Http.Rfc7230.Spans.{between-append}

-- Neither a quote nor a backslash is an ordinary character of a quoted string.
quote_qdchar : is_qdchar 34 ≡ false
unfolding is_qdchar
quote_qdchar = refl

backslash_qdchar : is_qdchar 92 ≡ false
unfolding is_qdchar
backslash_qdchar = refl

qdchar-backslash : (c : ℕ) → is_qdchar c ≡ true → (c == 92) ≡ false
qdchar-backslash c h = elim (Bool-cases (c == 92)) [
  | inl y ↦
      let e : c ≡ 92 = ground (arith, y) in
      absurd (ground (arith, ap is_qdchar e, backslash_qdchar, h))
  | inr n ↦ n
]

-- A result that is there.
abbrev pub IsSome {ℓ} : {A : Type ℓ} → Option A → Type 0
IsSome none = ⊥
IsSome (some a) = Unit

-- Where a quoted string leaves: its body up to the closing quote can be unescaped.
pub record Body (escaped : Bool) (cs rest : Bytes) : Type 0 where
  pub body : Bytes
  pub split : cs ≡ body ++ (34 ∷ rest)
  pub plain : Bytes
  pub readable : unescape escaped body ≡ some plain

-- A character that stands for itself, in front of a body.
unescape_char :
    (escaped : Bool) (c : ℕ) (body plain : Bytes)
    → (not escaped && (c == 92)) ≡ false
    → unescape false body ≡ some plain
    → unescape escaped (c ∷ body) ≡ some (c ∷ plain)
unfolding unescape
unescape_char true c body plain h e = rw e refl
unescape_char false c body plain h e = rw (h, e) refl

unescape_backslash : (body : Bytes) → unescape false (92 ∷ body) ≡ unescape true body
unfolding unescape
unescape_backslash body = refl

char_Body :
    (escaped : Bool) (c : ℕ) (cs rest : Bytes)
    → (not escaped && (c == 92)) ≡ false
    → Body false cs rest
    → Body escaped (c ∷ cs) rest
char_Body escaped c cs rest h b = record {
  body = c ∷ b.body;
  split = ap (λ t. c ∷ t) b.split;
  plain = c ∷ b.plain;
  readable = unescape_char escaped c b.body b.plain h b.readable;
}

unescape_nil : unescape false [] ≡ some []
unfolding unescape
unescape_nil = refl

backslash_Body : (cs rest : Bytes) → Body true cs rest → Body false (92 ∷ cs) rest
backslash_Body cs rest b = record {
  body = 92 ∷ b.body;
  split = ap (λ t. 92 ∷ t) b.split;
  plain = b.plain;
  readable = unescape_backslash b.body ∙ b.readable;
}

pub quoted-Body :
    (escaped : Bool) (cs rest : Bytes) → quoted escaped cs ≡ some rest → Body escaped cs rest
unfolding quoted
quoted-Body escaped [] rest e = absurd (ground (arith, e))
quoted-Body true (c ∷ cs) rest e = elim (Bool-cases (is_qpchar c)) [
  | inl y ↦ char_Body true c cs rest refl (quoted-Body false cs rest (ground (arith, y, e)))
  | inr n ↦ absurd (ground (arith, n, e))
]
quoted-Body false (c ∷ cs) rest e = elim (Bool-cases (c == 34)) [
  | inl y ↦
      let end : cs ≡ rest = ground (arith, y, e) in
      let quote : c ≡ 34 = ground (arith, y) in
      record { body = []; split = rw (end, quote) refl; plain = []; readable = unescape_nil }
  | inr n ↦ elim (Bool-cases (is_qdchar c)) [
    | inl y ↦
        let later : quoted false cs ≡ some rest = ground (arith, n, y, e) in
        char_Body false c cs rest (qdchar-backslash c y) (quoted-Body false cs rest later)
    | inr m ↦ elim (Bool-cases (c == 92)) [
      | inl y ↦
          let later : quoted true cs ≡ some rest = ground (arith, n, m, y, e) in
          let backslash : c ≡ 92 = ground (arith, y) in
          rw backslash (backslash_Body cs rest (quoted-Body true cs rest later))
      | inr k ↦ absurd (ground (arith, n, m, k, e))
    ]
  ]
]

-- The text between the quotes.
inner : (body : Bytes) → take (length (34 ∷ (body ++ (34 ∷ []))) - 2) (body ++ (34 ∷ [])) ≡ body
inner body =
    let k : length (34 ∷ (body ++ (34 ∷ []))) - 2 ≡ length body =
      omega (arith, length-append body (34 ∷ [])) in
    rw k (
      take-append_le (length body) body (34 ∷ []) (omega arith)
      ∙ take_all (length body) body (omega arith))

-- A quoted string that the loop goes past is one that `unquote` can read.
pub param_plain-quoted :
    (cs rest : Bytes) → quoted false cs ≡ some rest → IsSome (param_plain (between (34 ∷ cs) rest))
unfolding param_plain unquote
param_plain-quoted cs rest e =
    let b = quoted-Body false cs rest e in
    let value : between (34 ∷ cs) rest ≡ 34 ∷ (b.body ++ (34 ∷ [])) =
      ap (λ t. between (34 ∷ t) rest) (b.split ∙ sym (append_assoc b.body (34 ∷ []) rest))
      ∙ between-append (34 ∷ (b.body ++ (34 ∷ []))) rest in
    rw (value, inner b.body, b.readable) tt

-- A text written as a quoted string: a backslash in front of what is not an ordinary character.
abbrev pub escape : Bytes → Bytes
escape [] = []
escape (c ∷ cs) = let rest = escape cs in if is_qdchar c then c ∷ rest else 92 ∷ (c ∷ rest)

abbrev pub quote : Bytes → Bytes
quote s = 34 ∷ (escape s ++ (34 ∷ []))

-- What may stand in a quoted string, behind a backslash or not.
abbrev pub IsQuotable : Bytes → Type 0
IsQuotable = All (λ c. (is_qdchar c || is_qpchar c) ≡ true)

quoted-close : (rest : Bytes) → quoted false (34 ∷ rest) ≡ some rest
unfolding quoted
quoted-close rest = refl

quoted-char : (c : ℕ) (cs : Bytes) → is_qdchar c ≡ true → quoted false (c ∷ cs) ≡ quoted false cs
unfolding quoted
quoted-char c cs h = elim (Bool-cases (c == 34)) [
  | inl y ↦
      let e : c ≡ 34 = ground (arith, y) in absurd (ground (arith, ap is_qdchar e, quote_qdchar, h))
  | inr n ↦ rw (n, h) refl
]

quoted-escape :
    (c : ℕ) (cs : Bytes) → is_qpchar c ≡ true → quoted false (92 ∷ (c ∷ cs)) ≡ quoted false cs
unfolding quoted is_qdchar
quoted-escape c cs h = rw h refl

pub quoted-quote :
    (s rest : Bytes) → IsQuotable s → quoted false (escape s ++ (34 ∷ rest)) ≡ some rest
quoted-quote [] rest h = quoted-close rest
quoted-quote (c ∷ cs) rest h = elim (Bool-cases (is_qdchar c)) [
  | inl y ↦ rw y (quoted-char c (escape cs ++ (34 ∷ rest)) y ∙ quoted-quote cs rest h.1)
  | inr n ↦
      let q : is_qpchar c ≡ true = ground (arith, n, h.0) in
      rw n (quoted-escape c (escape cs ++ (34 ∷ rest)) q ∙ quoted-quote cs rest h.1)
]

unescape-escape : (s : Bytes) → unescape false (escape s) ≡ some s
unescape-escape [] = unescape_nil
unescape-escape (c ∷ cs) = elim (Bool-cases (is_qdchar c)) [
  | inl y ↦ rw y (unescape_char false c (escape cs) cs (qdchar-backslash c y) (unescape-escape cs))
  | inr n ↦ rw n (
      unescape_backslash (c ∷ escape cs)
      ∙ unescape_char true c (escape cs) cs refl (unescape-escape cs))
]

pub param_plain-quote : (s : Bytes) → param_plain (quote s) ≡ some s
unfolding param_plain unquote
param_plain-quote s = rw (inner (escape s)) (unescape-escape s)
