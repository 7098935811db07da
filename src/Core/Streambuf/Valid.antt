-- ===== src/Core/Streambuf/Valid.antt =====
-- The states of a basic_streambuf that `debug_check` asks for, and its bytes seen as one sequence.
use beast.Base.{
  ℕ, ◌+◌, ◌≡◌, ◌≤◌, ◌<◌, refl, arith, Bytes, List, [], ◌∷◌, ◌++◌, length, take, drop, flat, All,
}
use beast.Core.Streambuf.{Streambuf, clip_last}
use beast.Core.Queue.{Queue}

-- `out_end_` lies in the last element, and is 0 where `out_` is the end.
abbrev pub LastFits : ℕ → List Bytes → Type 0
LastFits n [] = n ≡ 0
LastFits n (b ∷ []) = n ≤ length b
LastFits n (b ∷ c ∷ bs) = LastFits n (c ∷ bs)

-- `out_pos_` lies in the element of `out_`, up to `out_end_` where that is the last one.
abbrev pub Starts : ℕ → ℕ → List Bytes → Type 0
Starts out_pos out_end [] = out_pos ≡ 0
Starts out_pos out_end (o ∷ []) = (out_pos < length o) × (out_pos ≤ out_end)
Starts out_pos out_end (o ∷ o' ∷ rest) = out_pos < length o

-- `in_pos_` lies in the first element, in front of `out_pos_` where that is the one of `out_`.
abbrev pub Fronts : ℕ → List Bytes → ℕ → Type 0
Fronts in_pos [] out_pos = in_pos ≤ out_pos
Fronts in_pos (b ∷ bs) out_pos = in_pos < length b

abbrev pub IsHeld : Bytes → Type 0
IsHeld b = 0 < length b

pub Starts-zero : (e : ℕ) (made : List Bytes) → All IsHeld made → Starts 0 e made
Starts-zero e [] h = refl
Starts-zero e (b ∷ []) h = (h.0, omega arith)
Starts-zero e (b ∷ c ∷ bs) h = h.0

pub Starts-first : (p e : ℕ) (o : Bytes) (rest : List Bytes) → Starts p e (o ∷ rest) → p < length o
Starts-first p e o [] s = s.0
Starts-first p e o (b ∷ bs) s = s

-- Where `out_` stands in the bytes of all elements.
unfoldable pub cursor : Streambuf → ℕ
cursor sb = length (flat sb.before) + sb.out_pos

-- The bytes of all elements up to `out_end_`.
unfoldable pub bytes : Streambuf → Bytes
bytes sb = flat sb.before ++ flat (clip_last sb.out_end sb.after)

pub record IsValid (sb : Streambuf) : Type 0 where
  pub alloc_size-positive : 0 < sb.alloc_size
  pub before-IsHeld : All IsHeld sb.before
  pub after-IsHeld : All IsHeld sb.after
  pub out_end-LastFits : LastFits sb.out_end sb.after
  pub out_pos-Starts : Starts sb.out_pos sb.out_end sb.after
  pub in_pos-Fronts : Fronts sb.in_pos sb.before sb.out_pos
  pub in_size-cursor : sb.in_pos + sb.in_size ≡ cursor sb

-- The queue of the bytes between `in_pos_` and the cursor, and those behind.
unfoldable pub view : Streambuf → Queue
unfolding cursor bytes
view sb = record {
  input = drop sb.in_pos (take (cursor sb) (bytes sb));
  output = drop (cursor sb) (bytes sb);
}
