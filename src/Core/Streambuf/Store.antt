-- ===== src/Core/Streambuf/Store.antt =====
-- The client writes to the prepared bytes: elements keep their sizes, and what stands in front of
-- `out_pos_` stays.
use beast.Base.{
  ℕ, ◌≡◌, refl, sym, ap, ◌∙◌, Bytes, List, [], ◌∷◌, length, take, flat, All, arith, length-append,
  length-take, length-drop,
}
use beast.Core.Streambuf.{Streambuf, clip_last}
use beast.Core.Streambuf.Valid.{LastFits, Starts, IsHeld, cursor, bytes, IsValid, view}
use beast.Core.Streambuf.Views.{take-flat-clip_last, clip_last-Starts, drop-append_add}
use beast.Core.Streambuf.Prepare.{Prepared, replaced}

abbrev pub SameSizes : List Bytes → List Bytes → Type 0
SameSizes [] [] = Unit
SameSizes [] (c ∷ cs) = ⊥
SameSizes (b ∷ bs) [] = ⊥
SameSizes (b ∷ bs) (c ∷ cs) = (length b ≡ length c) × SameSizes bs cs

abbrev pub Overwrites : ℕ → List Bytes → List Bytes → Type 0
Overwrites p [] cs = SameSizes [] cs
Overwrites p (b ∷ bs) [] = ⊥
Overwrites p (b ∷ bs) (c ∷ cs) = SameSizes (b ∷ bs) (c ∷ cs) × take p c ≡ take p b

Overwrites-SameSizes : (p : ℕ) (bs cs : List Bytes) → Overwrites p bs cs → SameSizes bs cs
Overwrites-SameSizes p [] cs h = h
Overwrites-SameSizes p (b ∷ bs) [] h = absurd h
Overwrites-SameSizes p (b ∷ bs) (c ∷ cs) h = h.0

All-SameSizes : (bs cs : List Bytes) → SameSizes bs cs → All IsHeld bs → All IsHeld cs
All-SameSizes [] [] s h = tt
All-SameSizes [] (c ∷ cs) s h = absurd s
All-SameSizes (b ∷ bs) [] s h = absurd s
All-SameSizes (b ∷ bs) (c ∷ cs) s h = (omega (arith, s.0, h.0), All-SameSizes bs cs s.1 h.1)

LastFits-SameSizes : (e : ℕ) (bs cs : List Bytes) → SameSizes bs cs → LastFits e bs → LastFits e cs
LastFits-SameSizes e [] [] s h = h
LastFits-SameSizes e [] (c ∷ cs) s h = absurd s
LastFits-SameSizes e (b ∷ bs) [] s h = absurd s
LastFits-SameSizes e (b ∷ []) (c ∷ []) s h = omega (arith, s.0, h)
LastFits-SameSizes e (b ∷ []) (c ∷ c' ∷ cs) s h = absurd s.1
LastFits-SameSizes e (b ∷ b' ∷ bs) (c ∷ []) s h = absurd s.1
LastFits-SameSizes e (b ∷ b' ∷ bs) (c ∷ c' ∷ cs) s h =
    LastFits-SameSizes e (b' ∷ bs) (c' ∷ cs) s.1 h

Starts-SameSizes : (p e : ℕ) (bs cs : List Bytes) → SameSizes bs cs → Starts p e bs → Starts p e cs
Starts-SameSizes p e [] [] s h = h
Starts-SameSizes p e [] (c ∷ cs) s h = absurd s
Starts-SameSizes p e (b ∷ bs) [] s h = absurd s
Starts-SameSizes p e (b ∷ []) (c ∷ []) s h = (omega (arith, s.0, h.0), h.1)
Starts-SameSizes p e (b ∷ []) (c ∷ c' ∷ cs) s h = absurd s.1
Starts-SameSizes p e (b ∷ b' ∷ bs) (c ∷ []) s h = absurd s.1
Starts-SameSizes p e (b ∷ b' ∷ bs) (c ∷ c' ∷ cs) s h = omega (arith, s.0, h)

length-SameSizes :
    (e : ℕ) (bs cs : List Bytes)
    → SameSizes bs cs
    → length (flat (clip_last e cs)) ≡ length (flat (clip_last e bs))
length-SameSizes e [] [] s = refl
length-SameSizes e [] (c ∷ cs) s = absurd s
length-SameSizes e (b ∷ bs) [] s = absurd s
length-SameSizes e (b ∷ []) (c ∷ []) s = omega (
  arith,
  s.0,
  length-append (take e b) [],
  length-append (take e c) [],
  length-take e b,
  length-take e c,
)
length-SameSizes e (b ∷ []) (c ∷ c' ∷ cs) s = absurd s.1
length-SameSizes e (b ∷ b' ∷ bs) (c ∷ []) s = absurd s.1
length-SameSizes e (b ∷ b' ∷ bs) (c ∷ c' ∷ cs) s =
    let behind = flat (clip_last e (b' ∷ bs)) in
    let behind' = flat (clip_last e (c' ∷ cs)) in
    omega (
      arith,
      s.0,
      length-SameSizes e (b' ∷ bs) (c' ∷ cs) s.1,
      length-append b behind,
      length-append c behind',
    )

same_start :
    (p e : ℕ) (bs cs : List Bytes)
    → Overwrites p bs cs
    → Starts p e bs
    → LastFits e bs
    → Starts p e cs
    → LastFits e cs
    → take p (flat (clip_last e cs)) ≡ take p (flat (clip_last e bs))
same_start p e [] [] w s f s' f' = refl
same_start p e [] (c ∷ cs) w s f s' f' = absurd w
same_start p e (b ∷ bs) [] w s f s' f' = absurd w
same_start p e (b ∷ bs) (c ∷ cs) w s f s' f' =
    take-flat-clip_last e p c cs s' f' ∙ w.1 ∙ sym (take-flat-clip_last e p b bs s f)

-- Writing keeps the input, and the number of the bytes to write to.
pub overwrite-Prepared :
    (sb : Streambuf) (after : List Bytes)
    → IsValid sb
    → Overwrites sb.out_pos sb.after after
    → Prepared (length (view sb).output) sb (record sb { after = after })
unfolding view cursor bytes
overwrite-Prepared sb after v w =
    let p = sb.out_pos in
    let e = sb.out_end in
    let same = Overwrites-SameSizes p sb.after after w in
    let starts = Starts-SameSizes p e sb.after after same v.out_pos-Starts in
    let fits = LastFits-SameSizes e sb.after after same v.out_end-LastFits in
    let behind = flat (clip_last e sb.after) in
    replaced sb after (length (view sb).output) e v
      (All-SameSizes sb.after after same v.after-IsHeld) fits starts
      (omega (
        arith,
        length-SameSizes e sb.after after same,
        ap length (drop-append_add p (flat sb.before) behind),
        length-drop p behind,
        clip_last-Starts e p sb.after v.out_pos-Starts v.out_end-LastFits,
      ))
      (same_start p e sb.after after w v.out_pos-Starts v.out_end-LastFits starts fits)
