-- ===== src/Websocket/Utf8/States.antt =====
-- The next states by the ranges of the octets, and the loop by the states alone.
use beast.Base.{
  ℕ, ◌<◌, ◌≡◌, ◌≢◌, refl, Bool, true, false, ◌&&◌, ltb, leb, ◌==◌, if◌then◌else◌, holds_below,
  agree_below_sound, Bytes, [], ◌∷◌, arith,
}
use beast.Websocket.Utf8.{
  Utf8Checker, reset_checker, next_state, advance, write, finish, check_utf8,
}

-- From the state between scalar values.
abbrev pub lead : ℕ → ℕ
lead b =
    if ltb b 0x80
    then 0
    else if ltb b 0xc2
    then 1
    else if ltb b 0xe0
    then 2
    else if b == 0xe0
    then 4
    else if b == 0xed
    then 5
    else if ltb b 0xf0
    then 3
    else if b == 0xf0
    then 6
    else if ltb b 0xf4
    then 7
    else if b == 0xf4
    then 8
    else 1

-- From a state that wants an octet of a range.
abbrev pub tail : ℕ → ℕ → ℕ → ℕ → ℕ
tail lo hi next b = if leb lo b && leb b hi then next else 1

pub next_state-lead : (b : ℕ) → b < 256 → next_state 0 b ≡ lead b
unfolding next_state holds_below
next_state-lead = agree_below_sound 256 _ _ refl

pub next_state_two : (b : ℕ) → b < 256 → next_state 2 b ≡ tail 0x80 0xbf 0 b
unfolding next_state holds_below
next_state_two = agree_below_sound 256 _ _ refl

pub next_state_three : (b : ℕ) → b < 256 → next_state 3 b ≡ tail 0x80 0xbf 2 b
unfolding next_state holds_below
next_state_three = agree_below_sound 256 _ _ refl

pub next_state_four : (b : ℕ) → b < 256 → next_state 4 b ≡ tail 0xa0 0xbf 2 b
unfolding next_state holds_below
next_state_four = agree_below_sound 256 _ _ refl

pub next_state_five : (b : ℕ) → b < 256 → next_state 5 b ≡ tail 0x80 0x9f 2 b
unfolding next_state holds_below
next_state_five = agree_below_sound 256 _ _ refl

pub next_state_six : (b : ℕ) → b < 256 → next_state 6 b ≡ tail 0x90 0xbf 3 b
unfolding next_state holds_below
next_state_six = agree_below_sound 256 _ _ refl

pub next_state_seven : (b : ℕ) → b < 256 → next_state 7 b ≡ tail 0x80 0xbf 3 b
unfolding next_state holds_below
next_state_seven = agree_below_sound 256 _ _ refl

pub next_state_eight : (b : ℕ) → b < 256 → next_state 8 b ≡ tail 0x80 0x8f 3 b
unfolding next_state holds_below
next_state_eight = agree_below_sound 256 _ _ refl

-- The loop and `finish`, by the states alone.
unfoldable pub accepts : ℕ → Bytes → Bool
accepts s [] = s == 0
accepts s (b ∷ bs) =
    let s' = next_state s b in let rest = accepts s' bs in if s' == 1 then false else rest

abbrev write_finish : Utf8Checker → Bytes → Bool
write_finish c bs = let r = write c bs in if r.1 then (finish r.0).1 else false

advance-state : (c : Utf8Checker) (b : ℕ) → (advance c b).state ≡ next_state c.state b
unfolding advance
advance-state c b = refl

write_finish-accepts : (c : Utf8Checker) (bs : Bytes) → write_finish c bs ≡ accepts c.state bs
unfolding write accepts finish
write_finish-accepts c [] = refl
write_finish-accepts c (b ∷ bs) =
    let ih = write_finish-accepts (advance c b) bs in
    let same = advance-state c b in ground (arith, ih, same)

pub check_utf8-accepts : (bs : Bytes) → check_utf8 bs ≡ accepts 0 bs
unfolding check_utf8
check_utf8-accepts bs = write_finish-accepts reset_checker bs

pub accepts-cons :
    (s b : ℕ) (bs : Bytes)
    → accepts s (b ∷ bs) ≡ true
    → (accepts (next_state s b) bs ≡ true) × (next_state s b ≢ 1)
unfolding accepts
accepts-cons s b bs h = ground (arith, h)
