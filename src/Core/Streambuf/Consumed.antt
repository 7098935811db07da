-- ===== src/Core/Streambuf/Consumed.antt =====
-- What `consume` does where no element goes: `in_pos_` moves, or the input is used up.
use beast.Base.{
  ℕ, ◌+◌, ◌-◌, ◌≡◌, ◌≤◌, refl, sym, ap, ◌∙◌, [], length, take, drop, flat, arith, length-take,
  length-drop, take_all, drop_all, drop-drop,
}
use beast.Core.Streambuf.{Streambuf, clip_last}
use beast.Core.Streambuf.Valid.{LastFits, Fronts, cursor, bytes, IsValid, view, Starts-zero}
use beast.Core.Streambuf.Views.{in_size-view}

-- What `consume` shows.
pub record Consumed (n : ℕ) (sb sb' : Streambuf) : Type 0 where
  pub valid : IsValid sb'
  pub new_input : (view sb').input ≡ drop n (view sb).input
  pub same_output : (view sb').output ≡ (view sb).output

-- `in_pos_` moves in the input of the first element.
pub within-Consumed :
    (sb : Streambuf) (n : ℕ)
    → IsValid sb
    → n ≤ sb.in_size
    → Fronts (sb.in_pos + n) sb.before sb.out_pos
    → Consumed n sb (record sb { in_size = sb.in_size - n; in_pos = sb.in_pos + n })
unfolding view cursor bytes
within-Consumed sb n v le fronts = record {
  valid = record {
    alloc_size-positive = v.alloc_size-positive;
    before-IsHeld = v.before-IsHeld;
    after-IsHeld = v.after-IsHeld;
    out_end-LastFits = v.out_end-LastFits;
    out_pos-Starts = v.out_pos-Starts;
    in_pos-Fronts = fronts;
    in_size-cursor = omega (arith, v.in_size-cursor, le);
  };
  new_input = sym (drop-drop sb.in_pos n (take (cursor sb) (bytes sb)));
  same_output = refl;
}

-- The front of the list is `out_`, and all of its input goes.
pub used_up-Consumed :
    (sb : Streambuf) (n : ℕ)
    → IsValid sb
    → sb.before ≡ []
    → sb.in_size ≤ n
    → Consumed n sb (record sb { in_size = 0; in_pos = sb.out_pos })
unfolding view cursor bytes
used_up-Consumed sb n v none le =
    let at : length (flat sb.before) ≡ 0 = ap (λ b. length (flat b)) none in
    let T = take (cursor sb) (bytes sb) in
    let short : length T ≤ sb.out_pos = omega (arith, length-take (cursor sb) (bytes sb), at) in
    let gone : drop n (drop sb.in_pos T) ≡ [] =
      drop_all n (drop sb.in_pos T)
        (omega (arith, length-drop sb.in_pos T, short, v.in_size-cursor, at, le)) in
    record {
      valid = record {
        alloc_size-positive = v.alloc_size-positive;
        before-IsHeld = v.before-IsHeld;
        after-IsHeld = v.after-IsHeld;
        out_end-LastFits = v.out_end-LastFits;
        out_pos-Starts = v.out_pos-Starts;
        in_pos-Fronts = rw none (omega arith);
        in_size-cursor = omega (arith, at);
      };
      new_input = drop_all sb.out_pos T short ∙ sym gone;
      same_output = refl;
    }

pub view_nothing : (sb : Streambuf) → bytes sb ≡ [] → (view sb).input ≡ [] × (view sb).output ≡ []
unfolding view
view_nothing sb none = rw none (
  ap (drop sb.in_pos) (take_all {A = ℕ} (cursor sb) [] (omega arith))
      ∙ drop_all sb.in_pos [] (omega arith),
  drop_all (cursor sb) [] (omega arith),
)

-- Input and output are empty, and the element is used once more.
pub reused-Consumed :
    (sb : Streambuf) (n : ℕ)
    → IsValid sb
    → sb.before ≡ []
    → sb.in_size ≤ n
    → (view sb).output ≡ []
    → LastFits 0 sb.after
    → flat (clip_last 0 sb.after) ≡ []
    → Consumed n sb (record sb { in_size = 0; in_pos = 0; out_pos = 0; out_end = 0 })
unfolding view cursor bytes
reused-Consumed sb n v none le empty fits clipped =
    let T = take (cursor sb) (bytes sb) in
    let gone : drop n (drop sb.in_pos T) ≡ [] =
      drop_all n (drop sb.in_pos T) (omega (arith, in_size-view sb v, le)) in
    let s = record sb { in_size = 0; in_pos = 0; out_pos = 0; out_end = 0 } in
    let nothing : bytes s ≡ [] = rw (none, clipped) refl in
    record {
      valid = record {
        alloc_size-positive = v.alloc_size-positive;
        before-IsHeld = v.before-IsHeld;
        after-IsHeld = v.after-IsHeld;
        out_end-LastFits = fits;
        out_pos-Starts = Starts-zero 0 sb.after v.after-IsHeld;
        in_pos-Fronts = rw none (omega arith);
        in_size-cursor = omega (arith, ap (λ b. length (flat b)) none);
      };
      new_input = (view_nothing s nothing).0 ∙ sym gone;
      same_output = (view_nothing s nothing).1 ∙ sym empty;
    }
