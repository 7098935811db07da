-- ===== src/Core/Streambuf/Commit.antt =====
-- `commit` moves the cursor and leaves the bytes as they are.
use beast.Base.{
  ℕ, ◌+◌, ◌-◌, ◌≡◌, ◌≤◌, ◌<◌, inl, inr, refl, sym, ap, ◌∙◌, Bytes, List, [], ◌∷◌, ◌++◌, length,
  take, drop, flat, arith, length-append, length-take, ltb, ◌==◌, Bool-cases, take_all, take-min,
  drop-min, min, append-nil, append_assoc, flat-append, All-append, take-append-take-drop,
  drop-drop, drop-append_le,
}
use beast.Core.Streambuf.{Streambuf, clip_last, commit_at, commit}
use beast.Core.Streambuf.Valid.{
  LastFits, Starts, Fronts, IsHeld, cursor, bytes, IsValid, view, Starts-zero,
}
use beast.Core.Streambuf.Views.{cursor-bytes, in_pos-cursor}

-- What `commit` shows: the bytes stay, and the cursor is `n` further, or at their end.
pub record Committed (n : ℕ) (sb sb' : Streambuf) : Type 0 where
  pub valid : IsValid sb'
  pub same_bytes : bytes sb' ≡ bytes sb
  pub new_cursor : cursor sb' ≡ min (cursor sb + n) (length (bytes sb))
  pub same_in_pos : sb'.in_pos ≡ sb.in_pos

abbrev with_after : Streambuf → List Bytes → Streambuf
with_after sb after = record sb { after = after }

-- The cursor moves in the element of `out_`.
within-Committed :
    (sb : Streambuf) (n k : ℕ)
    → IsValid sb
    → Starts (sb.out_pos + k) sb.out_end sb.after
    → cursor sb + k ≡ min (cursor sb + n) (length (bytes sb))
    → Committed n sb (record sb { out_pos = sb.out_pos + k; in_size = sb.in_size + k })
unfolding cursor bytes
within-Committed sb n k v starts eq = record {
  valid = record {
    alloc_size-positive = v.alloc_size-positive;
    before-IsHeld = v.before-IsHeld;
    after-IsHeld = v.after-IsHeld;
    out_end-LastFits = v.out_end-LastFits;
    out_pos-Starts = starts;
    in_pos-Fronts = further sb.before v.in_pos-Fronts;
    in_size-cursor = omega (arith, v.in_size-cursor);
  };
  same_bytes = refl;
  new_cursor = omega (arith, eq);
  same_in_pos = refl;
}
  where
    further :
        (bs : List Bytes) → Fronts sb.in_pos bs sb.out_pos → Fronts sb.in_pos bs (sb.out_pos + k)
    further [] h = omega (arith, h)
    further (b ∷ bs) h = h

Fronts-append :
    (in_pos out_pos p : ℕ) (before : List Bytes) (o : Bytes)
    → Fronts in_pos before out_pos
    → out_pos < length o
    → Fronts in_pos (before ++ (o ∷ [])) p
Fronts-append in_pos out_pos p [] o h lt = omega (arith, h)
Fronts-append in_pos out_pos p (b ∷ bs) o h lt = h

pub flat-append_one :
    (bs : List Bytes) (o xs : Bytes) → flat (bs ++ (o ∷ [])) ++ xs ≡ flat bs ++ (o ++ xs)
flat-append_one bs o xs =
    ap (λ t. t ++ xs) (flat-append bs (o ∷ []) ∙ ap (λ t. flat bs ++ t) (append-nil o))
    ∙ append_assoc (flat bs) o xs

length-flat-append :
    (bs : List Bytes) (o : Bytes) → length (flat (bs ++ (o ∷ []))) ≡ length (flat bs) + length o
length-flat-append bs o =
    ap length (flat-append bs (o ∷ []) ∙ ap (λ t. flat bs ++ t) (append-nil o))
    ∙ length-append (flat bs) o

-- `out_` goes to the element behind, or to the end.
abbrev next_element : Streambuf → Bytes → List Bytes → ℕ → ℕ → Streambuf
next_element sb o rest k out_end = record sb {
  before = sb.before ++ (o ∷ []);
  after = rest;
  out_pos = 0;
  out_end = out_end;
  in_size = sb.in_size + k;
}

next_element-IsValid :
    (sb : Streambuf) (o : Bytes) (rest : List Bytes) (k out_end : ℕ)
    → IsValid (with_after sb (o ∷ rest))
    → sb.out_pos < length o
    → sb.out_pos + k ≡ length o
    → LastFits out_end rest
    → Starts 0 out_end rest
    → IsValid (next_element sb o rest k out_end)
unfolding cursor
next_element-IsValid sb o rest k out_end v lt eq fits starts = record {
  alloc_size-positive = v.alloc_size-positive;
  before-IsHeld = All-append IsHeld sb.before (o ∷ []) v.before-IsHeld (v.after-IsHeld.0, tt);
  after-IsHeld = v.after-IsHeld.1;
  out_end-LastFits = fits;
  out_pos-Starts = starts;
  in_pos-Fronts = Fronts-append sb.in_pos sb.out_pos 0 sb.before o v.in_pos-Fronts lt;
  in_size-cursor = omega (arith, v.in_size-cursor, length-flat-append sb.before o);
}

-- The last element, from where it is left.
last-Committed :
    (o : Bytes) (n : ℕ) (sb : Streambuf)
    → IsValid (with_after sb (o ∷ []))
    → Committed n (with_after sb (o ∷ [])) (commit_at (o ∷ []) n (with_after sb (o ∷ [])))
unfolding commit_at cursor bytes
last-Committed o n sb v =
    let s = with_after sb (o ∷ []) in
    let p = sb.out_pos in
    let e = sb.out_end in
    let k = min n (e - p) in
    let fits : e ≤ length o = v.out_end-LastFits in
    let starts : p < length o × p ≤ e = v.out_pos-Starts in
    let sizes : length (bytes s) ≡ length (flat sb.before) + e = omega (
      arith,
      length-append (flat sb.before) (take e o ++ []),
      length-append (take e o) [],
      length-take e o,
      fits,
    ) in
    elim (Bool-cases (p + k == length o)) [
      | inl y ↦ rw y (record {
        valid = next_element-IsValid sb o [] k 0 v starts.0 (ground (arith, y)) refl refl;
        same_bytes =
            let full : length o ≤ e = ground (arith, y, starts.1) in
            append-nil (flat (sb.before ++ (o ∷ [])))
            ∙ flat-append sb.before (o ∷ [])
            ∙ ap (λ t. flat sb.before ++ (t ++ [])) (sym (take_all e o full));
        new_cursor = ground (arith, y, sizes, length-flat-append sb.before o, starts.1);
        same_in_pos = refl;
      })
      | inr m ↦ rw m (
          within-Committed s n k v (ground (arith, m, starts, fits), omega (arith, starts.1))
            (omega (arith, sizes, starts.1)))
    ]

commit_at-Committed :
    (after : List Bytes) (n : ℕ) (sb : Streambuf)
    → IsValid (with_after sb after)
    → Committed n (with_after sb after) (commit_at after n (with_after sb after))
unfolding commit_at cursor bytes
commit_at-Committed [] n sb v = record {
  valid = v;
  same_bytes = refl;
  new_cursor = omega (arith, v.out_pos-Starts, length-append (flat sb.before) []);
  same_in_pos = refl;
}
commit_at-Committed (o ∷ []) n sb v = last-Committed o n sb v
commit_at-Committed (o ∷ o' ∷ rest) n sb v =
    let s = with_after sb (o ∷ o' ∷ rest) in
    let avail = length o - sb.out_pos in
    let next = next_element sb o (o' ∷ rest) avail sb.out_end in
    let inside : sb.out_pos < length o = v.out_pos-Starts in
    let valid =
      next_element-IsValid sb o (o' ∷ rest) avail sb.out_end v inside (omega (arith, inside))
        v.out_end-LastFits (Starts-zero sb.out_end (o' ∷ rest) v.after-IsHeld.1) in
    let ih = commit_at-Committed (o' ∷ rest) (n - avail) next valid in
    let behind = flat (clip_last sb.out_end (o' ∷ rest)) in
    let same : bytes next ≡ bytes s = flat-append_one sb.before o behind in
    let size : length (bytes s) ≡ length (flat sb.before) + (length o + length behind) =
      omega (arith, length-append (flat sb.before) (o ++ behind), length-append o behind) in
    let there : cursor next ≡ cursor s + avail =
      omega (arith, length-flat-append sb.before o, inside) in
    let long : length (bytes next) ≡ length (bytes s) = ap length same in
    elim (Bool-cases (ltb n avail)) [
      | inl y ↦
          rw y (within-Committed s n n v (ground (arith, y)) (ground (arith, y, size, inside)))
      | inr m ↦
          let le : avail ≤ n = ground (arith, m) in
          rw m (record {
            valid = ih.valid;
            same_bytes = ih.same_bytes ∙ same;
            new_cursor = ih.new_cursor ∙ omega (arith, there, long, le);
            same_in_pos = ih.same_in_pos;
          })
    ]

pub commit-Committed : (n : ℕ) (sb : Streambuf) → IsValid sb → Committed n sb (commit n sb)
unfolding commit
commit-Committed n sb v = commit_at-Committed sb.after n sb v

-- A part of the bytes up to a cursor that goes on.
view_further :
    (i c n : ℕ) (bs : Bytes)
    → i ≤ c
    → c ≤ length bs
    → drop i (take (min (c + n) (length bs)) bs) ≡ drop i (take c bs) ++ take n (drop c bs)
view_further i c n bs h k =
    ap (drop i) (take-min (c + n) bs ∙ sym (take-append-take-drop c n bs))
    ∙ drop-append_le i (take c bs) (take n (drop c bs)) (omega (arith, length-take c bs))

drop_further : (c n : ℕ) (bs : Bytes) → drop (min (c + n) (length bs)) bs ≡ drop n (drop c bs)
drop_further c n bs = drop-min (c + n) bs ∙ sym (drop-drop c n bs)

-- `commit` moves what was written from the output to the input.
pub commit-view :
    (n : ℕ) (sb : Streambuf)
    → IsValid sb
    → (view (commit n sb)).input ≡ (view sb).input ++ take n (view sb).output
      × (view (commit n sb)).output ≡ drop n (view sb).output
unfolding view
commit-view n sb v =
    let c = commit-Committed n sb v in
    rw (c.same_bytes, c.new_cursor, c.same_in_pos)
      (
        view_further sb.in_pos (cursor sb) n (bytes sb) (in_pos-cursor sb v) (cursor-bytes sb v),
        drop_further (cursor sb) n (bytes sb),
      )
