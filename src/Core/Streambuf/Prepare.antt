-- ===== src/Core/Streambuf/Prepare.antt =====
-- `prepare`: the elements that it keeps and makes, and the bytes that they leave room for.
use mathlib.Core.Path.{subst}
use beast.Base.{
  ℕ, zero, suc, ◌+◌, ◌-◌, ◌≡◌, ◌≤◌, ◌<◌, ◌⊎◌, inl, inr, refl, sym, ap, ◌∙◌, Bytes, List, [], ◌∷◌,
  ◌++◌, length, take, drop, flat, All, arith, length-append, length-take, length-drop, take_all,
  ltb, leb, if◌then◌else◌,
}
use beast.Core.Streambuf.{
  Allocator, Streambuf, clip_last, reuse, grow, extend, first_part, prepare_at, prepare,
}
use beast.Core.Streambuf.Valid.{
  LastFits, Starts, IsHeld, cursor, bytes, IsValid, view, Starts-zero, Starts-first,
}
use beast.Core.Streambuf.Views.{take-flat-clip_last, take-append_add, drop-append_add}

-- Where nothing is wanted no element is made, and one is made where anything is.
grow-zero :
    (a : Allocator) (alloc_size fuel out_end : ℕ)
    → grow a alloc_size fuel 0 out_end ≡ ([], 0, out_end)
unfolding grow
grow-zero a alloc_size zero out_end = refl
grow-zero a alloc_size (suc fuel) out_end = refl

abbrev new_size : ℕ → ℕ → ℕ
new_size alloc_size n = if ltb alloc_size n then n else alloc_size

grow-suc :
    (a : Allocator) (alloc_size fuel m out_end : ℕ)
    → grow a alloc_size (suc fuel) (suc m) out_end
      ≡ (a.allocate (new_size alloc_size (suc m)) ∷ [], 0, suc m)
unfolding grow
grow-suc a alloc_size fuel m out_end =
    let e = a.allocate (new_size alloc_size (suc m)) in
    let wide : suc m ≤ length e = ground (arith, a.length-allocate (new_size alloc_size (suc m))) in
    let none_left : (if leb (length e) (suc m) then suc m - length e else 0) ≡ 0 = ground arith in
    let at_end : (if leb (length e) (suc m) then length e else suc m) ≡ suc m = ground arith in
    rw (none_left, at_end, grow-zero a alloc_size fuel (suc m))

-- What stands behind an element `o` of which `e` bytes are used, and `n` bytes more are wanted.
record Covers (o : Bytes) (e n : ℕ) (r : List Bytes × ℕ) : Type 0 where
  fits : LastFits r.1 (o ∷ r.0)
  length_all : length (flat (clip_last r.1 (o ∷ r.0))) ≡ e + n
  held : All IsHeld r.0

Covers-nil : (o : Bytes) (e : ℕ) → e ≤ length o → Covers o e 0 ([], e)
Covers-nil o e h = record {
  fits = h;
  length_all = omega (arith, length-append (take e o) [], length-take e o);
  held = tt;
}

Covers-cons :
    (o b : Bytes) (e k n : ℕ) (used : List Bytes) (e' : ℕ)
    → Covers b e k (used, e')
    → IsHeld b
    → e + k ≡ n
    → Covers o (length o) n (b ∷ used, e')
Covers-cons o b e k n used e' c h eq = record {
  fits = c.fits;
  length_all = omega (arith, length-append o (flat (clip_last e' (b ∷ used))), c.length_all);
  held = (h, c.held);
}

extend-suc :
    (a : Allocator) (alloc_size m out_end : ℕ)
    → extend a alloc_size [] (suc m) out_end
      ≡ (a.allocate (new_size alloc_size (suc m)) ∷ [], suc m)
unfolding extend reuse
extend-suc a alloc_size m out_end = ap (λ r. (r.0, r.2)) (grow-suc a alloc_size m m out_end)

extend-Covers :
    (a : Allocator) (alloc_size : ℕ) (rest : List Bytes) (n e : ℕ) (o : Bytes)
    → 0 < alloc_size
    → All IsHeld rest
    → e ≤ length o
    → (n ≡ 0) ⊎ (e ≡ length o)
    → Covers o e n (extend a alloc_size rest n e)
unfolding extend reuse grow
extend-Covers a s [] zero e o hs hr he d = Covers-nil o e he
extend-Covers a s (b ∷ bs) zero e o hs hr he d = Covers-nil o e he
extend-Covers a s [] (suc m) e o hs hr he d =
    let size = new_size s (suc m) in
    let wide : suc m ≤ length (a.allocate size) = ground (arith, a.length-allocate size) in
    elim d [
      | inl z ↦ absurd (omega arith)
      | inr full ↦
          rw (extend-suc a s m e, full)
            (Covers-cons o (a.allocate size) (suc m) 0 (suc m) [] (suc m)
              (Covers-nil (a.allocate size) (suc m) wide) (omega arith) (omega arith))
    ]
extend-Covers a s (b ∷ bs) (suc m) e o hs hr he d =
    let big = ltb (length b) (suc m) in
    let k = if big then suc m - length b else 0 in
    let e' = if big then length b else suc m in
    let within : e' ≤ length b = ground arith in
    let full : (k ≡ 0) ⊎ (e' ≡ length b) = ground arith in
    let sum : e' + k ≡ suc m = ground arith in
    let c = extend-Covers a s bs k e' b hs hr.1 within full in
    elim d [
      | inl z ↦ absurd (omega arith)
      | inr eq ↦
          rw eq
            (Covers-cons o b e' k (suc m) (extend a s bs k e').0 (extend a s bs k e').1 c hr.0 sum)
    ]

-- What holds of a buffer with other bytes to write to: `n` of them, and the input as it was.
pub record Prepared (n : ℕ) (sb sb' : Streambuf) : Type 0 where
  pub valid : IsValid sb'
  pub same_input : (view sb').input ≡ (view sb).input
  pub length_output : length (view sb').output ≡ n

pub replaced :
    (sb : Streambuf) (after : List Bytes) (n out_end : ℕ)
    → IsValid sb
    → All IsHeld after
    → LastFits out_end after
    → Starts sb.out_pos out_end after
    → length (flat (clip_last out_end after)) ≡ sb.out_pos + n
    → take sb.out_pos (flat (clip_last out_end after))
      ≡ take sb.out_pos (flat (clip_last sb.out_end sb.after))
    → Prepared n sb (record sb { after = after; out_end = out_end })
unfolding view cursor bytes
replaced sb after n out_end v held fits starts size same =
    let kept = flat sb.before in
    let p = sb.out_pos in
    let made = flat (clip_last out_end after) in
    record {
      valid = record {
        alloc_size-positive = v.alloc_size-positive;
        before-IsHeld = v.before-IsHeld;
        after-IsHeld = held;
        out_end-LastFits = fits;
        out_pos-Starts = starts;
        in_pos-Fronts = v.in_pos-Fronts;
        in_size-cursor = v.in_size-cursor;
      };
      same_input = ap (drop sb.in_pos) (
          take-append_add p kept made
          ∙ ap (λ t. kept ++ t) same
          ∙ sym (take-append_add p kept (flat (clip_last sb.out_end sb.after))));
      length_output =
          ap length (drop-append_add p kept made) ∙ omega (arith, length-drop p made, size);
    }

Starts-used :
    (p n e : ℕ) (o : Bytes) (used : List Bytes)
    → p < length o
    → length (flat (clip_last e (o ∷ used))) ≡ p + n
    → Starts p e (o ∷ used)
Starts-used p n e o [] h eq = (h, omega (arith, eq, length-append (take e o) [], length-take e o))
Starts-used p n e o (b ∷ bs) h eq = h

-- New elements behind an empty one.
clip_virtual :
    (e : ℕ) (made : List Bytes)
    → LastFits e ([] ∷ made)
    → LastFits e made × flat (clip_last e made) ≡ flat (clip_last e ([] ∷ made))
clip_virtual e [] h = (omega (arith, h), sym (ap (λ t. t ++ []) (take_all e [] (omega arith))))
clip_virtual e (b ∷ bs) h = (h, refl)

prepare_at-Prepared :
    (a : Allocator) (after : List Bytes) (n : ℕ) (sb : Streambuf)
    → IsValid sb
    → sb.after ≡ after
    → All IsHeld after
    → LastFits sb.out_end after
    → Starts sb.out_pos sb.out_end after
    → Prepared n sb (prepare_at a after n sb)
unfolding prepare_at
prepare_at-Prepared a [] n sb v eq held fits starts =
    let r = extend a sb.alloc_size [] n sb.out_end in
    let c =
      extend-Covers a sb.alloc_size [] n sb.out_end [] v.alloc_size-positive tt
        (omega (arith, fits)) (inr fits) in
    let front = clip_virtual r.1 r.0 c.fits in
    replaced sb r.0 n r.1 v c.held front.0
      (subst (λ p. Starts p r.1 r.0) (sym starts) (Starts-zero r.1 r.0 c.held))
      (ap length front.1 ∙ omega (arith, c.length_all, fits, starts))
      (subst
        (λ p. take p (flat (clip_last r.1 r.0)) ≡ take p (flat (clip_last sb.out_end sb.after)))
        (sym starts) refl)
prepare_at-Prepared a (o ∷ rest) n sb v eq held fits starts =
    let p = sb.out_pos in
    let w = first_part o p n in
    let r = extend a sb.alloc_size rest w.0 w.1 in
    let inside = Starts-first p sb.out_end o rest starts in
    let within : w.1 ≤ length o = ground (arith, inside) in
    let full : (w.0 ≡ 0) ⊎ (w.1 ≡ length o) = ground arith in
    let sum : w.1 + w.0 ≡ p + n = ground (arith, inside) in
    let c = extend-Covers a sb.alloc_size rest w.0 w.1 o v.alloc_size-positive held.1 within full in
    let size : length (flat (clip_last r.1 (o ∷ r.0))) ≡ p + n = c.length_all ∙ sum in
    let starts' = Starts-used p n r.1 o r.0 inside size in
    replaced sb (o ∷ r.0) n r.1 v (held.0, c.held) c.fits starts' size
      (take-flat-clip_last r.1 p o r.0 starts' c.fits
        ∙ sym (take-flat-clip_last sb.out_end p o rest starts fits)
        ∙ ap (λ t. take p (flat (clip_last sb.out_end t))) (sym eq))

-- `prepare` gives as many bytes to write to as were asked for, in front of which the input stands.
pub prepare-Prepared :
    (a : Allocator) (n : ℕ) (sb : Streambuf) → IsValid sb → Prepared n sb (prepare a n sb)
unfolding prepare
prepare-Prepared a n sb v =
    prepare_at-Prepared a sb.after n sb v refl v.after-IsHeld v.out_end-LastFits v.out_pos-Starts
