-- ===== src/Core/Streambuf/Views.antt =====
-- The buffers of `data` and `mutable_buffers_type` hold what the view says.
use beast.Base.{
  ℕ, zero, suc, ◌+◌, ◌-◌, ◌≡◌, ◌≤◌, refl, sym, ap, ◌∙◌, Bytes, List, [], ◌∷◌, ◌++◌, append-nil,
  length, take, drop, flat, arith, length-append, length-take, length-drop, flat-append,
  drop-append_le, drop-append_ge, take-append_le, take-append_ge, take_all, drop_all,
}
use beast.Core.Streambuf.{
  Streambuf, clip_last, drop_first, input_buffers, data_buffers, mutable_buffers,
}
use beast.Core.Streambuf.Valid.{LastFits, Starts, Fronts, cursor, bytes, IsValid, view}

pub flat-drop_first :
    (n : ℕ) (b : Bytes) (bs : List Bytes)
    → n ≤ length b
    → flat (drop_first n (b ∷ bs)) ≡ drop n (flat (b ∷ bs))
flat-drop_first n b bs h = sym (drop-append_le n b (flat bs) h)

pub clip_last-Starts :
    (e p : ℕ) (after : List Bytes)
    → Starts p e after
    → LastFits e after
    → p ≤ length (flat (clip_last e after))
clip_last-Starts e p [] s f = omega (arith, s)
clip_last-Starts e p (o ∷ []) s f =
    omega (arith, s.1, s.0, f, length-append (take e o) [], length-take e o)
clip_last-Starts e p (o ∷ o' ∷ rest) s f =
    omega (arith, s, length-append o (flat (clip_last e (o' ∷ rest))))

take_clip : (e p : ℕ) (o : Bytes) → p ≤ e → e ≤ length o → take p (take e o ++ []) ≡ take p o
take_clip e zero o h f = refl
take_clip zero (suc p) o h f = absurd (omega arith)
take_clip (suc e) (suc p) [] h f = absurd (omega arith)
take_clip (suc e) (suc p) (x ∷ o) h f = ap (◌∷◌ x) (take_clip e p o (omega arith) (omega arith))

pub take-flat-clip_last :
    (e p : ℕ) (o : Bytes) (rest : List Bytes)
    → Starts p e (o ∷ rest)
    → LastFits e (o ∷ rest)
    → take p (flat (clip_last e (o ∷ rest))) ≡ take p o
take-flat-clip_last e p o [] s f = take_clip e p o s.1 f
take-flat-clip_last e p o (o' ∷ rest) s f =
    take-append_le p o (flat (clip_last e (o' ∷ rest))) (omega (arith, s))

flat-input_buffers :
    (before after : List Bytes) (e p : ℕ)
    → Starts p e after
    → LastFits e after
    → flat (input_buffers before after p) ≡ flat before ++ take p (flat (clip_last e after))
flat-input_buffers before [] e p s f =
    rw (take_all {A = ℕ} p [] (omega arith), append-nil (flat before))
flat-input_buffers before (o ∷ rest) e p s f =
    rw (
      take-flat-clip_last e p o rest s f,
      flat-append before (take p o ∷ []),
      append-nil (take p o),
    )

-- A sequence up to a place behind its first part.
pub take-append_add : (n : ℕ) (xs ys : Bytes) → take (length xs + n) (xs ++ ys) ≡ xs ++ take n ys
take-append_add n xs ys =
    let e : length xs + n - length xs ≡ n = omega arith in
    take-append_ge (length xs + n) xs ys (omega arith) ∙ ap (λ k. xs ++ take k ys) e

pub drop-append_add : (n : ℕ) (xs ys : Bytes) → drop (length xs + n) (xs ++ ys) ≡ drop n ys
drop-append_add n xs ys =
    let e : length xs + n - length xs ≡ n = omega arith in
    drop-append_ge (length xs + n) xs ys (omega arith) ∙ ap (λ k. drop k ys) e

drop_first-input_buffers :
    (before after : List Bytes) (i e p : ℕ)
    → Fronts i before p
    → Starts p e after
    → flat (drop_first i (input_buffers before after p))
      ≡ drop i (flat (input_buffers before after p))
drop_first-input_buffers [] [] i e p f s = sym (drop_all i [] (omega arith))
drop_first-input_buffers [] (o ∷ rest) i e p f s = flat-drop_first i (take p o) [] (within rest s)
  where
    within : (r : List Bytes) → Starts p e (o ∷ r) → i ≤ length (take p o)
    within [] t = omega (arith, f, t.0, length-take p o)
    within (o' ∷ r) t = omega (arith, f, t, length-take p o)
drop_first-input_buffers (b ∷ bs) [] i e p f s = flat-drop_first i b bs (omega (arith, f))
drop_first-input_buffers (b ∷ bs) (o ∷ rest) i e p f s =
    flat-drop_first i b (bs ++ (take p o ∷ [])) (omega (arith, f))

-- In a valid buffer, what `data` gives is the input of the view.
pub data_buffers-view : (sb : Streambuf) → IsValid sb → flat (data_buffers sb) ≡ (view sb).input
unfolding data_buffers view cursor bytes
data_buffers-view sb v =
    drop_first-input_buffers sb.before sb.after sb.in_pos sb.out_end sb.out_pos v.in_pos-Fronts
      v.out_pos-Starts
    ∙ ap (drop sb.in_pos) (
        flat-input_buffers sb.before sb.after sb.out_end sb.out_pos v.out_pos-Starts
          v.out_end-LastFits
        ∙ sym (take-append_add sb.out_pos (flat sb.before) (flat (clip_last sb.out_end sb.after))))

drop_first-clip_last :
    (e p : ℕ) (after : List Bytes)
    → Starts p e after
    → LastFits e after
    → flat (drop_first p (clip_last e after)) ≡ drop p (flat (clip_last e after))
drop_first-clip_last e p [] s f = sym (drop_all p [] (omega arith))
drop_first-clip_last e p (o ∷ []) s f =
    flat-drop_first p (take e o) [] (omega (arith, s.1, f, length-take e o))
drop_first-clip_last e p (o ∷ o' ∷ rest) s f =
    flat-drop_first p o (clip_last e (o' ∷ rest)) (omega (arith, s))

-- In a valid buffer, the buffers to write to are the output of the view.
pub mutable_buffers-view :
    (sb : Streambuf) → IsValid sb → flat (mutable_buffers sb) ≡ (view sb).output
unfolding mutable_buffers view cursor bytes
mutable_buffers-view sb v =
    drop_first-clip_last sb.out_end sb.out_pos sb.after v.out_pos-Starts v.out_end-LastFits
    ∙ sym (drop-append_add sb.out_pos (flat sb.before) (flat (clip_last sb.out_end sb.after)))

pub cursor-bytes : (sb : Streambuf) → IsValid sb → cursor sb ≤ length (bytes sb)
unfolding cursor bytes
cursor-bytes sb v = omega (
  arith,
  length-append (flat sb.before) (flat (clip_last sb.out_end sb.after)),
  clip_last-Starts sb.out_end sb.out_pos sb.after v.out_pos-Starts v.out_end-LastFits,
)

pub in_pos-cursor : (sb : Streambuf) → IsValid sb → sb.in_pos ≤ cursor sb
in_pos-cursor sb v = omega (arith, v.in_size-cursor)

-- `size` counts the input.
pub in_size-view : (sb : Streambuf) → IsValid sb → length (view sb).input ≡ sb.in_size
unfolding view
in_size-view sb v = omega (
  arith,
  length-drop sb.in_pos (take (cursor sb) (bytes sb)),
  length-take (cursor sb) (bytes sb),
  cursor-bytes sb v,
  v.in_size-cursor,
)
