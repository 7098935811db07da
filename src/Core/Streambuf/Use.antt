-- ===== src/Core/Streambuf/Use.antt =====
-- What a client of a streambuf relies on: bytes come out as they went in, and sizes are bounded.
use beast.Base.{
  ℕ, ◌+◌, ◌-◌, ◌≡◌, ◌≤◌, ◌<◌, ◌⊎◌, sym, ap, ◌∙◌, Bytes, List, [], ◌∷◌, ◌++◌, length, take, drop,
  flat, arith, length-append, length-take, length-drop, take_all, drop-append_ge,
}
use beast.Core.Streambuf.{
  Allocator, Streambuf, clip_last, data_buffers, mutable_buffers, capacity_from, capacity, prepare,
  commit, consume, read_size_helper,
}
use beast.Core.Streambuf.Valid.{Starts, IsValid, view, cursor, bytes}
use beast.Core.Streambuf.Views.{
  data_buffers-view, mutable_buffers-view, in_size-view, drop-append_add,
}
use beast.Core.Streambuf.Prepare.{prepare-Prepared}
use beast.Core.Streambuf.Commit.{commit-Committed, commit-view}
use beast.Core.Streambuf.Consume.{consume-Consumed}
use beast.Core.Streambuf.Store.{Overwrites, overwrite-Prepared}

-- `n` bytes are prepared, the elements from `out_` are overwritten by `after`, and `n` are committed.
abbrev pub write_through : Allocator → ℕ → List Bytes → Streambuf → Streambuf
write_through a n after sb = commit n (record (prepare a n sb) { after = after })

drop_exact : (n : ℕ) (xs ys : Bytes) → length xs ≡ n → drop n (xs ++ ys) ≡ ys
drop_exact n xs ys eq =
    let e : n - length xs ≡ 0 = omega (arith, eq) in
    drop-append_ge n xs ys (omega (arith, eq)) ∙ ap (λ k. drop k ys) e

-- Where `n` bytes are prepared, overwritten by `xs` and committed, `data` holds the input and `xs`
-- behind it, and when the input is consumed it holds `xs`.
pub data_buffers-write :
    (a : Allocator) (n : ℕ) (sb : Streambuf) (after : List Bytes) (xs : Bytes)
    → IsValid sb
    → Overwrites (prepare a n sb).out_pos (prepare a n sb).after after
    → flat (mutable_buffers (record (prepare a n sb) { after = after })) ≡ xs
    → flat (data_buffers (write_through a n after sb)) ≡ flat (data_buffers sb) ++ xs
      × flat (data_buffers (consume sb.in_size (write_through a n after sb))) ≡ xs
data_buffers-write a n sb after xs v w eq =
    let p = prepare-Prepared a n sb v in
    let s = overwrite-Prepared (prepare a n sb) after p.valid w in
    let stored = record (prepare a n sb) { after = after } in
    let c = commit-Committed n stored s.valid in
    let k = consume-Consumed sb.in_size (commit n stored) c.valid in
    let out : (view stored).output ≡ xs = sym (mutable_buffers-view stored s.valid) ∙ eq in
    let long : length xs ≤ n = omega (arith, ap length out, s.length_output, p.length_output) in
    let i = (view sb).input in
    let kept : (view stored).input ≡ i = s.same_input ∙ p.same_input in
    let new : (view (commit n stored)).input ≡ i ++ xs =
      (commit-view n stored s.valid).0
      ∙ ap (λ t. t ++ take n (view stored).output) kept
      ∙ ap (λ t. i ++ t) (ap (take n) out ∙ take_all n xs long) in
    (
      data_buffers-view (commit n stored) c.valid
          ∙ new
          ∙ ap (λ t. t ++ xs) (sym (data_buffers-view sb v)),
      data_buffers-view (consume sb.in_size (commit n stored)) k.valid
          ∙ k.new_input
          ∙ ap (drop sb.in_size) new
          ∙ drop_exact sb.in_size i xs (in_size-view sb v),
    )

length-clip_last : (e : ℕ) (bs : List Bytes) → length (flat (clip_last e bs)) ≤ length (flat bs)
length-clip_last e [] = omega arith
length-clip_last e (b ∷ []) =
    omega (arith, length-append (take e b) [], length-append b [], length-take e b)
length-clip_last e (b ∷ c ∷ bs) =
    let behind = flat (clip_last e (c ∷ bs)) in
    omega
      (arith, length-append b behind, length-append b (flat (c ∷ bs)), length-clip_last e (c ∷ bs))

-- Room for the bytes to write to is counted.
clip_last-capacity_from :
    (e p : ℕ) (after : List Bytes)
    → Starts p e after
    → length (flat (clip_last e after)) ≤ p + capacity_from after p
clip_last-capacity_from e p [] s = omega arith
clip_last-capacity_from e p (o ∷ []) s =
    omega (arith, s.0, length-append (take e o) [], length-take e o)
clip_last-capacity_from e p (o ∷ o' ∷ rest) s =
    let behind = clip_last e (o' ∷ rest) in
    omega (arith, s, length-append o (flat behind), length-clip_last e (o' ∷ rest))

output-capacity : (sb : Streambuf) → IsValid sb → sb.in_size + length (view sb).output ≤ capacity sb
unfolding view cursor bytes capacity
output-capacity sb v =
    let behind = flat (clip_last sb.out_end sb.after) in
    omega (
      arith,
      clip_last-capacity_from sb.out_end sb.out_pos sb.after v.out_pos-Starts,
      ap length (drop-append_add sb.out_pos (flat sb.before) behind),
      length-drop sb.out_pos behind,
    )

-- After `prepare`, `capacity` counts the input and the `n` bytes; `data` still has the input.
pub capacity-prepare :
    (a : Allocator) (n : ℕ) (sb : Streambuf)
    → IsValid sb
    → sb.in_size + n ≤ capacity (prepare a n sb)
      × length (flat (mutable_buffers (prepare a n sb))) ≡ n
      × flat (data_buffers (prepare a n sb)) ≡ flat (data_buffers sb)
capacity-prepare a n sb v =
    let p = prepare-Prepared a n sb v in
    let s = prepare a n sb in
    (
      omega (
        arith,
        output-capacity s p.valid,
        p.length_output,
        in_size-view sb v,
        in_size-view s p.valid,
        ap length p.same_input,
      ),
      ap length (mutable_buffers-view s p.valid) ∙ p.length_output,
      data_buffers-view s p.valid ∙ p.same_input ∙ sym (data_buffers-view sb v),
    )

-- For a buffer with a positive `alloc_size_` and a positive limit, `read_size_helper` is positive,
-- at most the limit, and fits into the capacity where any is left.
pub read_size_helper-bounds :
    (sb : Streambuf) (max_size : ℕ)
    → IsValid sb
    → 0 < max_size
    → 0 < read_size_helper sb max_size
      × read_size_helper sb max_size ≤ max_size
      × ((capacity sb ≤ sb.in_size) ⊎ (sb.in_size + read_size_helper sb max_size ≤ capacity sb))
unfolding read_size_helper
read_size_helper-bounds sb max_size v pos =
    let positive = v.alloc_size-positive in let c = capacity sb in ground (arith, positive, pos)
