-- ===== src/Core/Streambuf.antt =====
-- core/basic_streambuf.hpp and core/impl/basic_streambuf.ipp: a dynamic buffer over a list of
-- allocated elements. An element is the bytes that it holds, as many as its size. The list and its
-- iterator `out_` are two lists: the elements in front of `out_`, and those from it on, none where
-- `out_` is the end.
pub mod Valid
pub mod Views
pub mod Prepare
pub mod Commit
pub mod Consumed
pub mod Consume
pub mod Store
pub mod Refine
pub mod Use
use beast.Base.{
  ℕ, zero, suc, ◌+◌, ◌-◌, ◌≡◌, min, Bool, true, false, not, ◌&&◌, ◌||◌, ltb, leb, ◌==◌,
  if◌then◌else◌, Option, none, some, Bytes, List, [], ◌∷◌, ◌++◌, length, take, drop, flat,
}

-- The allocator: `n` bytes, whatever they hold.
pub record Allocator : Type 0 where
  pub allocate : ℕ → Bytes
  pub length-allocate : (n : ℕ) → length (allocate n) ≡ n

pub record Streambuf : Type 0 where
  pub before : List Bytes
  pub after : List Bytes
  pub alloc_size : ℕ
  pub in_size : ℕ
  pub in_pos : ℕ
  pub out_pos : ℕ
  pub out_end : ℕ

-- The constructor; `none` is the exception.
unfoldable pub streambuf : ℕ → Option Streambuf
streambuf alloc_size =
    if alloc_size == 0
    then none
    else some (record {
      before = [];
      after = [];
      alloc_size = alloc_size;
      in_size = 0;
      in_pos = 0;
      out_pos = 0;
      out_end = 0;
    })

-- Behind `n` bytes of the first buffer.
abbrev pub drop_first : ℕ → List Bytes → List Bytes
drop_first n [] = []
drop_first n (b ∷ bs) = drop n b ∷ bs

-- The last buffer up to `n` bytes.
abbrev pub clip_last : ℕ → List Bytes → List Bytes
clip_last n [] = []
clip_last n (b ∷ []) = take n b ∷ []
clip_last n (b ∷ c ∷ bs) = b ∷ clip_last n (c ∷ bs)

-- The elements up to `out_`, which counts up to `out_pos_`.
abbrev pub input_buffers : List Bytes → List Bytes → ℕ → List Bytes
input_buffers before [] out_pos = before
input_buffers before (o ∷ rest) out_pos = before ++ (take out_pos o ∷ [])

-- `data`, as the buffers that its iterators go through.
unfoldable pub data_buffers : Streambuf → List Bytes
data_buffers sb = drop_first sb.in_pos (input_buffers sb.before sb.after sb.out_pos)

-- The buffers of `mutable_buffers_type`.
unfoldable pub mutable_buffers : Streambuf → List Bytes
mutable_buffers sb = drop_first sb.out_pos (clip_last sb.out_end sb.after)

abbrev pub capacity_from : List Bytes → ℕ → ℕ
capacity_from [] out_pos = 0
capacity_from (o ∷ rest) out_pos = length o - out_pos + length (flat rest)

unfoldable pub capacity : Streambuf → ℕ
capacity sb = sb.in_size + capacity_from sb.after sb.out_pos

-- The second loop of `prepare`: elements are used once more while bytes are wanted. It gives those,
-- the bytes still wanted, and `out_end_`.
unfoldable pub reuse : List Bytes → ℕ → ℕ → List Bytes × ℕ × ℕ
reuse [] n out_end = ([], n, out_end)
reuse (e ∷ es) zero out_end = ([], 0, out_end)
reuse (e ∷ es) (suc m) out_end =
    let big = ltb (length e) (suc m) in
    let (used, n', out_end') =
      reuse es (if big then suc m - length e else 0) (if big then length e else suc m) in
    (e ∷ used, n', out_end')

-- The third loop: new elements, on fuel. It gives the same.
unfoldable pub grow : Allocator → ℕ → ℕ → ℕ → ℕ → List Bytes × ℕ × ℕ
grow a alloc_size zero n out_end = ([], n, out_end)
grow a alloc_size (suc fuel) zero out_end = ([], 0, out_end)
grow a alloc_size (suc fuel) (suc m) out_end =
    let e = a.allocate (if ltb alloc_size (suc m) then suc m else alloc_size) in
    let full = leb (length e) (suc m) in
    let (made, n', out_end') =
      grow a alloc_size fuel (if full then suc m - length e else 0)
        (if full then length e else suc m) in
    (e ∷ made, n', out_end')

-- Both loops, from what is wanted behind `out_`; the elements that are left are deallocated.
unfoldable pub extend : Allocator → ℕ → List Bytes → ℕ → ℕ → List Bytes × ℕ
unfolding reuse grow
extend a alloc_size rest n out_end =
    let (used, n', out_end') = reuse rest n out_end in
    let (made, n'', out_end'') = grow a alloc_size n' n' out_end' in (used ++ made, out_end'')

-- What `out_` has to give: the bytes still wanted behind it, and `out_end_`.
abbrev pub first_part : Bytes → ℕ → ℕ → ℕ × ℕ
first_part o out_pos n =
    let avail = length o - out_pos in
    if ltb avail n then (n - avail, length o) else (0, out_pos + n)

unfoldable pub prepare_at : Allocator → List Bytes → ℕ → Streambuf → Streambuf
unfolding extend
prepare_at a [] n sb =
    let (made, out_end) = extend a sb.alloc_size [] n sb.out_end in
    record sb { after = made; out_end = out_end }
prepare_at a (o ∷ rest) n sb =
    let (wanted, out_end) = first_part o sb.out_pos n in
    let (used, out_end') = extend a sb.alloc_size rest wanted out_end in
    record sb { after = o ∷ used; out_end = out_end' }

unfoldable pub prepare : Allocator → ℕ → Streambuf → Streambuf
unfolding prepare_at
prepare a n sb = prepare_at a sb.after n sb

-- `commit` from the element that `out_` stands on.
unfoldable pub commit_at : List Bytes → ℕ → Streambuf → Streambuf
commit_at [] n sb = sb
commit_at (o ∷ []) n sb =
    let k = min n (sb.out_end - sb.out_pos) in
    let sb' = record sb { out_pos = sb.out_pos + k; in_size = sb.in_size + k } in
    if sb'.out_pos == length o
    then record sb' { before = sb.before ++ (o ∷ []); after = []; out_pos = 0; out_end = 0 }
    else sb'
commit_at (o ∷ o' ∷ rest) n sb =
    let avail = length o - sb.out_pos in
    let moved = commit_at (o' ∷ rest) (n - avail) (record sb {
      before = sb.before ++ (o ∷ []);
      after = o' ∷ rest;
      out_pos = 0;
      in_size = sb.in_size + avail;
    }) in
    if ltb n avail then record sb { out_pos = sb.out_pos + n; in_size = sb.in_size + n } else moved

unfoldable pub commit : ℕ → Streambuf → Streambuf
unfolding commit_at
commit n sb = commit_at sb.after n sb

-- All input of the element of `out_` goes. An empty list has no last element, and its end is `out_`.
unfoldable pub use_up : List Bytes → Streambuf → Streambuf
use_up [] sb = record sb { in_size = 0; in_pos = 0; out_pos = 0; out_end = 0 }
use_up (o ∷ []) sb =
    if sb.out_pos == sb.out_end
    then record sb { in_size = 0; in_pos = 0; out_pos = 0; out_end = 0 }
    else record sb { in_size = 0; in_pos = sb.out_pos }
use_up (o ∷ o' ∷ rest) sb = record sb { in_size = 0; in_pos = sb.out_pos }

-- The last round of `consume`, where the first element is `out_`.
unfoldable pub consume_last : List Bytes → ℕ → Streambuf → Streambuf
unfolding use_up
consume_last after n sb =
    if ltb n (sb.out_pos - sb.in_pos)
    then record sb { in_size = sb.in_size - n; in_pos = sb.in_pos + n }
    else use_up after sb

unfoldable pub consume_at : List Bytes → ℕ → Streambuf → Streambuf
unfolding consume_last
consume_at [] n sb = consume_last sb.after n sb
consume_at (e ∷ es) n sb =
    let avail = length e - sb.in_pos in
    let erased =
      consume_at es (n - avail)
        (record sb { before = es; in_size = sb.in_size - avail; in_pos = 0 }) in
    if ltb n avail then record sb { in_size = sb.in_size - n; in_pos = sb.in_pos + n } else erased

unfoldable pub consume : ℕ → Streambuf → Streambuf
unfolding consume_at
consume n sb = from sb.before sb.after
  where
    from : List Bytes → List Bytes → Streambuf
    from [] [] = sb
    from [] (o ∷ rest) = consume_at [] n sb
    from (e ∷ es) after = consume_at (e ∷ es) n sb

unfoldable pub clear : Streambuf → Streambuf
clear sb = record sb { before = []; after = []; in_size = 0; in_pos = 0; out_pos = 0; out_end = 0 }

-- The move constructor: the new buffer, and the other behind it.
unfoldable pub move_construct : Streambuf → Streambuf × Streambuf
unfolding clear
move_construct other = (other, clear other)

-- `move_assign` with the allocator: this buffer, which keeps its `alloc_size_`, and the other.
unfoldable pub move_assign : Streambuf → Streambuf → Streambuf × Streambuf
unfolding clear
move_assign sb other = (record other { alloc_size = sb.alloc_size }, clear other)

-- `read_size_helper`
unfoldable pub read_size_helper : Streambuf → ℕ → ℕ
unfolding capacity
read_size_helper sb max_size =
    let avail = capacity sb - sb.in_size in
    if ltb 0 avail
    then min avail max_size
    else if ltb 512 sb.alloc_size
    then min max_size sb.alloc_size
    else min max_size 512
