-- ===== src/Core/Streambuf/Refine.antt =====
-- The streambuf implements the queue: the operations and the client's writes as steps.
use beast.Base.{
  ℕ, zero, suc, ◌≡◌, ◌<◌, refl, Bytes, List, [], flat, arith, false, Option, some, none, ◌==◌,
}
use beast.Core.Streambuf.{
  Allocator, Streambuf, streambuf, prepare, commit, consume, clear, move_assign, data_buffers,
}
use beast.Core.Queue.{Call, prepares, commits, consumes, stores, clears, Does, Runs, here, next}
use beast.Core.Streambuf.Valid.{IsValid, view, cursor, bytes}
use beast.Core.Streambuf.Prepare.{prepare-Prepared}
use beast.Core.Streambuf.Commit.{commit-Committed, commit-view}
use beast.Core.Streambuf.Consume.{consume-Consumed}
use beast.Core.Streambuf.Consumed.{view_nothing}
use beast.Core.Streambuf.Store.{Overwrites, overwrite-Prepared}

-- What a call does to a streambuf.
pub data Step (a : Allocator) : Call → Streambuf → Streambuf → Type 0 where
  on_prepare : (sb : Streambuf) (n : ℕ) → Step a (prepares n) sb (prepare a n sb)
  on_store :
      (sb : Streambuf) (after : List Bytes)
      → Overwrites sb.out_pos sb.after after
      → Step a (stores (view (record sb { after = after })).output) sb (record sb { after = after })
  on_commit : (sb : Streambuf) (n : ℕ) → Step a (commits n) sb (commit n sb)
  on_consume : (sb : Streambuf) (n : ℕ) → Step a (consumes n) sb (consume n sb)
  on_clear : (sb : Streambuf) → Step a clears sb (clear sb)

clear-IsValid : (sb : Streambuf) → IsValid sb → IsValid (clear sb)
unfolding clear cursor
clear-IsValid sb v = record {
  alloc_size-positive = v.alloc_size-positive;
  before-IsHeld = tt;
  after-IsHeld = tt;
  out_end-LastFits = refl;
  out_pos-Starts = refl;
  in_pos-Fronts = omega arith;
  in_size-cursor = refl;
}

clear-bytes : (sb : Streambuf) → bytes (clear sb) ≡ []
unfolding clear bytes
clear-bytes sb = refl

-- Behind a move assignment the invariant holds of both buffers; this one gives the bytes of the
-- other as its input, and the other has none.
pub move_assign-IsValid :
    (sb other : Streambuf)
    → IsValid sb
    → IsValid other
    → IsValid (move_assign sb other).0
      × IsValid (move_assign sb other).1
      × flat (data_buffers (move_assign sb other).0) ≡ flat (data_buffers other)
      × flat (data_buffers (move_assign sb other).1) ≡ []
unfolding move_assign clear data_buffers cursor
move_assign-IsValid sb other v w = (
  record {
    alloc_size-positive = v.alloc_size-positive;
    before-IsHeld = w.before-IsHeld;
    after-IsHeld = w.after-IsHeld;
    out_end-LastFits = w.out_end-LastFits;
    out_pos-Starts = w.out_pos-Starts;
    in_pos-Fronts = w.in_pos-Fronts;
    in_size-cursor = w.in_size-cursor;
  },
  clear-IsValid other w,
  refl,
  refl,
)

-- What the constructor gives: an exception for no size, and else an empty buffer.
abbrev pub Constructed : ℕ → Option Streambuf → Type 0
Constructed n none = n ≡ 0
Constructed n (some sb) = (0 < n) × IsValid sb × data_buffers sb ≡ [] × sb.alloc_size ≡ n

-- `none`, which is the exception, is the result exactly for an `alloc_size` of 0; otherwise it is a
-- buffer in which the invariant holds, with no input.
pub streambuf-Constructed : (alloc_size : ℕ) → Constructed alloc_size (streambuf alloc_size)
unfolding streambuf data_buffers cursor
streambuf-Constructed zero = refl
streambuf-Constructed (suc n) =
    let no : (suc n == 0) ≡ false = ground arith in
    rw no (
      omega arith,
      record {
        alloc_size-positive = omega arith;
        before-IsHeld = tt;
        after-IsHeld = tt;
        out_end-LastFits = refl;
        out_pos-Starts = refl;
        in_pos-Fronts = omega arith;
        in_size-cursor = refl;
      },
      refl,
      refl,
    )

-- Each call keeps the invariant, and does to the queue what it promises.
pub Step-Does :
    (a : Allocator) {c : Call} {sb sb' : Streambuf}
    → IsValid sb
    → Step a c sb sb'
    → IsValid sb' × Does c (view sb) (view sb')
Step-Does a v (on_prepare sb n) =
    let p = prepare-Prepared a n sb v in (p.valid, (p.same_input, p.length_output))
Step-Does a v (on_store sb after w) =
    let p = overwrite-Prepared sb after v w in (p.valid, (p.same_input, refl, p.length_output))
Step-Does a v (on_commit sb n) = ((commit-Committed n sb v).valid, commit-view n sb v)
Step-Does a v (on_consume sb n) =
    let c = consume-Consumed n sb v in (c.valid, (c.new_input, c.same_output))
Step-Does a v (on_clear sb) = (clear-IsValid sb v, view_nothing (clear sb) (clear-bytes sb))

-- From a buffer in which the invariant holds, calls in any order end in one in which it holds, and
-- the same calls, with the same numbers and bytes, take the queue of the first to that of the last.
pub Runs-Does :
    (a : Allocator) {sb sb' : Streambuf} {cs : List Call}
    → IsValid sb
    → Runs (Step a) sb cs sb'
    → IsValid sb' × Runs Does (view sb) cs (view sb')
Runs-Does a v here = (v, here)
Runs-Does a v (next s r) =
    let m = Step-Does a v s in let ih = Runs-Does a m.0 r in (ih.0, next m.1 ih.1)
