-- ===== src/Examples/Streambufs.antt =====
-- A streambuf with elements of 4 bytes: bytes are written over two elements and consumed.
use beast.Base.{
  ℕ, zero, suc, ◌+◌, ◌≡◌, ◌≤◌, ◌<◌, ◌⊎◌, refl, none, some, Bytes, List, [], ◌∷◌, ◌++◌, length, flat,
  arith,
}
use beast.Core.Streambuf.{
  Allocator, Streambuf, streambuf, data_buffers, mutable_buffers, reuse, grow, extend, prepare_at,
  prepare, commit_at, commit, use_up, consume_last, consume_at, consume,
}
use beast.Core.Queue.{prepares, commits, consumes, Does, Runs, here, next}
use beast.Core.StaticStreambuf.{
  StaticStreambuf, static_max_size, static_size, static_prepare, static_commit, static_data,
  static_prepared,
}
use beast.Core.StaticStreambuf.Refine.{
  IsOrdered, static_view, static_prepare-outcome, StaticStep-Does,
}
use beast.Core.StaticStreambuf.Refine
use beast.Core.Streambuf.Valid.{IsValid, view, cursor}
use beast.Core.Streambuf.Refine.{
  on_prepare, on_commit, on_consume, Constructed, streambuf-Constructed, Runs-Does,
}
use beast.Core.Streambuf.Use.{write_through, data_buffers-write}

abbrev zeros : ℕ → Bytes
zeros zero = []
zeros (suc n) = 0 ∷ zeros n

length-zeros : (n : ℕ) → length (zeros n) ≡ n
length-zeros zero = refl
length-zeros (suc n) = omega (arith, length-zeros n)

abbrev heap : Allocator
heap = record { allocate = zeros; length-allocate = length-zeros }

-- Three bytes in an element of four, of which the first is consumed, and an element behind it.
abbrev partly_read : Streambuf
partly_read = record {
  before = [];
  after = (1 ∷ 2 ∷ 3 ∷ 0 ∷ []) ∷ (0 ∷ 0 ∷ 0 ∷ 0 ∷ []) ∷ [];
  alloc_size = 4;
  in_size = 2;
  in_pos = 1;
  out_pos = 3;
  out_end = 2;
}

partly_read-IsValid : IsValid partly_read
unfolding cursor
partly_read-IsValid = record {
  alloc_size-positive = omega arith;
  before-IsHeld = tt;
  after-IsHeld = (omega arith, (omega arith, tt));
  out_end-LastFits = omega arith;
  out_pos-Starts = omega arith;
  in_pos-Fronts = omega arith;
  in_size-cursor = refl;
}

-- Six bytes are asked for: one in the first element, four in the second, one in a new one.
abbrev overwritten : List Bytes
overwritten = (1 ∷ 2 ∷ 3 ∷ 11 ∷ []) ∷ (12 ∷ 13 ∷ 14 ∷ 15 ∷ []) ∷ (16 ∷ 0 ∷ 0 ∷ 0 ∷ []) ∷ []

elements_prepared :
    (prepare heap 6 partly_read).after
    ≡ (1 ∷ 2 ∷ 3 ∷ 0 ∷ []) ∷ (0 ∷ 0 ∷ 0 ∷ 0 ∷ []) ∷ (0 ∷ 0 ∷ 0 ∷ 0 ∷ []) ∷ []
unfolding prepare prepare_at extend reuse grow
elements_prepared = refl

data_buffers-write_example :
    flat (data_buffers (write_through heap 6 overwritten partly_read))
      ≡ flat (data_buffers partly_read) ++ (11 ∷ 12 ∷ 13 ∷ 14 ∷ 15 ∷ 16 ∷ [])
    × flat (data_buffers (consume 2 (write_through heap 6 overwritten partly_read)))
      ≡ 11 ∷ 12 ∷ 13 ∷ 14 ∷ 15 ∷ 16 ∷ []
unfolding prepare prepare_at extend reuse grow mutable_buffers
data_buffers-write_example =
    data_buffers-write heap 6 partly_read overwritten (11 ∷ 12 ∷ 13 ∷ 14 ∷ 15 ∷ 16 ∷ [])
      partly_read-IsValid ((refl, (refl, (refl, tt))), refl) refl

abbrev emptied : Streambuf
emptied = consume 1 (commit 6 (prepare heap 6 partly_read))

Runs-Does_example :
    IsValid emptied
    × Runs Does (view partly_read) (prepares 6 ∷ commits 6 ∷ consumes 1 ∷ []) (view emptied)
Runs-Does_example = Runs-Does heap partly_read-IsValid (
    next (on_prepare partly_read 6) (
      next (on_commit (prepare heap 6 partly_read) 6)
        (next (on_consume (commit 6 (prepare heap 6 partly_read)) 1) here)))

abbrev other_size : Streambuf
other_size = record partly_read { alloc_size = 512 }

other_size-IsValid : IsValid other_size
unfolding cursor
other_size-IsValid = record {
  alloc_size-positive = omega arith;
  before-IsHeld = tt;
  after-IsHeld = (omega arith, (omega arith, tt));
  out_end-LastFits = omega arith;
  out_pos-Starts = omega arith;
  in_pos-Fronts = omega arith;
  in_size-cursor = refl;
}

streambuf-Constructed_example : Constructed 1024 (streambuf 1024)
streambuf-Constructed_example = streambuf-Constructed 1024

-- A run over all elements, and the state that is left where all is consumed.
all_consumed : consume 9 (commit 6 (prepare heap 6 partly_read)) ≡ record {
  before = [];
  after = (0 ∷ 0 ∷ 0 ∷ 0 ∷ []) ∷ [];
  alloc_size = 4;
  in_size = 0;
  in_pos = 0;
  out_pos = 0;
  out_end = 0;
}
unfolding prepare prepare_at extend reuse grow commit commit_at consume consume_at consume_last
    use_up
all_consumed = refl

-- An array of four bytes, of which two are input and one is prepared.
abbrev array : StaticStreambuf
array = record { mem = 1 ∷ 2 ∷ 3 ∷ 4 ∷ []; in_at = 0; out_at = 2; last_at = 3; end_at = 4 }

array-IsOrdered : IsOrdered array
array-IsOrdered = record {
  in-out = omega arith;
  out-last = omega arith;
  last-end = omega arith;
  end-mem = refl;
}

static_prepare-outcome_example :
    ((static_prepare 3 array ≡ none) × (static_max_size array < static_size array + 3))
    ⊎ ((sb' : StaticStreambuf) × (static_prepare 3 array ≡ some sb')
        × IsOrdered sb'
        × (static_data sb' ≡ static_data array)
        × (length (static_prepared sb') ≡ 3)
        × (static_size array + 3 ≤ static_max_size array))
static_prepare-outcome_example = static_prepare-outcome 3 array array-IsOrdered

StaticStep-Does_example :
    IsOrdered (static_commit 5 array)
    × Does (commits 5) (static_view array) (static_view (static_commit 5 array))
StaticStep-Does_example = StaticStep-Does array-IsOrdered (Refine.on_commit array 5)
