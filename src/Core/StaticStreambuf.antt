-- ===== src/Core/StaticStreambuf.antt =====
-- core/static_streambuf.hpp and core/impl/static_streambuf.ipp: a dynamic buffer over one array. The
-- pointers are positions in it.
pub mod Refine
use beast.Base.{ℕ, ◌+◌, ◌-◌, min, ltb, if◌then◌else◌, Option, none, some, Bytes, length, take, drop}
use beast.Core.Queue.{Queue}

pub record StaticStreambuf : Type 0 where
  pub mem : Bytes
  pub in_at : ℕ
  pub out_at : ℕ
  pub last_at : ℕ
  pub end_at : ℕ

-- `reset`, which the constructor calls, with the whole array.
unfoldable pub static_reset : Bytes → StaticStreambuf
static_reset mem = record { mem = mem; in_at = 0; out_at = 0; last_at = 0; end_at = length mem }

unfoldable pub static_max_size : StaticStreambuf → ℕ
static_max_size sb = sb.end_at - sb.in_at

unfoldable pub static_size : StaticStreambuf → ℕ
static_size sb = sb.out_at - sb.in_at

-- `none` is the exception.
unfoldable pub static_prepare : ℕ → StaticStreambuf → Option StaticStreambuf
static_prepare n sb =
    if ltb (sb.end_at - sb.out_at) n then none else some (record sb { last_at = sb.out_at + n })

unfoldable pub static_commit : ℕ → StaticStreambuf → StaticStreambuf
static_commit n sb = record sb { out_at = sb.out_at + min n (sb.last_at - sb.out_at) }

unfoldable pub static_consume : ℕ → StaticStreambuf → StaticStreambuf
static_consume n sb = record sb { in_at = sb.in_at + min n (sb.out_at - sb.in_at) }

-- The buffer of `data`, and that of the last `prepare`.
unfoldable pub static_data : StaticStreambuf → Bytes
static_data sb = take (sb.out_at - sb.in_at) (drop sb.in_at sb.mem)

unfoldable pub static_prepared : StaticStreambuf → Bytes
static_prepared sb = take (sb.last_at - sb.out_at) (drop sb.out_at sb.mem)
