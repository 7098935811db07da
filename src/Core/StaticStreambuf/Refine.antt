-- ===== src/Core/StaticStreambuf/Refine.antt =====
-- The static streambuf implements the queue that a dynamic buffer promises.
use mathlib.Core.Path.{subst}
use beast.Base.{
  ℕ, ◌+◌, ◌-◌, ◌≡◌, ◌≤◌, ◌<◌, ◌⊎◌, inl, inr, refl, sym, ap, ◌∙◌, min, ltb, Bool-cases, none, some,
  Bytes, [], ◌++◌, length, take, drop, arith, length-take, length-drop, take-append-take-drop,
  drop-drop, take-take, drop-take, drop-take-drop,
}
use beast.Core.Queue.{Queue, Call, prepares, commits, consumes, stores, clears, Does}
use beast.Core.StaticStreambuf.{
  StaticStreambuf, static_reset, static_max_size, static_size, static_prepare, static_commit,
  static_consume, static_data, static_prepared,
}

-- The positions are in order, within the array.
pub record IsOrdered (sb : StaticStreambuf) : Type 0 where
  pub in-out : sb.in_at ≤ sb.out_at
  pub out-last : sb.out_at ≤ sb.last_at
  pub last-end : sb.last_at ≤ sb.end_at
  pub end-mem : sb.end_at ≡ length sb.mem

abbrev pub static_view : StaticStreambuf → Queue
static_view sb = record { input = static_data sb; output = static_prepared sb }

-- What a call does to it: an operation that does not throw, or a write of the client behind `out_`.
pub data StaticStep : Call → StaticStreambuf → StaticStreambuf → Type 0 where
  on_prepare :
      {sb' : StaticStreambuf} (sb : StaticStreambuf) (n : ℕ)
      → static_prepare n sb ≡ some sb'
      → StaticStep (prepares n) sb sb'
  on_store :
      (sb : StaticStreambuf) (mem : Bytes)
      → length mem ≡ length sb.mem
      → take sb.out_at mem ≡ take sb.out_at sb.mem
      → StaticStep (stores (static_prepared (record sb { mem = mem }))) sb (record sb { mem = mem })
  on_commit : (sb : StaticStreambuf) (n : ℕ) → StaticStep (commits n) sb (static_commit n sb)
  on_consume : (sb : StaticStreambuf) (n : ℕ) → StaticStep (consumes n) sb (static_consume n sb)
  on_reset : (sb : StaticStreambuf) → StaticStep clears sb (static_reset sb.mem)

length-static_prepared :
    (sb : StaticStreambuf) → IsOrdered sb → length (static_prepared sb) ≡ sb.last_at - sb.out_at
unfolding static_prepared
length-static_prepared sb o = omega (
  arith,
  length-take (sb.last_at - sb.out_at) (drop sb.out_at sb.mem),
  length-drop sb.out_at sb.mem,
  o.in-out,
  o.out-last,
  o.last-end,
  o.end-mem,
)

-- `prepare` throws exactly where fewer bytes are left than are asked for; otherwise the input stays,
-- and there are as many bytes to write to.
pub static_prepare-outcome :
    (n : ℕ) (sb : StaticStreambuf)
    → IsOrdered sb
    → ((static_prepare n sb ≡ none) × (static_max_size sb < static_size sb + n))
      ⊎ ((sb' : StaticStreambuf) × (static_prepare n sb ≡ some sb')
          × IsOrdered sb'
          × (static_data sb' ≡ static_data sb)
          × (length (static_prepared sb') ≡ n)
          × (static_size sb + n ≤ static_max_size sb))
unfolding static_prepare static_max_size static_size static_data
static_prepare-outcome n sb o = elim (Bool-cases (ltb (sb.end_at - sb.out_at) n)) [
  | inl y ↦ inl (rw y refl, ground (arith, y, o.in-out, o.out-last, o.last-end))
  | inr m ↦
      let sb' = record sb { last_at = sb.out_at + n } in
      let room : n ≤ sb.end_at - sb.out_at = ground (arith, m) in
      let o' : IsOrdered sb' = record {
        in-out = o.in-out;
        out-last = omega arith;
        last-end = omega (arith, room, o.out-last, o.last-end);
        end-mem = o.end-mem;
      } in
      inr (
        sb',
        rw m refl,
        o',
        refl,
        length-static_prepared sb' o' ∙ omega arith,
        omega (arith, room, o.in-out, o.out-last, o.last-end),
      )
]

static_commit-view :
    (n : ℕ) (sb : StaticStreambuf)
    → IsOrdered sb
    → (static_data (static_commit n sb) ≡ static_data sb ++ take n (static_prepared sb))
      × (static_prepared (static_commit n sb) ≡ drop n (static_prepared sb))
unfolding static_commit static_data static_prepared
static_commit-view n sb o =
    let k = min n (sb.last_at - sb.out_at) in
    let m = sb.out_at - sb.in_at in
    let D = drop sb.in_at sb.mem in
    let count : sb.out_at + k - sb.in_at ≡ m + k = omega (arith, o.in-out) in
    let left : sb.last_at - (sb.out_at + k) ≡ sb.last_at - sb.out_at - k = omega arith in
    let here : sb.in_at + m ≡ sb.out_at = omega (arith, o.in-out) in
    let behind : drop m D ≡ drop sb.out_at sb.mem =
      drop-drop sb.in_at m sb.mem ∙ ap (λ i. drop i sb.mem) here in
    (
      ap (λ i. take i D) count
          ∙ sym (take-append-take-drop m k D)
          ∙ ap (λ t. take m D ++ t)
              (ap (take k) behind
                ∙ sym (take-take n (sb.last_at - sb.out_at) (drop sb.out_at sb.mem))),
      ap (λ i. take i (drop (sb.out_at + k) sb.mem)) left
          ∙ sym (drop-take-drop n (sb.last_at - sb.out_at) sb.out_at sb.mem),
    )

static_consume-view :
    (n : ℕ) (sb : StaticStreambuf) → static_data (static_consume n sb) ≡ drop n (static_data sb)
unfolding static_consume static_data
static_consume-view n sb =
    let k = min n (sb.out_at - sb.in_at) in
    let left : sb.out_at - (sb.in_at + k) ≡ sb.out_at - sb.in_at - k = omega arith in
    ap (λ i. take i (drop (sb.in_at + k) sb.mem)) left
    ∙ sym (drop-take-drop n (sb.out_at - sb.in_at) sb.in_at sb.mem)

static_commit-IsOrdered :
    (n : ℕ) (sb : StaticStreambuf) → IsOrdered sb → IsOrdered (static_commit n sb)
unfolding static_commit
static_commit-IsOrdered n sb o = record {
  in-out = omega (arith, o.in-out);
  out-last = omega (arith, o.out-last);
  last-end = o.last-end;
  end-mem = o.end-mem;
}

static_consume-IsOrdered :
    (n : ℕ) (sb : StaticStreambuf) → IsOrdered sb → IsOrdered (static_consume n sb)
unfolding static_consume
static_consume-IsOrdered n sb o = record {
  in-out = omega (arith, o.in-out);
  out-last = o.out-last;
  last-end = o.last-end;
  end-mem = o.end-mem;
}

static_consume-prepared :
    (n : ℕ) (sb : StaticStreambuf) → static_prepared (static_consume n sb) ≡ static_prepared sb
unfolding static_consume static_prepared
static_consume-prepared n sb = refl

stores-IsOrdered :
    (sb : StaticStreambuf) (mem : Bytes)
    → IsOrdered sb
    → length mem ≡ length sb.mem
    → IsOrdered (record sb { mem = mem })
stores-IsOrdered sb mem o size = record {
  in-out = o.in-out;
  out-last = o.out-last;
  last-end = o.last-end;
  end-mem = o.end-mem ∙ sym size;
}

stores-data :
    (sb : StaticStreambuf) (mem : Bytes)
    → take sb.out_at mem ≡ take sb.out_at sb.mem
    → static_data (record sb { mem = mem }) ≡ static_data sb
unfolding static_data
stores-data sb mem same =
    sym (drop-take sb.in_at sb.out_at mem)
    ∙ ap (drop sb.in_at) same
    ∙ drop-take sb.in_at sb.out_at sb.mem

static_reset-IsOrdered : (mem : Bytes) → IsOrdered (static_reset mem)
unfolding static_reset
static_reset-IsOrdered mem = record {
  in-out = omega arith;
  out-last = omega arith;
  last-end = omega arith;
  end-mem = refl;
}

static_reset-view :
    (mem : Bytes)
    → (static_data (static_reset mem) ≡ []) × (static_prepared (static_reset mem) ≡ [])
unfolding static_reset static_data static_prepared
static_reset-view mem = (refl, refl)

prepares-outcome :
    (n : ℕ) (sb sb' : StaticStreambuf)
    → IsOrdered sb
    → static_prepare n sb ≡ some sb'
    → IsOrdered sb' × (static_data sb' ≡ static_data sb) × (length (static_prepared sb') ≡ n)
prepares-outcome n sb sb' o e = elim (static_prepare-outcome n sb o) [
  | inl h ↦ absurd (ground (arith, h.0, e))
  | inr h ↦
      let same : h.0 ≡ sb' = ground (arith, h.1, e) in
      (
        subst IsOrdered same h.2,
        subst (λ t. static_data t ≡ static_data sb) same h.3,
        subst (λ t. length (static_prepared t) ≡ n) same h.4,
      )
]

-- Where the positions are in order, each call keeps them so, and does to the queue what the queue's
-- call of that kind does, with the same number.
pub StaticStep-Does :
    {c : Call} {sb sb' : StaticStreambuf}
    → IsOrdered sb
    → StaticStep c sb sb'
    → IsOrdered sb' × Does c (static_view sb) (static_view sb')
StaticStep-Does o (on_prepare {sb'} sb n e) =
    let p = prepares-outcome n sb sb' o e in (p.0, (p.1, p.2))
StaticStep-Does o (on_store sb mem size same) =
    let o' = stores-IsOrdered sb mem o size in
    (
      o',
      (
        stores-data sb mem same,
        refl,
        length-static_prepared (record sb { mem = mem }) o' ∙ sym (length-static_prepared sb o),
      ),
    )
StaticStep-Does o (on_commit sb n) = (static_commit-IsOrdered n sb o, static_commit-view n sb o)
StaticStep-Does o (on_consume sb n) =
    (static_consume-IsOrdered n sb o, (static_consume-view n sb, static_consume-prepared n sb))
StaticStep-Does o (on_reset sb) = (static_reset-IsOrdered sb.mem, static_reset-view sb.mem)
