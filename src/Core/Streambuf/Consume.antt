-- ===== src/Core/Streambuf/Consume.antt =====
-- `consume` takes bytes from the front of the input and leaves the output as it is.
use beast.Base.{
  ℕ, ◌+◌, ◌-◌, ◌≡◌, ◌≤◌, ◌<◌, inl, inr, refl, sym, ap, ◌∙◌, Bytes, List, [], ◌∷◌, ◌++◌, length,
  take, drop, flat, All, arith, length-append, length-take, length-drop, ltb, ◌==◌, Bool-cases,
  drop_all, append_assoc, drop-append_le, drop-append_ge,
}
use beast.Core.Streambuf.{Streambuf, clip_last, use_up, consume_last, consume_at, consume}
use beast.Core.Streambuf.Valid.{Fronts, IsHeld, cursor, bytes, IsValid, view}
use beast.Core.Streambuf.Views.{take-append_add, drop-append_add}
use beast.Core.Streambuf.Consumed.{
  Consumed, within-Consumed, used_up-Consumed, view_nothing, reused-Consumed,
}

abbrev with_before : Streambuf → List Bytes → Streambuf
with_before sb before = record sb { before = before }

-- An element in front of `out_` goes, with the rest of its input.
abbrev erased : Streambuf → Bytes → List Bytes → Streambuf
erased sb e es = record sb {
  before = es;
  in_size = sb.in_size - (length e - sb.in_pos);
  in_pos = 0;
}

erased-cursor :
    (sb : Streambuf) (e : Bytes) (es : List Bytes)
    → cursor (with_before sb (e ∷ es)) ≡ length e + cursor (erased sb e es)
unfolding cursor
erased-cursor sb e es = omega (arith, length-append e (flat es))

erased-IsValid :
    (sb : Streambuf) (e : Bytes) (es : List Bytes)
    → IsValid (with_before sb (e ∷ es))
    → IsValid (erased sb e es)
erased-IsValid sb e es v = record {
  alloc_size-positive = v.alloc_size-positive;
  before-IsHeld = v.before-IsHeld.1;
  after-IsHeld = v.after-IsHeld;
  out_end-LastFits = v.out_end-LastFits;
  out_pos-Starts = v.out_pos-Starts;
  in_pos-Fronts = front es v.before-IsHeld.1;
  in_size-cursor = omega (arith, v.in_size-cursor, v.in_pos-Fronts, erased-cursor sb e es);
}
  where
    front : (bs : List Bytes) → All IsHeld bs → Fronts 0 bs sb.out_pos
    front [] h = omega arith
    front (b ∷ bs) h = h.0

erased-bytes :
    (sb : Streambuf) (e : Bytes) (es : List Bytes)
    → bytes (with_before sb (e ∷ es)) ≡ e ++ bytes (erased sb e es)
unfolding bytes
erased-bytes sb e es = append_assoc e (flat es) (flat (clip_last sb.out_end sb.after))

erased-Consumed :
    (sb : Streambuf) (e : Bytes) (es : List Bytes) (n : ℕ) (sb' : Streambuf)
    → IsValid (with_before sb (e ∷ es))
    → length e - sb.in_pos ≤ n
    → Consumed (n - (length e - sb.in_pos)) (erased sb e es) sb'
    → Consumed n (with_before sb (e ∷ es)) sb'
unfolding view
erased-Consumed sb e es n sb' v le c =
    let r = erased sb e es in
    let T = take (cursor r) (bytes r) in
    let i = sb.in_pos in
    let inside : i ≤ length e = omega (arith, v.in_pos-Fronts) in
    let k : n - length (drop i e) ≡ n - (length e - i) = omega (arith, length-drop i e) in
    record {
      valid = c.valid;
      new_input =
          c.new_input
          ∙ ap (λ m. drop m T) (sym k)
          ∙ sym (drop-append_ge n (drop i e) T (omega (arith, length-drop i e, le)))
          ∙ ap (drop n) (
              sym (drop-append_le i e T inside)
              ∙ ap (drop i) (
                  sym (
                    rw (erased-cursor sb e es, erased-bytes sb e es)
                      (take-append_add (cursor r) e (bytes r)))));
      same_output =
          c.same_output
          ∙ sym (
              rw (erased-cursor sb e es, erased-bytes sb e es)
                (drop-append_add (cursor r) e (bytes r)));
    }

abbrev at_out : Streambuf → List Bytes → Streambuf
at_out sb after = record sb { before = []; after = after }

use_up-Consumed :
    (after : List Bytes) (n : ℕ) (sb : Streambuf)
    → IsValid (at_out sb after)
    → sb.in_size ≤ n
    → Consumed n (at_out sb after) (use_up after (at_out sb after))
unfolding use_up view cursor bytes
use_up-Consumed [] n sb v le =
    reused-Consumed (at_out sb []) n v refl le (drop_all (cursor (at_out sb [])) [] (omega arith))
      refl refl
use_up-Consumed (o ∷ []) n sb v le = elim (Bool-cases (sb.out_pos == sb.out_end)) [
  | inl y ↦
      let s = at_out sb (o ∷ []) in
      let empty : (view s).output ≡ [] =
        drop_all (cursor s) (bytes s)
          (ground (arith, y, length-append (take sb.out_end o) [], length-take sb.out_end o)) in
      rw y (reused-Consumed s n v refl le empty (omega arith) refl)
  | inr m ↦ rw m (used_up-Consumed (at_out sb (o ∷ [])) n v refl le)
]
use_up-Consumed (o ∷ o' ∷ rest) n sb v le = used_up-Consumed (at_out sb (o ∷ o' ∷ rest)) n v refl le

consume_last-Consumed :
    (after : List Bytes) (n : ℕ) (sb : Streambuf)
    → IsValid (at_out sb after)
    → Consumed n (at_out sb after) (consume_last after n (at_out sb after))
unfolding consume_last cursor
consume_last-Consumed after n sb v =
    let s = at_out sb after in
    let size : sb.in_pos + sb.in_size ≡ sb.out_pos = omega (arith, v.in_size-cursor) in
    elim (Bool-cases (ltb n (sb.out_pos - sb.in_pos))) [
      | inl y ↦ rw y (within-Consumed s n v (ground (arith, y, size)) (ground (arith, y)))
      | inr m ↦ rw m (use_up-Consumed after n sb v (ground (arith, m, size)))
    ]

consume_at-Consumed :
    (es : List Bytes) (n : ℕ) (sb : Streambuf)
    → IsValid (with_before sb es)
    → Consumed n (with_before sb es) (consume_at es n (with_before sb es))
unfolding consume_at
consume_at-Consumed [] n sb v = consume_last-Consumed sb.after n sb v
consume_at-Consumed (e ∷ es) n sb v =
    let avail = length e - sb.in_pos in
    let rest = erased sb e es in
    let c = consume_at-Consumed es (n - avail) rest (erased-IsValid sb e es v) in
    elim (Bool-cases (ltb n avail)) [
      | inl y ↦
          let front : sb.in_pos + n < length e = ground (arith, y) in
          let size : n ≤ sb.in_size =
            omega (arith, front, v.in_size-cursor, erased-cursor sb e es) in
          rw y (within-Consumed (with_before sb (e ∷ es)) n v size front)
      | inr m ↦
          rw m (erased-Consumed sb e es n (consume_at es (n - avail) rest) v (ground (arith, m)) c)
    ]

-- An empty list stays as it is.
empty-Consumed : (n : ℕ) (sb : Streambuf) → IsValid sb → bytes sb ≡ [] → Consumed n sb sb
empty-Consumed n sb v none = record {
  valid = v;
  new_input = rw (view_nothing sb none).0 (sym (drop_all n [] (omega arith)));
  same_output = refl;
}

pub consume-Consumed : (n : ℕ) (sb : Streambuf) → IsValid sb → Consumed n sb (consume n sb)
unfolding consume bytes
consume-Consumed n sb v = from sb.before sb.after v
  where
    from :
        (before after : List Bytes)
        → IsValid (record sb { before = before; after = after })
        → Consumed n
            (record sb { before = before; after = after })
            (consume n (record sb { before = before; after = after }))
    from [] [] w = empty-Consumed n (record sb { before = []; after = [] }) w refl
    from [] (o ∷ rest) w = consume_at-Consumed [] n (record sb { before = []; after = o ∷ rest }) w
    from (e ∷ es) after w =
        consume_at-Consumed (e ∷ es) n (record sb { before = e ∷ es; after = after }) w
