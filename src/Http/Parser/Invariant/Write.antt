-- ===== src/Http/Parser/Invariant/Write.antt =====
-- The invariant through `write` and `write_eof`.
use beast.Base.{
  ℕ, ◌||◌, suc, ◌+◌, ◌≤◌, ◌≡◌, inl, refl, Bool, true, false, none, if◌then◌else◌, Bytes, List, [],
  ◌∷◌, length, All, arith, not, ◌==◌,
}
use mathlib.Core.Path.{subst}
use beast.Http.Parser.Calls.{is_complete, is_set, complete_called}
use beast.Http.Parser.Invariant.Defs.{CbOk, IsValid}
use beast.Http.Parser.Types.{
  State, dead, restart, closed_complete, body_identity_eof, body_identity_eof0, Derived, Parser,
}
use beast.Http.Parser.Write.{is_dead, write_buffer, write, eof_complete, eof_at, write_eof}
use beast.Http.Parser.Invariant.Loop.{Octets, Used, Used-zero, loop-Used, set_piece}

either {ℓ κ} :
    {A : Type ℓ} {x y : A} (P : A → Type κ) (t : Bool) → P x → P y → P (if t then x else y)
either P true h k = h
either P false h k = k

abbrev pub total_length : List Bytes → ℕ
total_length [] = 0
total_length (b ∷ bs) = length b + total_length bs

module _ {S : Type 0} (is_request : Bool) (d : Derived S) where
  -- For a parser that is valid and a buffer of octets: the parser is valid behind
  -- `write(const_buffer, ec)`, it has used no more bytes than the buffer has, and it has used all of
  -- them unless it is dead, its body is paused, or its message is complete.
  pub write_buffer-IsValid :
      (p : Parser S) (buf : Bytes)
      → IsValid p
      → Octets buf
      → Used (length buf) (write_buffer is_request d p buf)
  unfolding write_buffer
  write_buffer-IsValid p [] v o =
      either (Used 0) (not (is_dead p.s)) (v, omega arith, inl refl)
        (Used-zero _ 0 (
          loop-Used is_request d 0 (record p { piece = [] }) 0 [] (set_piece p _ v) o
            (omega arith)))
  write_buffer-IsValid p (ch ∷ rest) v o = rw nonempty (
      Used-zero _ (suc (length rest)) (
        loop-Used is_request d 0 (record p { piece = [] }) 0 (ch ∷ rest) (set_piece p _ v) o
          (omega arith)))
    where
      nonempty : (suc (length rest) == 0) ≡ false
      nonempty = ground arith

  -- For a parser that is valid and buffers of octets: the parser is valid behind
  -- `write(ConstBufferSequence, ec)`, and it has used no more bytes than the buffers have.
  pub write-IsValid :
      (p : Parser S) (bufs : List Bytes)
      → IsValid p
      → All Octets bufs
      → let r = write is_request d p bufs in IsValid r.0 × (r.1 ≤ total_length bufs)
  unfolding write
  write-IsValid p [] v o = (v, omega arith)
  write-IsValid p (b ∷ bs) v o =
      let r = write_buffer is_request d p b in
      let u = write_buffer-IsValid p b v o.0 in
      let w = write-IsValid r.0 bs u.0 o.1 in
      either (λ (s : Parser S × ℕ). IsValid s.0 × (s.1 ≤ length b + total_length bs))
        (is_set r.0.ec) (u.0, omega arith) (w.0, omega arith)

  eof_complete-IsValid : (p : Parser S) → IsValid p → IsValid (eof_complete is_request d p)
  eof_complete-IsValid p v =
      either IsValid (is_set (complete_called is_request d (record p { cb = none })).ec)
        (record { cb_ok = tt; pos_ok = v.pos_ok; length_fits = v.length_fits; length_ok = tt })
        (record { cb_ok = refl; pos_ok = v.pos_ok; length_fits = v.length_fits; length_ok = tt })

  eof_at-IsValid :
      (s : State) (p : Parser S) → IsValid p → p.s ≡ s → IsValid (eof_at is_request d s p)
  eof_at-IsValid restart p v e = record {
    cb_ok = subst (λ s. CbOk s p.cb) e v.cb_ok;
    pos_ok = v.pos_ok;
    length_fits = v.length_fits;
    length_ok = tt;
  }
  eof_at-IsValid dead p v e = v
  eof_at-IsValid closed_complete p v e = v
  eof_at-IsValid body_identity_eof0 p v e = eof_complete-IsValid p v
  eof_at-IsValid body_identity_eof p v e = eof_complete-IsValid p v
  eof_at-IsValid _ p v e = record {
    cb_ok = tt;
    pos_ok = v.pos_ok;
    length_fits = v.length_fits;
    length_ok = tt;
  }

  -- A parser that is valid is valid behind `write_eof`, and then it is dead or its message is
  -- complete.
  pub write_eof-IsValid :
      (p : Parser S)
      → IsValid p
      → let q = write_eof is_request d p in IsValid q × ((is_dead q.s || is_complete q.s) ≡ true)
  unfolding write_eof is_complete
  write_eof-IsValid p v = (eof_at-IsValid p.s p v refl, ended p.s p refl)
    where
      ended :
          (s : State) (p : Parser S)
          → p.s ≡ s
          → let q = eof_at is_request d s p in (is_dead q.s || is_complete q.s) ≡ true
      ended restart p e = refl
      ended dead p e = rw e refl
      ended closed_complete p e = rw e refl
      ended body_identity_eof0 p e = ground arith
      ended body_identity_eof p e = ground arith
      ended _ p e = refl
