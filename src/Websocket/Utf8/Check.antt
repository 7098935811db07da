-- ===== src/Websocket/Utf8/Check.antt =====
-- Text in pieces, and what is accepted as a whole.
use beast.Base.{
  ℕ, ◌≡◌, ◌↔◌, inl, inr, refl, sym, ap, ◌∙◌, Bool, true, false, ◌==◌, if◌then◌else◌, Bool-cases,
  Bytes, List, [], ◌∷◌, ◌++◌, flat,
}
use beast.Websocket.Mask.Spec.{IsBytes}
use beast.Websocket.Utf8.{Utf8Checker, advance, write, write_buffers, finish, check_utf8}
use beast.Websocket.Utf8.Spec.{IsUtf8, nothing, scalar}
use beast.Websocket.Utf8.Sound.{check_utf8_sound}
use beast.Websocket.Utf8.Encode.{write-encode}

abbrev pub then_write : Utf8Checker × Bool → Bytes → Utf8Checker × Bool
then_write r bs = if r.1 then write r.0 bs else (r.0, false)

-- A piece and then another is the two as one.
pub write-append :
    (c : Utf8Checker) (xs ys : Bytes) → write c (xs ++ ys) ≡ then_write (write c xs) ys
unfolding write
write-append c [] ys = refl
write-append c (x ∷ xs) ys = elim (Bool-cases ((advance c x).state == 1)) [
  | inl y ↦ rw y refl
  | inr n ↦ rw n (write-append (advance c x) xs ys)
]

-- A text in any pieces, empty ones too, is checked as the one text that they make: with the same
-- answer, and with the same machine behind it.
pub write_buffers-flat :
    (c : Utf8Checker) (bs : List Bytes) → write_buffers c bs ≡ write c (flat bs)
unfolding write_buffers
write_buffers-flat c [] = unfold write in refl
write_buffers-flat c (b ∷ bs) =
    ap (λ t. if (write c b).1 then t else ((write c b).0, false))
      (write_buffers-flat (write c b).0 bs)
    ∙ sym (write-append c b (flat bs))

abbrev pub passes : Utf8Checker × Bool → Bool
passes r = if r.1 then (finish r.0).1 else false

complete :
    {bs : Bytes} (k : ℕ)
    → IsUtf8 bs
    → passes (write (record { state = 0; codepoint = k }) bs) ≡ true
complete k nothing = unfold write finish in refl
complete k (scalar c rest sc e more) =
    ap (λ t. passes (write (record { state = 0; codepoint = k }) t)) e
    ∙ ap passes (write-encode rest c k sc)
    ∙ complete c more

-- Octets are accepted exactly when they are those of a sequence of Unicode scalar values, each in
-- the one form that RFC 3629 gives it: nothing overlong, no surrogate, nothing past U+10FFFF, and
-- nothing cut off.
pub check_utf8_iff : (bs : Bytes) → IsBytes bs → (check_utf8 bs ≡ true) ↔ IsUtf8 bs
check_utf8_iff bs b = (check_utf8_sound bs b, λ u. unfold check_utf8 in complete 0 u)
