-- ===== src/Websocket/Reader/Cipher.antt =====
-- A payload on its way: masked or not, and taken off in pieces.
use beast.Base.{ℕ, ◌≡◌, refl, ap, ◌∙◌, Bool, true, false, Bytes, [], ◌∷◌, ◌++◌, length, arith}
use beast.Websocket.Mask.Defs.{mask_general64}
use beast.Websocket.Mask.Refine64.{mask_general64-mask_with}
use beast.Websocket.Mask.Spec.{
  Key, IsKey, IsBytes, rotate, mask_with, key_after, pack64, mask_with-append, mask_with-mask_with,
  key_after-mask_with, IsKey-key_after, mask_with-IsBytes,
}
use beast.Websocket.StreamBase.Write.{masked}

abbrev pub cipher : Bool → Key → Bytes → Bytes
cipher true k bs = mask_with k bs
cipher false k bs = bs

-- What the reader holds of the key.
abbrev pub Keyed : Bool → ℕ → Key → Type 0
Keyed true key k = (key ≡ pack64 k) × IsKey k
Keyed false key k = Unit

length-mask_with : (k : Key) (bs : Bytes) → length (mask_with k bs) ≡ length bs
length-mask_with k [] = refl
length-mask_with k (b ∷ bs) = omega (arith, length-mask_with (rotate k) bs)

pub length-cipher : (m : Bool) (k : Key) (bs : Bytes) → length (cipher m k bs) ≡ length bs
length-cipher true k bs = length-mask_with k bs
length-cipher false k bs = refl

pub cipher-append :
    (m : Bool) (k : Key) (xs ys : Bytes)
    → cipher m k (xs ++ ys) ≡ cipher m k xs ++ cipher m (key_after k xs) ys
cipher-append true k xs ys = mask_with-append k xs ys
cipher-append false k xs ys = refl

-- A piece is unmasked by the key held, which is turned to the piece behind it.
pub masked-cipher :
    (m : Bool) (key : ℕ) (k : Key) (bs : Bytes)
    → Keyed m key k
    → IsBytes bs
    → ((masked m (cipher m k bs) key).0 ≡ bs)
      × Keyed m (masked m (cipher m k bs) key).1 (key_after k bs)
masked-cipher false key k bs h b = (refl, tt)
masked-cipher true key k bs (e, h) b =
    let r = mask_general64-mask_with k (mask_with k bs) h (mask_with-IsBytes bs h b) in
    let whole = ap (mask_general64 (mask_with k bs)) e ∙ r in
    (
      ap (λ t. t.0) whole ∙ mask_with-mask_with k bs,
      (ap (λ t. t.1) whole ∙ ap pack64 (key_after-mask_with k k bs), IsKey-key_after bs h),
    )
