-- ===== src/Websocket/Mask/Laws.antt =====
-- What the masking code promises to the frame reader and writer.
use beast.Base.{
  flat, ℕ, ◌/◌, ◌%◌, ◌^◌, ◌<◌, ◌≡◌, refl, sym, ap, ◌∙◌, Bytes, List, [], ◌∷◌, ◌++◌, All, arith,
}
use beast.Websocket.Mask.Defs.{
  prepare_key32, prepare_key64, mask_general32, mask_general64, mask_inplace64,
}
use beast.Websocket.Mask.Refine.{mask_general32-mask_with}
use beast.Websocket.Mask.Refine64.{prepare_key64-pack64, mask_general64-mask_with}
use beast.Websocket.Mask.Spec.{
  Key, IsKey, IsBytes, mask_with, key_after, pack32, pack64, mask_with-append, mask_with-mask_with,
  IsKey-key_after, mask_with-IsBytes,
}

-- The bytes of a 32-bit key, lowest first.
abbrev pub key_bytes : ℕ → Key
key_bytes key = record {
  k0 = key % 2 ^ 8;
  k1 = key / 2 ^ 8 % 2 ^ 8;
  k2 = key / 2 ^ 16 % 2 ^ 8;
  k3 = key / 2 ^ 24 % 2 ^ 8;
}

pub key_bytes-IsKey : (key : ℕ) → IsKey (key_bytes key)
key_bytes-IsKey key = omega arith

pack32-key_bytes : (key : ℕ) → key < 2 ^ 32 → pack32 (key_bytes key) ≡ key
pack32-key_bytes key h = omega arith

module _ (key : ℕ) (fits : key < 2 ^ 32) where
  pub prepared : prepare_key64 key ≡ pack64 (key_bytes key)
  prepared =
      ap prepare_key64 (sym (pack32-key_bytes key fits))
      ∙ prepare_key64-pack64 (key_bytes key) (key_bytes-IsKey key)

  -- For a 32-bit key and octets, the 64-bit loop changes each byte of the payload by exclusive or
  -- with the byte of the key whose turn it is, which are taken from the lowest on, again and again; and it leaves the
  -- doubled key, rotated to the byte whose turn comes next.
  pub mask_general64-key_bytes :
      (bs : Bytes)
      → IsBytes bs
      → mask_general64 bs (prepare_key64 key)
        ≡ (mask_with (key_bytes key) bs, pack64 (key_after (key_bytes key) bs))
  mask_general64-key_bytes bs p =
      rw prepared (mask_general64-mask_with (key_bytes key) bs (key_bytes-IsKey key) p)

  pub mask32-mask_with :
      (bs : Bytes)
      → IsBytes bs
      → mask_general32 bs (prepare_key32 key)
        ≡ (mask_with (key_bytes key) bs, pack32 (key_after (key_bytes key) bs))
  unfolding prepare_key32
  mask32-mask_with bs p =
      ap (mask_general32 bs) (sym (pack32-key_bytes key fits))
      ∙ mask_general32-mask_with (key_bytes key) bs (key_bytes-IsKey key) p

-- For a 32-bit key and octets, masking twice with the same prepared key gives the payload back.
pub mask_general64-mask_general64 :
    (key : ℕ) (bs : Bytes)
    → key < 2 ^ 32
    → IsBytes bs
    → (mask_general64 (mask_general64 bs (prepare_key64 key)).0 (prepare_key64 key)).0 ≡ bs
mask_general64-mask_general64 key bs fits p =
    rw
      (
        mask_general64-key_bytes key fits bs p,
        mask_general64-key_bytes key fits (mask_with (key_bytes key) bs)
            (mask_with-IsBytes bs (key_bytes-IsKey key) p),
      )
      (mask_with-mask_with (key_bytes key) bs)

-- For a 32-bit key and octets, the 64-bit loop masks the payload exactly as the 32-bit loop does,
-- and leaves the doubled form of the key that the 32-bit loop leaves.
pub mask_general64-mask_general32 :
    (key : ℕ) (bs : Bytes)
    → key < 2 ^ 32
    → IsBytes bs
    → ((mask_general64 bs (prepare_key64 key)).0 ≡ (mask_general32 bs (prepare_key32 key)).0)
      × ((mask_general64 bs (prepare_key64 key)).1
          ≡ prepare_key64 (mask_general32 bs (prepare_key32 key)).1)
mask_general64-mask_general32 key bs fits p = (
  rw (mask_general64-key_bytes key fits bs p, mask32-mask_with key fits bs p),
  rw (mask_general64-key_bytes key fits bs p, mask32-mask_with key fits bs p)
      (sym (
        prepare_key64-pack64 (key_after (key_bytes key) bs)
          (IsKey-key_after bs (key_bytes-IsKey key)))),
)

key_after-append :
    (k : Key) (xs ys : Bytes) → key_after k (xs ++ ys) ≡ key_after (key_after k xs) ys
key_after-append k [] ys = refl
key_after-append k (x ∷ xs) ys = key_after-append _ xs ys

mask_inplace64-mask_with :
    (k : Key) (bs : List Bytes)
    → IsKey k
    → All IsBytes bs
    → (flat (mask_inplace64 bs (pack64 k)).0 ≡ mask_with k (flat bs))
      × ((mask_inplace64 bs (pack64 k)).1 ≡ pack64 (key_after k (flat bs)))
unfolding mask_inplace64
mask_inplace64-mask_with k [] valid p = (refl, refl)
mask_inplace64-mask_with k (b ∷ bs) valid p =
    let rest = mask_inplace64-mask_with (key_after k b) bs (IsKey-key_after b valid) p.1 in
    (
      rw (mask_general64-mask_with k b valid p.0, rest.0, mask_with-append k b (flat bs)),
      rw (mask_general64-mask_with k b valid p.0, rest.1, key_after-append k b (flat bs)),
    )

-- For a 32-bit key and octets, masking a sequence of buffers one after the other is masking their
-- concatenation: the bytes and the key left behind do not depend on where the payload is split.
pub mask_inplace64-flat :
    (key : ℕ) (bs cs : List Bytes)
    → key < 2 ^ 32
    → All IsBytes bs
    → All IsBytes cs
    → flat bs ≡ flat cs
    → (flat (mask_inplace64 bs (prepare_key64 key)).0
        ≡ flat (mask_inplace64 cs (prepare_key64 key)).0)
      × ((mask_inplace64 bs (prepare_key64 key)).1 ≡ (mask_inplace64 cs (prepare_key64 key)).1)
mask_inplace64-flat key bs cs fits p q e =
    let there = mask_inplace64-mask_with (key_bytes key) bs (key_bytes-IsKey key) p in
    let here = mask_inplace64-mask_with (key_bytes key) cs (key_bytes-IsKey key) q in
    rw (prepared key fits) (
      there.0 ∙ ap (mask_with (key_bytes key)) e ∙ sym here.0,
      there.1 ∙ ap (λ t. pack64 (key_after (key_bytes key) t)) e ∙ sym here.1,
    )
