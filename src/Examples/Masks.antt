-- ===== src/Examples/Masks.antt =====
-- The theorems on the masking code at a concrete key and payload.
use beast.Base.{flat, ℕ, ◌≡◌, refl, Bytes, List, [], ◌∷◌, arith}
use beast.Websocket.Mask.Defs.{prepare_key64, mask_general64, mask_inplace64}
use beast.Websocket.Mask.Laws.{key_bytes, mask_general64-key_bytes, mask_inplace64-flat}
use beast.Websocket.Mask.Spec.{mask_with, key_after, pack64}

abbrev key : ℕ
key = 0x3d21fa37

abbrev payload : Bytes
payload = 0x48 ∷ 0x65 ∷ 0x6c ∷ 0x6c ∷ 0x6f ∷ 0x20 ∷ 0x57 ∷ 0x6f ∷ 0x72 ∷ 0x6c ∷ 0x64 ∷ []

-- The example of RFC 6455 section 5.7: a masked "Hello".
hello_masked :
    (mask_general64 (0x48 ∷ 0x65 ∷ 0x6c ∷ 0x6c ∷ 0x6f ∷ []) (prepare_key64 key)).0
    ≡ 0x7f ∷ 0x9f ∷ 0x4d ∷ 0x51 ∷ 0x58 ∷ []
unfolding mask_general64 prepare_key64
hello_masked = refl

mask_general64-key_bytes_example :
    mask_general64 payload (prepare_key64 key)
    ≡ (mask_with (key_bytes key) payload, pack64 (key_after (key_bytes key) payload))
mask_general64-key_bytes_example = mask_general64-key_bytes key (omega arith) payload (omega arith)

abbrev split : List Bytes
split =
    (0x48 ∷ 0x65 ∷ 0x6c ∷ [])
    ∷ (0x6c ∷ 0x6f ∷ 0x20 ∷ 0x57 ∷ [])
    ∷ []
    ∷ (0x6f ∷ 0x72 ∷ 0x6c ∷ 0x64 ∷ [])
    ∷ []

mask_inplace64-flat_example :
    (flat (mask_inplace64 split (prepare_key64 key)).0
      ≡ flat (mask_inplace64 (payload ∷ []) (prepare_key64 key)).0)
    × ((mask_inplace64 split (prepare_key64 key)).1
        ≡ (mask_inplace64 (payload ∷ []) (prepare_key64 key)).1)
mask_inplace64-flat_example =
    mask_inplace64-flat key split (payload ∷ []) (omega arith) (omega arith) (omega arith) refl
