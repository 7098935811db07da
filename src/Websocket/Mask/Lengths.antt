-- ===== src/Websocket/Mask/Lengths.antt =====
-- Masking keeps the length of a payload.
use beast.Base.{ℕ, ◌≡◌, refl, Bytes, [], ◌∷◌, length, arith}
use beast.Websocket.Mask.Defs.{mask_general64}

pub length-mask_general64 : (bs : Bytes) (key : ℕ) → length (mask_general64 bs key).0 ≡ length bs
unfolding mask_general64
length-mask_general64 (a ∷ b ∷ c ∷ d ∷ e ∷ f ∷ g ∷ h ∷ bs) key =
    omega (arith, length-mask_general64 bs key)
length-mask_general64 (a ∷ b ∷ c ∷ d ∷ e ∷ f ∷ g ∷ []) key = refl
length-mask_general64 (a ∷ b ∷ c ∷ d ∷ e ∷ f ∷ []) key = refl
length-mask_general64 (a ∷ b ∷ c ∷ d ∷ e ∷ []) key = refl
length-mask_general64 (a ∷ b ∷ c ∷ d ∷ []) key = refl
length-mask_general64 (a ∷ b ∷ c ∷ []) key = refl
length-mask_general64 (a ∷ b ∷ []) key = refl
length-mask_general64 (a ∷ []) key = refl
length-mask_general64 [] key = refl
