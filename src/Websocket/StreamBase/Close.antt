-- ===== src/Websocket/StreamBase/Close.antt =====
-- detail/frame.hpp: the payload of a close frame as it is read. `check_utf8` is the parameter
-- `is_utf8`.
use beast.Base.{
  ℕ, ◌^◌, ◌%◌, ◌/◌, ◌≡◌, ◌≤◌, ◌<◌, ◌⊎◌, inl, inr, refl, ap, ◌∙◌, Bool, true, false, ltb,
  if◌then◌else◌, Bool-cases, Option, none, some, Bytes, [], ◌∷◌, ◌++◌, length, arith,
}
use beast.Websocket.Frame.{Endian, big_uint16_to_native}
use beast.Websocket.StreamBase.{CloseReason}
use beast.Websocket.StreamBase.Control.{close_payload}
use beast.Websocket.Types.{CloseCode, code_none, code_protocol_error, is_valid_code}

-- `read` behind the code: the reason, and the code for the caller.
unfoldable pub read_reason :
    (Bytes → Bool) → CloseCode → CloseReason → Bytes → CloseReason × CloseCode
read_reason is_utf8 code cr [] = (record { code = code; reason = [] }, code_none)
read_reason is_utf8 code cr (c ∷ cs) = (
  record { code = code; reason = c ∷ cs },
  if is_utf8 (c ∷ cs) then code_none else code_protocol_error,
)

-- `read(close_reason&, ...)` behind the `assert` on the size; a failed one is `none` below.
unfoldable pub read_code : (Bytes → Bool) → CloseReason → Bytes → CloseReason × CloseCode
unfolding read_reason big_uint16_to_native is_valid_code
read_code is_utf8 cr [] = (record { code = code_none; reason = [] }, code_none)
read_code is_utf8 cr (b0 ∷ []) = (cr, code_protocol_error)
read_code is_utf8 cr (b0 ∷ b1 ∷ rest) =
    let code = big_uint16_to_native b0 b1 in
    if is_valid_code code
    then read_reason is_utf8 code cr rest
    else (record cr { code = code }, code_protocol_error)

unfoldable pub read_close : (Bytes → Bool) → CloseReason → Bytes → Option (CloseReason × CloseCode)
unfolding read_code
read_close is_utf8 cr bs = if ltb 125 (length bs) then none else some (read_code is_utf8 cr bs)

-- What may be read without an error: nothing, or a valid code and text that is UTF-8.
pub data IsAccepted (is_utf8 : Bytes → Bool) : Bytes → CloseReason → Type 0 where
  nothing : IsAccepted is_utf8 [] (record { code = code_none; reason = [] })
  reason_read :
      (b0 b1 : ℕ) (text : Bytes)
      → is_valid_code (big_uint16_to_native b0 b1) ≡ true
      → (text ≡ []) ⊎ (is_utf8 text ≡ true)
      → IsAccepted is_utf8
          (b0 ∷ b1 ∷ text)
          (record { code = big_uint16_to_native b0 b1; reason = text })

read_reason-IsAccepted :
    (is_utf8 : Bytes → Bool) (b0 b1 : ℕ) (cr : CloseReason) (rest : Bytes)
    → is_valid_code (big_uint16_to_native b0 b1) ≡ true
    → let r = read_reason is_utf8 (big_uint16_to_native b0 b1) cr rest in
      ((r.1 ≡ code_none) × IsAccepted is_utf8 (b0 ∷ b1 ∷ rest) r.0)
      ⊎ ((r.1 ≡ code_protocol_error) × (is_utf8 rest ≡ false))
unfolding read_reason
read_reason-IsAccepted is_utf8 b0 b1 cr [] ok = inl (refl, reason_read b0 b1 [] ok (inl refl))
read_reason-IsAccepted is_utf8 b0 b1 cr (c ∷ cs) ok = elim (Bool-cases (is_utf8 (c ∷ cs))) [
  | inl y ↦ inl (rw y refl, reason_read b0 b1 (c ∷ cs) ok (inr y))
  | inr n ↦ inr (rw n refl, n)
]

-- What is read with an error: a lone byte, a code that is not valid, or text that is not UTF-8.
abbrev pub IsRejected : (Bytes → Bool) → Bytes → Type 0
IsRejected is_utf8 [] = ⊥
IsRejected is_utf8 (b0 ∷ []) = Unit
IsRejected is_utf8 (b0 ∷ b1 ∷ text) =
    (is_valid_code (big_uint16_to_native b0 b1) ≡ false) ⊎ (is_utf8 text ≡ false)

read_code-outcome :
    (is_utf8 : Bytes → Bool) (cr : CloseReason) (bs : Bytes)
    → let r = read_code is_utf8 cr bs in
      ((r.1 ≡ code_none) × IsAccepted is_utf8 bs r.0)
      ⊎ ((r.1 ≡ code_protocol_error) × IsRejected is_utf8 bs)
unfolding read_code
read_code-outcome is_utf8 cr [] = inl (refl, nothing)
read_code-outcome is_utf8 cr (b0 ∷ []) = inr (refl, tt)
read_code-outcome is_utf8 cr (b0 ∷ b1 ∷ rest) =
    elim (Bool-cases (is_valid_code (big_uint16_to_native b0 b1))) [
      | inl y ↦ rw y (elim (read_reason-IsAccepted is_utf8 b0 b1 cr rest y) [
        | inl a ↦ inl a
        | inr r ↦ inr (r.0, inr r.1)
      ])
      | inr n ↦ rw n (inr (refl, inl refl))
    ]

-- The payload of a close frame of at most 125 bytes is read; either no error is given, and it is
-- empty or a valid code and text that is empty or UTF-8, which are what is read; or a protocol error
-- is given, and it is a lone byte, its code is not valid, or its text is not UTF-8.
pub read_close-outcome :
    (is_utf8 : Bytes → Bool) (cr : CloseReason) (bs : Bytes)
    → length bs ≤ 125
    → (r : CloseReason × CloseCode) × (read_close is_utf8 cr bs ≡ some r)
      × (((r.1 ≡ code_none) × IsAccepted is_utf8 bs r.0)
          ⊎ ((r.1 ≡ code_protocol_error) × IsRejected is_utf8 bs))
unfolding read_close
read_close-outcome is_utf8 cr bs le =
    let short : ltb 125 (length bs) ≡ false = ground (arith, le) in
    (read_code is_utf8 cr bs, rw short refl, read_code-outcome is_utf8 cr bs)

read_reason-valid :
    (is_utf8 : Bytes → Bool) (code : CloseCode) (old : CloseReason) (text : Bytes)
    → (text ≡ []) ⊎ (is_utf8 text ≡ true)
    → read_reason is_utf8 code old text ≡ (record { code = code; reason = text }, code_none)
unfolding read_reason
read_reason-valid is_utf8 code old [] h = refl
read_reason-valid is_utf8 code old (c ∷ cs) (inl e) = absurd (omega (arith, ap length e))
read_reason-valid is_utf8 code old (c ∷ cs) (inr h) = rw h refl

native-bytes : (v : ℕ) → v < 2 ^ 16 → big_uint16_to_native (v / 2 ^ 8) (v % 2 ^ 8) ≡ v
unfolding big_uint16_to_native
native-bytes v h = omega arith

read_code-bytes :
    (is_utf8 : Bytes → Bool) (old : CloseReason) (code : ℕ) (text : Bytes)
    → code < 2 ^ 16
    → is_valid_code code ≡ true
    → (text ≡ []) ⊎ (is_utf8 text ≡ true)
    → read_code is_utf8 old (code / 2 ^ 8 ∷ code % 2 ^ 8 ∷ text)
      ≡ (record { code = code; reason = text }, code_none)
unfolding read_code
read_code-bytes is_utf8 old code text fits valid utf8 =
    rw (native-bytes code fits, valid) (read_reason-valid is_utf8 code old text utf8)

-- A close reason with a valid code of 16 bits and text of at most 123 bytes, empty or UTF-8: what
-- `write_close` puts into the payload, `read` reads back, without an error.
pub read_close-close_payload :
    (e : Endian) (is_utf8 : Bytes → Bool) (old cr : CloseReason)
    → cr.code < 2 ^ 16
    → is_valid_code cr.code ≡ true
    → length cr.reason ≤ 123
    → (cr.reason ≡ []) ⊎ (is_utf8 cr.reason ≡ true)
    → read_close is_utf8 old (close_payload e cr) ≡ some (cr, code_none)
unfolding read_close
read_close-close_payload e is_utf8 old cr fits valid short utf8 =
    let low : cr.code % 2 ^ 16 ≡ cr.code = omega (arith, fits) in
    let bytes : close_payload e cr ≡ cr.code / 2 ^ 8 ∷ cr.code % 2 ^ 8 ∷ cr.reason =
      ap (λ v. e.big16 v ++ cr.reason) low
      ∙ ap (λ t. t ++ cr.reason) (e.big16_bytes cr.code fits) in
    let small : ltb 125 (length (cr.code / 2 ^ 8 ∷ cr.code % 2 ^ 8 ∷ cr.reason)) ≡ false =
      ground (arith, short) in
    ap (λ t. read_close is_utf8 old t) bytes
    ∙ rw (small, read_code-bytes is_utf8 old cr.code cr.reason fits valid utf8) refl
