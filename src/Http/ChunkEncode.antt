-- ===== src/Http/ChunkEncode.antt =====
-- http/detail/chunk_encode.hpp: the chunks that are written for a body.
use beast.Base.{
  ℕ, zero, suc, ◌/◌, ◌%◌, Bool, ◌==◌, if◌then◌else◌, Bytes, List, [], ◌∷◌, ◌++◌, length, get_or,
}
use beast.Http.Parser.Fields.{codes}
pub mod Laws

abbrev hex_digits : Bytes
hex_digits = codes "0123456789abcdef"

-- `"0123456789abcdef"[n]`
abbrev pub hex_char : ℕ → ℕ
hex_char n = get_or hex_digits n 0

-- The loop of `to_hex`, which fills the buffer from its end; a `std::size_t` has 16 digits at most.
unfoldable pub hex_loop : ℕ → ℕ → Bytes → Bytes
hex_loop zero n filled = filled
hex_loop (suc fuel) n filled =
    let rest = hex_loop fuel (n / 16) (hex_char (n % 16) ∷ filled) in
    if n == 0 then filled else rest

unfoldable pub to_hex : ℕ → Bytes
to_hex n = if n == 0 then codes "0" else hex_loop 16 n []

-- `chunk_encode_text`
unfoldable pub chunk_encode_text : ℕ → Bytes
unfolding to_hex
chunk_encode_text n = to_hex n ++ codes "\r\n"

abbrev joined : List Bytes → Bytes
joined [] = []
joined (b ∷ bs) = b ++ joined bs

-- The bytes of the buffer sequence that `chunk_encode` returns.
unfoldable pub chunk_encode : List Bytes → Bytes
unfolding chunk_encode_text
chunk_encode buffers = chunk_encode_text (length (joined buffers)) ++ joined buffers ++ codes "\r\n"

unfoldable pub chunk_encode_final : Bytes
chunk_encode_final = codes "0\r\n\r\n"
