-- ===== src/Websocket/Types.antt =====
-- include/beast/websocket/rfc6455.hpp and the constants of websocket/detail: opcodes, close codes,
-- roles, frame headers, and the three predicates on them.
use beast.Base.{
  ℕ, zero, suc, Bool, true, false, ◌&&◌, ◌||◌, leb, ◌==◌, if◌then◌else◌, List, [], ◌∷◌,
}

pub data Opcode : Type 0 where
  cont text binary rsv3 rsv4 rsv5 rsv6 rsv7 : Opcode
  close ping pong crsvb crsvc crsvd crsve crsvf : Opcode

-- The value of an enumerator.
unfoldable pub op_code : Opcode → ℕ
op_code cont = 0
op_code text = 1
op_code binary = 2
op_code rsv3 = 3
op_code rsv4 = 4
op_code rsv5 = 5
op_code rsv6 = 6
op_code rsv7 = 7
op_code close = 8
op_code ping = 9
op_code pong = 10
op_code crsvb = 11
op_code crsvc = 12
op_code crsvd = 13
op_code crsve = 14
op_code crsvf = 15

abbrev all_opcodes : List Opcode
all_opcodes =
    cont ∷ text ∷ binary ∷ rsv3 ∷ rsv4 ∷ rsv5 ∷ rsv6 ∷ rsv7 ∷ close ∷ ping ∷ pong ∷ crsvb ∷ crsvc
    ∷ crsvd ∷ crsve ∷ crsvf ∷ []

nth_opcode : List Opcode → ℕ → Opcode
nth_opcode [] n = crsvf
nth_opcode (o ∷ os) zero = o
nth_opcode (o ∷ os) (suc n) = nth_opcode os n

-- `static_cast<opcode>(n)`; the code casts only values below 16.
unfoldable pub to_opcode : ℕ → Opcode
unfolding nth_opcode
to_opcode = nth_opcode all_opcodes

unfoldable pub is_reserved : Opcode → Bool
unfolding op_code
is_reserved op =
    leb 3 (op_code op) && leb (op_code op) 7 || leb 11 (op_code op) && leb (op_code op) 15

unfoldable pub is_control : Opcode → Bool
unfolding op_code
is_control op = leb 8 (op_code op)

-- `close_code::value`, a `std::uint16_t`.
abbrev pub CloseCode : Type 0
CloseCode = ℕ

abbrev pub code_none : CloseCode
code_none = 0

abbrev pub code_normal : CloseCode
code_normal = 1000

abbrev pub code_protocol_error : CloseCode
code_protocol_error = 1002

abbrev pub code_bad_payload : CloseCode
code_bad_payload = 1007

abbrev pub code_too_big : CloseCode
code_too_big = 1009

-- `is_valid(close_code::value)`: the switch, then the two range tests.
unfoldable pub is_valid_code : CloseCode → Bool
is_valid_code v =
    if v == 1000
      || v == 1001
      || v == 1002
      || v == 1003
      || v == 1007
      || v == 1008
      || v == 1009
      || v == 1010
      || v == 1011
      || v == 1012
      || v == 1013
    then true
    else if v == 1004 || v == 1005 || v == 1006 || v == 1014 || v == 1015
    then false
    else if leb 1016 v && leb v 2999
    then false
    else if leb v 999
    then false
    else true

pub data Role : Type 0 where
  client server : Role

pub record FrameHeader : Type 0 where
  pub op : Opcode
  pub fin : Bool
  pub mask : Bool
  pub rsv1 : Bool
  pub rsv2 : Bool
  pub rsv3 : Bool
  pub len : ℕ
  pub key : ℕ
