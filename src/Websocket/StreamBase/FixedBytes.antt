-- ===== src/Websocket/StreamBase/FixedBytes.antt =====
-- The two fixed bytes of a written header, as `read_fh1` reads them.
use beast.Base.{
  ℕ, ◌%◌, ◌^◌, ◌<◌, bit_and, bit_or, ◌≡◌, refl, Bool, false, ltb, leb, if◌then◌else◌,
  agree_below_sound, holds_below, Bytes, [], ◌∷◌, arith,
}
use beast.Websocket.Frame.{Endian, first_byte, length_bytes}
use beast.Websocket.StreamBase.{bit_set, parse_fixed, bad_opcode}
use beast.Websocket.Types.{Opcode, cont, text, binary, to_opcode, FrameHeader}

abbrev header : Opcode → Bool → Bool → Bool → Bool → FrameHeader
header op fin r1 r2 r3 = record {
  op = op;
  fin = fin;
  mask = false;
  rsv1 = r1;
  rsv2 = r2;
  rsv3 = r3;
  len = 0;
  key = 0;
}

-- The masks of `read_fh1` find in `b` what the header holds.
abbrev FirstByteReads : FrameHeader → ℕ → Type 0
FirstByteReads fh b =
    (to_opcode (bit_and b 0x0f) ≡ fh.op)
    × (bit_set b 0x80 ≡ fh.fin)
    × (bit_set b 0x40 ≡ fh.rsv1)
    × (bit_set b 0x20 ≡ fh.rsv2)
    × (bit_set b 0x10 ≡ fh.rsv3)

flags-FirstByteReads :
    (op : Opcode) (fin r1 r2 r3 : Bool)
    → FirstByteReads (header op fin r1 r2 r3) (first_byte (header op fin r1 r2 r3))
unfolding first_byte to_opcode
flags-FirstByteReads cont fin r1 r2 r3 = ground arith
flags-FirstByteReads _ fin r1 r2 r3 = ground arith

first_byte-FirstByteReads : (fh : FrameHeader) → FirstByteReads fh (first_byte fh)
unfolding first_byte
first_byte-FirstByteReads fh = flags-FirstByteReads fh.op fh.fin fh.rsv1 fh.rsv2 fh.rsv3

-- The seven bits that hold the length or say where it is.
abbrev pub short_len : ℕ → ℕ
short_len len = if leb len 125 then len else if leb len 65535 then 126 else 127

low7_masked : (x : ℕ) → x < 128 → bit_and (bit_or 0x80 x % 2 ^ 8) 0x7f ≡ x
unfolding holds_below
low7_masked = agree_below_sound 128 _ _ refl

low7_plain : (x : ℕ) → x < 128 → bit_and (bit_or 0x00 x % 2 ^ 8) 0x7f ≡ x
unfolding holds_below
low7_plain = agree_below_sound 128 _ _ refl

top_masked : (x : ℕ) → x < 128 → bit_and (bit_or 0x80 x % 2 ^ 8) 0x80 ≡ 128
unfolding holds_below
top_masked = agree_below_sound 128 _ _ refl

top_plain : (x : ℕ) → x < 128 → bit_and (bit_or 0x00 x % 2 ^ 8) 0x80 ≡ 0
unfolding holds_below
top_plain = agree_below_sound 128 _ _ refl

-- `b[1]`, and what follows it.
abbrev pub second_byte : FrameHeader → ℕ
second_byte fh = bit_or (if fh.mask then 0x80 else 0x00) (short_len fh.len) % 2 ^ 8

module _ (e : Endian) where
  abbrev pub extended : ℕ → Bytes
  extended len =
      if leb len 125 then [] else if leb len 65535 then e.big16 (len % 2 ^ 16) else e.big64 len

  pub length_bytes-second_byte :
      (fh : FrameHeader) → length_bytes e fh ≡ second_byte fh ∷ extended fh.len
  unfolding length_bytes
  length_bytes-second_byte fh = ground arith

second_byte-len : (fh : FrameHeader) → bit_and (second_byte fh) 0x7f ≡ short_len fh.len
second_byte-len fh = ground (arith, low7_masked (short_len fh.len), low7_plain (short_len fh.len))

second_byte-mask : (fh : FrameHeader) → bit_set (second_byte fh) 0x80 ≡ fh.mask
second_byte-mask fh = ground (arith, top_masked (short_len fh.len), top_plain (short_len fh.len))

-- What `read_fh1` makes of a written header.
abbrev pub short_form : FrameHeader → FrameHeader → FrameHeader
short_form old fh = record fh { len = short_len fh.len; key = old.key }

pub parse_fixed-first_byte :
    (old fh : FrameHeader) → parse_fixed old (first_byte fh) (second_byte fh) ≡ short_form old fh
unfolding parse_fixed
parse_fixed-first_byte old fh =
    let first = first_byte-FirstByteReads fh in
    λ i. record {
      op = first.0 i;
      fin = first.1 i;
      mask = second_byte-mask fh i;
      rsv1 = first.2 i;
      rsv2 = first.3 i;
      rsv3 = first.4 i;
      len = second_byte-len fh i;
      key = old.key;
    }

short_len-control : (len : ℕ) → ltb 125 (short_len len) ≡ ltb 125 len
short_len-control len = ground arith

pub bad_opcode-short_form :
    (c : Bool) (old fh : FrameHeader)
    → bad_opcode fh.op c (short_form old fh) ≡ bad_opcode fh.op c fh
bad_opcode-short_form c old fh = by_op fh.op
  where
    by_op : (op : Opcode) → bad_opcode op c (short_form old fh) ≡ bad_opcode op c fh
    by_op cont = unfold bad_opcode in refl
    by_op text = unfold bad_opcode in refl
    by_op binary = unfold bad_opcode in refl
    by_op _ = unfold bad_opcode in ground (arith, short_len-control fh.len)
