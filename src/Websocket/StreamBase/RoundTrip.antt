-- ===== src/Websocket/StreamBase/RoundTrip.antt =====
-- The header reader against the header writer.
use beast.Base.{
  ℕ, ◌+◌, ◌/◌, ◌%◌, ◌^◌, ◌≤◌, ◌<◌, ◌≡◌, refl, sym, ap, ◌∙◌, Bool, true, false, not, ltb, leb, ◌==◌,
  if◌then◌else◌, Bool-cases, inl, inr, low_byte-mod, bit_and, Option, some, Bytes, [], ◌∷◌, ◌++◌,
  length, length-append, append_assoc, arith,
}
use beast.Websocket.Frame.{
  Endian, write, first_byte, native_to_little_uint32, little_uint32_to_native,
}
use beast.Websocket.StreamBase.FixedBytes.{
  short_len, second_byte, short_form, extended, length_bytes-second_byte, parse_fixed-first_byte,
  bad_opcode-short_form,
}
use beast.Websocket.StreamBase.{
  StreamBase, Step, check_fixed, fh_need, bad_opcode, bad_mask, read_fh1, read_fh2, account,
  read_len, read_len16, read_len64, read_masking_key, read_key,
}
use beast.Websocket.Types.{code_none, FrameHeader}

-- A header that fits the wire.
pub record IsWritable (fh : FrameHeader) : Type 0 where
  pub len_fits : fh.len < 2 ^ 64
  pub key_fits : fh.key < 2 ^ 32
  pub no_key : fh.mask ≡ false → fh.key ≡ 0

abbrev pub key_bytes : FrameHeader → Bytes
key_bytes fh = if fh.mask then native_to_little_uint32 fh.key else []

module _ (e : Endian) (st : StreamBase) (fh : FrameHeader) (rest : Bytes) where
  -- What is left of a written header behind its two fixed bytes.
  abbrev pub tail : Bytes
  tail = (extended e fh.len ++ key_bytes fh) ++ rest

  abbrev after_fixed : Step
  after_fixed = record {
    st = record st { rd_fh = short_form st.rd_fh fh };
    db = tail;
    code = code_none;
    need = fh_need (short_form st.rd_fh fh);
  }

  pub write-fixed : write e [] fh ++ rest ≡ first_byte fh ∷ second_byte fh ∷ tail
  unfolding write
  write-fixed = rw (length_bytes-second_byte e fh)

  read_fh1-fixed :
      bad_opcode fh.op st.rd_cont fh ≡ false
      → bad_mask st.role fh.mask ≡ false
      → read_fh1 st (first_byte fh ∷ second_byte fh ∷ tail) ≡ some after_fixed
  read_fh1-fixed p q =
      unfold read_fh1 in
      ap (λ h. some (check_fixed st tail h)) (parse_fixed-first_byte st.rd_fh fh) ∙ passes
    where
      passes : some (check_fixed st tail (short_form st.rd_fh fh)) ≡ some after_fixed
      passes = unfold check_fixed in rw (bad_opcode-short_form st.rd_cont st.rd_fh fh, p, q)

not-ltb : (n least : ℕ) → least ≤ n → not (ltb n least) ≡ true
not-ltb n least h = ground arith

-- The three forms of a length.
data LenCase (n : ℕ) : Type 0 where
  short : leb n 125 ≡ true → LenCase n
  medium : leb n 125 ≡ false → leb n 65535 ≡ true → LenCase n
  long : leb n 125 ≡ false → leb n 65535 ≡ false → LenCase n

len_cases : (n : ℕ) → LenCase n
len_cases n = elim (Bool-cases (leb n 125)) [
  | inl p ↦ short p
  | inr p ↦ elim (Bool-cases (leb n 65535)) [ inl q ↦ medium p q | inr q ↦ long p q ]
]

module _ (e : Endian) (fh : FrameHeader) (len : ℕ) (more : Bytes) where
  abbrev with_len : ℕ → ℕ → Option (FrameHeader × Bytes × Bool)
  with_len least n = some (record fh { len = n }, more, not (ltb n least))

  read_len16-big16 :
      125 < len
      → len < 2 ^ 16
      → read_len16 fh (e.big16 (len % 2 ^ 16) ++ more) ≡ some (record fh { len = len }, more, true)
  unfolding read_len16
  read_len16-big16 p q =
      let n : ℕ = len % 2 ^ 16 in
      rw (e.big16_bytes n (omega arith))
        (ap (with_len 126) {y = len} (omega arith) ∙ rw (not-ltb len 126 (omega arith)))

  read_len64-big64 :
      2 ^ 16 ≤ len
      → len < 2 ^ 64
      → read_len64 fh (e.big64 len ++ more) ≡ some (record fh { len = len }, more, true)
  unfolding read_len64
  read_len64-big64 p q =
      rw (e.big64_bytes len q)
        (ap (with_len 65536) {y = len} (omega arith) ∙ rw (not-ltb len 65536 (omega arith)))

module _ (e : Endian) (old fh : FrameHeader) (w : IsWritable fh) (more : Bytes) where
  read_len-extended :
      read_len (short_form old fh) (extended e fh.len ++ more)
      ≡ some (record (short_form old fh) { len = fh.len }, more, true)
  unfolding read_len
  read_len-extended = elim (len_cases fh.len) [
    | short p ↦ ground arith
    | medium p q ↦
        rw (p, q)
          (read_len16-big16 e (record fh { len = 126; key = old.key }) fh.len more (ground arith)
            (ground arith))
    | long p q ↦
        rw (p, q)
          (read_len64-big64 e (record fh { len = 127; key = old.key }) fh.len more (ground arith)
            w.len_fits)
  ]

little32-bytes :
    (v : ℕ)
    → v < 2 ^ 32
    → little_uint32_to_native
        (bit_and v 0xff)
        (bit_and (v / 2 ^ 8) 0xff)
        (bit_and (v / 2 ^ 16) 0xff)
        (bit_and (v / 2 ^ 24) 0xff)
      ≡ v
unfolding little_uint32_to_native
little32-bytes v h = omega (
  arith,
  low_byte-mod v,
  low_byte-mod (v / 2 ^ 8),
  low_byte-mod (v / 2 ^ 16),
  low_byte-mod (v / 2 ^ 24),
)

abbrev with_key : FrameHeader → Bytes → ℕ → Option (FrameHeader × Bytes)
with_key fh rest k = some (record fh { key = k }, rest)

-- The key as `read_fh2` reads it back.
module _ (old fh : FrameHeader) (rest : Bytes) (w : IsWritable fh) where
  read_key_cases :
      (masked : Bool)
      → (masked ≡ false → fh.key ≡ 0)
      → (if masked
          then read_masking_key
              (record fh { key = old.key })
              ((if masked then native_to_little_uint32 fh.key else []) ++ rest)
          else with_key fh ((if masked then native_to_little_uint32 fh.key else []) ++ rest) 0)
        ≡ some (fh, rest)
  unfolding read_masking_key native_to_little_uint32
  read_key_cases true none_key =
      ap (with_key fh rest) {y = fh.key} (little32-bytes fh.key w.key_fits)
  read_key_cases false none_key = ap (with_key fh rest) {y = fh.key} (sym (none_key refl))

  read_key-key_bytes :
      read_key (record fh { key = old.key }) (key_bytes fh ++ rest) ≡ some (fh, rest)
  unfolding read_key
  read_key-key_bytes = read_key_cases fh.mask w.no_key

module _ (e : Endian) (st : StreamBase) (fh : FrameHeader) (rest : Bytes) (w : IsWritable fh) where
  pub read_fh2-tail :
      read_fh2 (record st { rd_fh = short_form st.rd_fh fh }) (tail e st fh rest)
      ≡ some (account st rest fh)
  unfolding read_fh2
  read_fh2-tail =
      rw
        (
          append_assoc (extended e fh.len) (key_bytes fh) rest,
          read_len-extended e st.rd_fh fh w (key_bytes fh ++ rest),
          read_fh2,
        )
        (rw (read_key-key_bytes st.rd_fh fh rest w, read_fh2))

  pub length-tail : length (tail e st fh rest) ≡ fh_need (short_form st.rd_fh fh) + length rest
  unfolding fh_need native_to_little_uint32
  length-tail = omega (
    arith,
    length-append (extended e fh.len ++ key_bytes fh) rest,
    length-append (extended e fh.len) (key_bytes fh),
    length-extended,
    length-key_bytes,
  )
    where
      length-extended :
          length (extended e fh.len)
          ≡ (if short_len fh.len == 126 then 2 else if short_len fh.len == 127 then 8 else 0)
      length-extended = elim (len_cases fh.len) [
        | short p ↦ ground arith
        | medium p q ↦ rw (p, q, e.big16_bytes (fh.len % 2 ^ 16) (omega arith))
        | long p q ↦ rw (p, q, e.big64_bytes fh.len w.len_fits)
      ]

      length-key_bytes : length (key_bytes fh) ≡ (if fh.mask then 4 else 0)
      length-key_bytes = ground arith

-- A header that fits the wire, that the stream's state admits, and that is followed by any bytes:
-- the first step reads its two fixed bytes and accepts them; the number of bytes it asks for next is
-- exactly the number that the writer put there; and the second step gets back the very header
-- written, leaves the following bytes unread, and accounts for that header.
pub read_fh2-read_fh1-write :
    (e : Endian) (st : StreamBase) (fh : FrameHeader) (rest : Bytes)
    → IsWritable fh
    → bad_opcode fh.op st.rd_cont fh ≡ false
    → bad_mask st.role fh.mask ≡ false
    → (s : Step) × (read_fh1 st (write e [] fh ++ rest) ≡ some s)
      × (s.code ≡ code_none)
      × (length s.db ≡ s.need + length rest)
      × (read_fh2 s.st s.db ≡ some (account st rest fh))
read_fh2-read_fh1-write e st fh rest w p q = (
  after_fixed e st fh rest,
  rw (write-fixed e st fh rest) (read_fh1-fixed e st fh rest p q),
  refl,
  length-tail e st fh rest w,
  read_fh2-tail e st fh rest w,
)
