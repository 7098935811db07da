-- ===== src/Websocket/StreamBase/Sizes.antt =====
-- How the reader adds up the sizes of a message's frames.
use beast.Base.{
  ℕ, ◌+◌, ◌^◌, ◌≤◌, ◌<◌, ◌≡◌, ◌⊎◌, inl, inr, refl, true, false, not, if◌then◌else◌, Bytes, List, [],
  ◌∷◌, arith,
}
use beast.Websocket.StreamBase.{StreamBase, is_cont, account}
use beast.Websocket.Types.{is_control, code_none, code_too_big, FrameHeader}

-- The size of the message once this data frame is counted.
abbrev pub total : StreamBase → FrameHeader → ℕ
total st fh = if is_cont fh.op then st.rd_size + fh.len else fh.len

abbrev pub Within : StreamBase → FrameHeader → Type 0
Within st fh = (total st fh < 2 ^ 64) × ((st.rd_msg_max ≡ 0) ⊎ (total st fh ≤ st.rd_msg_max))

Within-or_not : (st : StreamBase) (fh : FrameHeader) → Within st fh ⊎ ¬ Within st fh
Within-or_not st fh = ground arith

-- A control frame leaves the message's size, what is left of its frame, its opcode and its
-- continuation flag as they are.
pub account-control :
    (st : StreamBase) (db : Bytes) (fh : FrameHeader)
    → is_control fh.op ≡ true
    → let s = account st db fh in
      (s.code ≡ code_none)
      × (s.st.rd_size ≡ st.rd_size)
      × (s.st.rd_need ≡ st.rd_need)
      × (s.st.rd_opcode ≡ st.rd_opcode)
      × (s.st.rd_cont ≡ st.rd_cont)
unfolding account
account-control st db fh h = ground arith

-- A data frame whose length fits 64 bits, in a message whose size does: either the new size fits 64
-- bits and the limit, if there is one, the frame is accepted, and the size of the message, what is
-- left of the frame and whether more frames are due are set from it; or the new size does not fit
-- and the frame is too big.
pub account-data :
    (st : StreamBase) (db : Bytes) (fh : FrameHeader)
    → is_control fh.op ≡ false
    → fh.len < 2 ^ 64
    → st.rd_size < 2 ^ 64
    → let s = account st db fh in
      (Within st fh
        × (s.code ≡ code_none)
        × (s.st.rd_size ≡ total st fh)
        × (s.st.rd_need ≡ fh.len)
        × (s.st.rd_cont ≡ not fh.fin))
      ⊎ (¬ Within st fh × (s.code ≡ code_too_big))
unfolding account
account-data st db fh h p q = elim (Within-or_not st fh) [
  | inl w ↦ inl (w, ground arith, ground arith, ground arith, ground arith)
  | inr n ↦ inr (n, ground arith)
]

-- A run of headers, each read without an error.
pub data Reads : StreamBase → List FrameHeader → StreamBase → Type 0 where
  stop : {st : StreamBase} → Reads st [] st
  more :
      {st st' : StreamBase} {fh : FrameHeader} {fhs : List FrameHeader}
      → (account st [] fh).code ≡ code_none
      → Reads (account st [] fh).st fhs st'
      → Reads st (fh ∷ fhs) st'

abbrev pub data_length : List FrameHeader → ℕ
data_length [] = 0
data_length (fh ∷ fhs) = (if is_control fh.op then 0 else fh.len) + data_length fhs

-- Continuations and control frames only, with lengths that fit 64 bits.
abbrev pub IsRest : List FrameHeader → Type 0
IsRest [] = Unit
IsRest (fh ∷ fhs) =
    (((is_control fh.op ≡ true) ⊎ (is_cont fh.op ≡ true)) × (fh.len < 2 ^ 64)) × IsRest fhs

one_more :
    (st : StreamBase) (fh : FrameHeader)
    → (is_control fh.op ≡ true) ⊎ (is_cont fh.op ≡ true)
    → fh.len < 2 ^ 64
    → st.rd_size < 2 ^ 64
    → (account st [] fh).code ≡ code_none
    → let st' = (account st [] fh).st in
      (st'.rd_size ≡ st.rd_size + data_length (fh ∷ []))
      × (st'.rd_size < 2 ^ 64)
      × (st'.rd_msg_max ≡ st.rd_msg_max)
      × (st'.rd_opcode ≡ st.rd_opcode)
      × ((st.rd_msg_max ≡ 0) ⊎ (st.rd_size ≤ st.rd_msg_max)
          → (st.rd_msg_max ≡ 0) ⊎ (st'.rd_size ≤ st.rd_msg_max))
unfolding account
one_more st fh kind p q e = ground arith

first_size :
    (st : StreamBase) (fh : FrameHeader)
    → is_control fh.op ≡ false
    → is_cont fh.op ≡ false
    → fh.len < 2 ^ 64
    → (account st [] fh).code ≡ code_none
    → let st' = (account st [] fh).st in
      (st'.rd_size ≡ fh.len)
      × (st'.rd_size < 2 ^ 64)
      × (st'.rd_msg_max ≡ st.rd_msg_max)
      × (st'.rd_opcode ≡ fh.op)
      × ((st.rd_msg_max ≡ 0) ⊎ (st'.rd_size ≤ st.rd_msg_max))
unfolding account
first_size st fh carries fresh fits e = ground arith

rest_sizes :
    {st st' : StreamBase} {fhs : List FrameHeader}
    → Reads st fhs st'
    → IsRest fhs
    → st.rd_size < 2 ^ 64
    → (st.rd_msg_max ≡ 0) ⊎ (st.rd_size ≤ st.rd_msg_max)
    → (st'.rd_size ≡ st.rd_size + data_length fhs)
      × (st'.rd_size < 2 ^ 64)
      × ((st.rd_msg_max ≡ 0) ⊎ (st'.rd_size ≤ st.rd_msg_max))
      × (st'.rd_opcode ≡ st.rd_opcode)
rest_sizes stop r p q = (omega arith, p, q, refl)
rest_sizes {st} (more {fh} {fhs} e rs) r p q =
    let one = one_more st fh r.0.0 r.0.1 p e in
    let rest = rest_sizes rs r.1 one.1 (ground (arith, one.4 q)) in
    (omega arith, rest.1, ground arith, ground arith)

-- A message that starts with a text or binary frame and goes on with continuations, control frames
-- in between, all with lengths that fit 64 bits and all read without an error: its size is the sum
-- of the lengths of its data frames, with no wrap at 64 bits and within the limit, if there is one,
-- and its opcode is that of the first frame.
pub message_size :
    {st st' : StreamBase} (fh : FrameHeader) (fhs : List FrameHeader)
    → is_control fh.op ≡ false
    → is_cont fh.op ≡ false
    → fh.len < 2 ^ 64
    → IsRest fhs
    → Reads st (fh ∷ fhs) st'
    → (st'.rd_size ≡ data_length (fh ∷ fhs))
      × (data_length (fh ∷ fhs) < 2 ^ 64)
      × ((st.rd_msg_max ≡ 0) ⊎ (st'.rd_size ≤ st.rd_msg_max))
      × (st'.rd_opcode ≡ fh.op)
message_size {st} fh fhs carries fresh fits r (more e rs) =
    let first = first_size st fh carries fresh fits e in
    let rest = rest_sizes rs r first.1 (ground arith) in
    (ground arith, ground arith, ground arith, ground arith)
