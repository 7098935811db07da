-- ===== src/Websocket/StreamBase/Laws.antt =====
-- Which headers the reader accepts, and how it accounts for them.
use beast.Base.{ℕ, ◌≤◌, ◌≡◌, ◌↔◌, ◌⊎◌, refl, Bool, true, false, some, Bytes, ◌∷◌, arith}
use beast.Websocket.StreamBase.{
  StreamBase, Step, parse_fixed, bad_opcode, bad_mask, check_fixed, read_fh1,
}
use beast.Websocket.Types.{
  Opcode, cont, op_code, code_none, code_protocol_error, Role, client, server, FrameHeader,
}

-- RFC 6455 section 5.2, for a frame that arrives at an endpoint of the given role, in a message that
-- is unfinished or not.
pub record IsAdmitted (role : Role) (unfinished : Bool) (fh : FrameHeader) : Type 0 where
  pub reserved_clear : (fh.rsv1 ≡ false) × (fh.rsv2 ≡ false) × (fh.rsv3 ≡ false)
  pub known : (op_code fh.op ≤ 2) ⊎ ((8 ≤ op_code fh.op) × (op_code fh.op ≤ 10))
  pub continues : op_code fh.op ≡ 0 → unfinished ≡ true
  pub begins : 1 ≤ op_code fh.op → op_code fh.op ≤ 2 → unfinished ≡ false
  pub control_whole : 8 ≤ op_code fh.op → (fh.fin ≡ true) × (fh.len ≤ 125)
  pub masked : (role ≡ server) ↔ (fh.mask ≡ true)

module _ (c : Bool) (fh : FrameHeader) where
  abbrev OpcodeOk : Opcode → Type 0
  OpcodeOk op =
      ((fh.rsv1 ≡ false) × (fh.rsv2 ≡ false) × (fh.rsv3 ≡ false))
      × ((op_code op ≤ 2) ⊎ ((8 ≤ op_code op) × (op_code op ≤ 10)))
      × (op_code op ≡ 0 → c ≡ true)
      × (1 ≤ op_code op → op_code op ≤ 2 → c ≡ false)
      × (8 ≤ op_code op → (fh.fin ≡ true) × (fh.len ≤ 125))

  bad_opcode_sound : (op : Opcode) → bad_opcode op c fh ≡ false → OpcodeOk op
  unfolding bad_opcode op_code
  bad_opcode_sound cont h = ground arith
  bad_opcode_sound _ h = ground arith

  bad_opcode_complete : (op : Opcode) → OpcodeOk op → bad_opcode op c fh ≡ false
  unfolding bad_opcode op_code
  bad_opcode_complete cont h = ground arith
  bad_opcode_complete _ h = ground arith

bad_mask_iff :
    (role : Role) (mask : Bool) → (bad_mask role mask ≡ false) ↔ ((role ≡ server) ↔ (mask ≡ true))
unfolding bad_mask
bad_mask_iff client mask = (λ h. ground arith, λ h. ground arith)
bad_mask_iff server mask = (λ h. ground arith, λ h. ground arith)

admitted :
    (role : Role) (c : Bool) (fh : FrameHeader)
    → bad_opcode fh.op c fh ≡ false
    → bad_mask role fh.mask ≡ false
    → IsAdmitted role c fh
admitted role c fh p q =
    let o = bad_opcode_sound c fh fh.op p in
    record {
      reserved_clear = o.0;
      known = o.1;
      continues = o.2;
      begins = o.3;
      control_whole = o.4;
      masked = (bad_mask_iff role fh.mask).0 q;
    }

not_bad :
    (role : Role) (c : Bool) (fh : FrameHeader)
    → IsAdmitted role c fh
    → (bad_opcode fh.op c fh ≡ false) × (bad_mask role fh.mask ≡ false)
not_bad role c fh a = (
  bad_opcode_complete c fh fh.op
      (a.reserved_clear, a.known, a.continues, a.begins, a.control_whole),
  (bad_mask_iff role fh.mask).1 a.masked,
)

-- On two bytes or more `read_fh1` never runs short; it stores what the two bytes say and changes
-- nothing else of the stream; it reports no error exactly when the header is admitted by RFC 6455
-- for this role and message state, and otherwise reports a protocol error and asks for no bytes.
pub read_fh1_iff :
    (st : StreamBase) (b0 b1 : ℕ) (db : Bytes)
    → let fh = parse_fixed st.rd_fh b0 b1 in
      (s : Step) × (read_fh1 st (b0 ∷ b1 ∷ db) ≡ some s)
      × (s.st ≡ record st { rd_fh = fh })
      × (s.db ≡ db)
      × ((s.code ≡ code_none) ↔ IsAdmitted st.role st.rd_cont fh)
      × ((s.code ≡ code_none) ⊎ ((s.code ≡ code_protocol_error) × (s.need ≡ 0)))
read_fh1_iff st b0 b1 db =
    let fh = parse_fixed st.rd_fh b0 b1 in
    (
      check_fixed st db fh,
      unfold read_fh1 in refl,
      unfold check_fixed in ground arith,
      unfold check_fixed in ground arith,
      (
        λ e.
            admitted st.role st.rd_cont fh (unfold check_fixed in ground arith)
              (unfold check_fixed in ground arith),
        λ a. unfold check_fixed in ground (arith, not_bad st.role st.rd_cont fh a),
      ),
      unfold check_fixed in ground arith,
    )
