-- ===== src/Websocket/Reader/FrameRead.antt =====
-- A round of `read_frame` that starts with a data frame of the other side.
use beast.Base.{
  ℕ, ◌+◌, ◌^◌, ◌≤◌, ◌<◌, ◌≡◌, ◌⊎◌, refl, ap, ◌∙◌, Bool, true, false, not, ◌&&◌, ◌==◌, if◌then◌else◌,
  Bytes, [], ◌++◌, length, arith, length-append, append_assoc,
}
use beast.Websocket.Frame.{Endian, write}
use beast.Websocket.Mask.Defs.{prepare_key64}
use beast.Websocket.Mask.Laws.{key_bytes, key_bytes-IsKey, prepared}
use beast.Websocket.Reader.{Net, Reader, header, set_st, set_failed, do_read_fh}
use beast.Websocket.Reader.Cipher.{cipher, Keyed}
use beast.Websocket.Reader.FrameStart.{
  received, frame-received, received-IsWritable, before, Start, after_header, account-after_header,
  Continues-data,
}
use beast.Websocket.Reader.Loop.{read_payload, round}
use beast.Websocket.Reader.Payload.{Mid}
use beast.Websocket.Reader.Piece.{IsBytes-append}
use beast.Websocket.Reader.Rounds.{behind_header, read_header-behind}
use beast.Websocket.Reader.WholeHeader.{with_input, do_read_fh-write}
use beast.Websocket.Stream.{data_header, frame}
use beast.Websocket.StreamBase.Write.{is_client}
use beast.Websocket.Types.{Opcode, code_none, Role, client, server, FrameHeader}

-- The round reads payload from `r'`, which has the frame's header and is within its payload.
pub record FrameRead (e : Endian) (net : Net) (r : Reader) (role : Role) (op whole : Opcode)
    (fin : Bool) (key : ℕ) (part t rest : Bytes) : Type 0 where
  pub r' : Reader
  pub done : round e net r ≡ read_payload e net r'
  pub mid : Mid r' whole fin (is_client role) (key_bytes key) part t rest
  pub shorter : length r'.input ≤ length r.input
  pub buffer_same : r'.buffer ≡ r.buffer
  pub role_same : r'.s.st.role ≡ r.s.st.role
  pub rd_cont : r'.s.st.rd_cont ≡ not fin
  pub rd_msg_max : r'.s.st.rd_msg_max ≡ r.s.st.rd_msg_max
  pub rd_size : r'.s.st.rd_size ≡ before r.s.st op + length part
  pub sent : r'.s.sent ≡ r.s.sent
  pub pongs : r'.pongs ≡ r.pongs

received-Keyed :
    (role : Role) (old key : ℕ)
    → key < 2 ^ 32
    → Keyed
        (is_client role)
        (if is_client role then prepare_key64 (if is_client role then key else 0) else old)
        (key_bytes key)
received-Keyed client old key k = (prepared key k, key_bytes-IsKey key)
received-Keyed server old key k = tt

module _ (e : Endian) (net : Net) {r : Reader} {role : Role} {op whole : Opcode} (fin : Bool)
    (key : ℕ) (part t rest : Bytes) (s : Start r role op whole (part ++ t)) (k : key < 2 ^ 32)
    (i : r.input ≡ frame e (data_header role op fin (length part) key) part ++ rest)
    (some_bytes : (0 < length part) ⊎ (fin ≡ true)) (all : fin ≡ true → t ≡ []) where
  abbrev fh : FrameHeader
  fh = received role op fin (length part) key

  abbrev body : Bytes
  body = cipher (is_client role) (key_bytes key) part

  abbrev within : Reader
  within = set_failed false (with_input (set_st (after_header r.s.st fh) r) (body ++ rest))

  part-fits : length part ≤ length (part ++ t)
  part-fits = omega (arith, length-append part t)

  input-write : r.input ≡ write e [] fh ++ (body ++ rest)
  input-write =
      i
      ∙ ap (λ x. x ++ rest)
          (frame-received e role op fin key part k (IsBytes-append part t s.octets).0)
      ∙ append_assoc (write e [] fh) body rest

  do_read_fh-frame :
      do_read_fh r
      ≡ header (with_input (set_st (after_header r.s.st fh) r) (body ++ rest)) [] code_none
  do_read_fh-frame =
      let d = Continues-data r.s.st op whole fin fh s.continues refl in
      let w =
        received-IsWritable role op fin (length part) key (omega (arith, s.fits, part-fits)) k in
      let a =
        account-after_header r.s.st fh d.0 (omega (arith, s.fits, part-fits))
          (omega (arith, s.within_max, part-fits)) in
      ap (λ x. do_read_fh (with_input r x)) input-write
      ∙ do_read_fh-write e r fh w d.1 s.mask_ok (body ++ rest)
      ∙ ap (λ x. header (with_input (set_st x.st r) (body ++ rest)) x.db x.code) a

  round-within : round e net r ≡ read_payload e net within
  unfolding round
  round-within =
      let d = Continues-data r.s.st op whole fin fh s.continues refl in
      let start : (r.s.st.rd_need == 0) ≡ true = ground (arith, s.need_zero) in
      let more : (length part == 0 && not fin) ≡ false = ground (arith, some_bytes) in
      rw start (
        read_header-behind e net r
        ∙ ap (behind_header e net) do_read_fh-frame
        ∙ rw (d.0, more) refl)

  pub round-FrameRead : FrameRead e net r role op whole fin key part t rest
  round-FrameRead =
      let d = Continues-data r.s.st op whole fin fh s.continues refl in
      record {
        r' = within;
        done = round-within;
        mid = record {
          need = refl;
          input-cipher = refl;
          fin_is = refl;
          mask_is = refl;
          opcode_is = d.2;
          keyed = received-Keyed role r.s.st.rd_key key k;
          octets = (IsBytes-append part t s.octets).0;
          checked = s.checked;
          last = all;
        };
        shorter =
            omega (arith, ap length input-write, length-append (write e [] fh) (body ++ rest));
        buffer_same = refl;
        role_same = refl;
        rd_cont = refl;
        rd_msg_max = refl;
        rd_size = ground arith;
        sent = refl;
        pongs = refl;
      }
