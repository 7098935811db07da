-- ===== src/Websocket/Reader/HeadRead.antt =====
-- What `do_read_fh` leaves on any input.
use mathlib.Core.Path.{subst}
use beast.Base.{
  ℕ, ◌≤◌, ◌<◌, ◌≡◌, ◌≢◌, ◌⊎◌, inl, inr, refl, sym, ap, ◌∙◌, Bool, true, false, ltb, ◌==◌,
  if◌then◌else◌, Bool-cases, none, some, Bytes, [], ◌∷◌, ◌++◌, length, take, drop, arith,
  length-append, length-take, length-drop,
}
use beast.Websocket.Reader.{
  Reader, set_st, read_exactly, Header, header, short, second_header, first_header, do_read_fh,
}
use beast.Websocket.Reader.Headers.{HasKind, read_fh2-SecondRead}
use beast.Websocket.Stream.{Stream}
use beast.Websocket.StreamBase.{
  StreamBase, Step, fh_need, parse_fixed, bad_opcode, check_fixed, read_fh1,
}
use beast.Websocket.Types.{Opcode, close, ping, pong, is_control, code_none, FrameHeader}

-- The control frames that are not refused.
abbrev pub IsKnown : Opcode → Type 0
IsKnown op = (op ≡ ping) ⊎ ((op ≡ pong) ⊎ (op ≡ close))

abbrev pub IsAllowed : FrameHeader → Type 0
IsAllowed fh = is_control fh.op ≡ true → IsKnown fh.op × (fh.len ≤ 125)

bad_opcode-IsAllowed :
    (op : Opcode) (c : Bool) (fh : FrameHeader)
    → bad_opcode op c fh ≡ false
    → is_control op ≡ true
    → IsKnown op × (fh.len ≤ 125)
unfolding bad_opcode is_control
bad_opcode-IsAllowed close c fh h k = (inr (inr refl), ground (arith, h))
bad_opcode-IsAllowed ping c fh h k = (inl refl, ground (arith, h))
bad_opcode-IsAllowed pong c fh h k = (inr (inl refl), ground (arith, h))
bad_opcode-IsAllowed _ c fh h k = absurd (ground (arith, h, k))

-- What `read_fh1` leaves of two bytes.
record FirstRead (st : StreamBase) (t : Step) : Type 0 where
  nothing_left : t.db ≡ []
  keeps : t.st.wr_close ≡ st.wr_close
  outcome : (t.code ≢ code_none) ⊎ ((t.need ≡ fh_need t.st.rd_fh) × IsAllowed t.st.rd_fh)

check_fixed-FirstRead : (st : StreamBase) (fh : FrameHeader) → FirstRead st (check_fixed st [] fh)
check_fixed-FirstRead st fh = record {
  nothing_left = unfold check_fixed in ground arith;
  keeps = unfold check_fixed in ground arith;
  outcome = elim (Bool-cases (bad_opcode fh.op st.rd_cont fh)) [
    | inl y ↦ inl (unfold check_fixed in λ e. ground (arith, y, e))
    | inr n ↦ unfold check_fixed in ground (arith, n, bad_opcode-IsAllowed fh.op st.rd_cont fh n)
  ];
}

-- Nothing has been written, and no close frame noted.
abbrev pub Silent : Stream → Stream → Type 0
Silent s s' = (s'.sent ≡ s.sent) × (s'.st.wr_close ≡ s.st.wr_close)

-- An error, or a header behind which less input is left; where it is accepted it is allowed, and
-- nothing of it is left in the buffer.
pub data HeadRead (n : ℕ) (s : Stream) : Header → Type 0 where
  head_short : {r' : Reader} → Silent s r'.s → HeadRead n s (short r')
  head_read :
      {r' : Reader} {fb : Bytes} {code : ℕ}
      → length r'.input < n
      → Silent s r'.s
      → (code ≡ code_none → (fb ≡ []) × IsAllowed r'.s.st.rd_fh)
      → HeadRead n s (header r' fb code)

HasKind-IsAllowed : (a b : FrameHeader) → HasKind a b → IsAllowed a → IsAllowed b
HasKind-IsAllowed a b k h c =
    let h' = h (ap is_control (sym k.op) ∙ c) in
    (subst IsKnown (sym k.op) h'.0, omega (arith, k.short_len h'.1, h'.1))

second_header-HeadRead :
    (n : ℕ) (s : Stream) (r : Reader) (fb : Bytes)
    → length r.input < n
    → Silent s r.s
    → length fb ≡ fh_need r.s.st.rd_fh
    → IsAllowed r.s.st.rd_fh
    → HeadRead n s (second_header r fb)
unfolding second_header
second_header-HeadRead n s r fb lt q h a =
    let t = read_fh2-SecondRead r.s.st fb h in
    rw (second_header, t.done)
      (head_read lt (q.0, t.keeps ∙ q.1)
        (λ e. let w = t.whole e in (w.0, HasKind-IsAllowed r.s.st.rd_fh t.t.st.rd_fh w.1 a)))

-- `first_header` behind a header that is accepted.
abbrev variable_header : Reader → Step → Header
variable_header r t =
    if ltb 0 t.need
    then elim (read_exactly t.need r) [
      | none ↦ short r
      | some (bs, r'') ↦ second_header r'' (t.db ++ bs)
    ]
    else second_header r t.db

variable_header-HeadRead :
    (n : ℕ) (s : Stream) (r : Reader) (t : Step)
    → length r.input < n
    → Silent s r.s
    → length t.db ≡ 0
    → t.need ≡ fh_need r.s.st.rd_fh
    → IsAllowed r.s.st.rd_fh
    → HeadRead n s (variable_header r t)
variable_header-HeadRead n s r t lt q nil need allowed = elim (Bool-cases (ltb 0 t.need)) [
  | inr z ↦
      let e : length t.db ≡ fh_need r.s.st.rd_fh = ground (arith, z, need, nil) in
      rw z (second_header-HeadRead n s r t.db lt q e allowed)
  | inl p ↦ rw p (elim (Bool-cases (ltb (length r.input) t.need)) [
    | inl few ↦ rw few (head_short q)
    | inr enough ↦
        let shorter : length (drop t.need r.input) < n =
          omega (arith, length-drop t.need r.input, lt) in
        let e : length (t.db ++ take t.need r.input) ≡ fh_need r.s.st.rd_fh = ground (
          arith,
          enough,
          need,
          nil,
          length-append t.db (take t.need r.input),
          length-take t.need r.input,
        ) in
        rw enough (
          second_header-HeadRead n s (record r { input = drop t.need r.input })
            (t.db ++ take t.need r.input) shorter q e allowed)
  ])
]

first_header-HeadRead :
    (n : ℕ) (s : Stream) (r : Reader) (t : Step)
    → length r.input < n
    → Silent s r.s
    → FirstRead r.s.st t
    → HeadRead n s (first_header r t)
unfolding first_header
first_header-HeadRead n s r t lt q f = elim (Bool-cases (t.code == code_none)) [
  | inr bad ↦
      let other : t.code ≢ code_none = λ e. ground (arith, bad, e) in
      rw bad (head_read lt (q.0, f.keeps ∙ q.1) (λ e. absurd (other e)))
  | inl good ↦ rw good (elim f.outcome [
    | inl other ↦ let e : t.code ≡ code_none = ground (arith, good) in absurd (other e)
    | inr (need, allowed) ↦
        variable_header-HeadRead n s (set_st t.st r) t lt (q.0, f.keeps ∙ q.1)
          (ap length f.nothing_left) need allowed
  ])
]

abbrev with_input : Reader → Bytes → Reader
with_input r bs = record r { input = bs }

do_read_fh_cases :
    (r : Reader) (bs : Bytes) → HeadRead (length bs) r.s (do_read_fh (with_input r bs))
unfolding do_read_fh
do_read_fh_cases r [] = head_short (refl, refl)
do_read_fh_cases r (a ∷ []) = head_short (refl, refl)
do_read_fh_cases r (a ∷ b ∷ bs) =
    let two : ltb (length (a ∷ b ∷ bs)) 2 ≡ false = ground arith in
    rw (do_read_fh, two)
      (unfold read_fh1 in
        first_header-HeadRead (length (a ∷ b ∷ bs)) r.s (with_input r bs)
          (check_fixed r.s.st [] (parse_fixed r.s.st.rd_fh a b)) (omega arith) (refl, refl)
          (check_fixed-FirstRead r.s.st (parse_fixed r.s.st.rd_fh a b)))

pub do_read_fh-HeadRead : (r : Reader) → HeadRead (length r.input) r.s (do_read_fh r)
do_read_fh-HeadRead r = do_read_fh_cases r r.input
