-- ===== src/Websocket/ReadOp/Rounds.antt =====
-- What a round of read_frame_op.ipp keeps, and how near it is to one that returns.
use mathlib.Core.Option
use beast.Base.{
  ℕ, ◌-◌, ◌≡◌, inl, inr, refl, sym, ap, ◌∙◌, Bool, true, false, not, ltb, ◌==◌, if◌then◌else◌,
  Option, Option-cases, none, some, Bytes, [], ◌∷◌, ◌++◌, length, arith,
}
use beast.Websocket.ReadOp.{
  OpState, do_start, payload_read, fixed_read, rest_read, do_control_payload, do_control,
  do_pong_resume, pong_resumed, do_pong, pong_sent, do_close_resume, close_resumed, do_close,
  do_fail, fail_send, fail_parked, fail_resumed, Op, Wants, Answer, Turn, go, wait, upcall, broken,
}
use beast.Websocket.ReadOp.Cases.{
  frame_done, on_payload, on_fixed, on_rest, after_fixed, after_rest,
}
use beast.Websocket.Reader.{Reader, set_st}
use beast.Websocket.Reader.Loop.{unmask_payload, check_payload}
use beast.Websocket.Reader.Closes.{is_close, IsOnce}
use beast.Websocket.StreamBase.{
  StreamBase, Step, check_fixed, read_fh1, read_fh2, read_len, read_key, account,
}
use beast.Websocket.Types.{is_control, CloseCode, code_none, code_protocol_error, FrameHeader}

-- How many rounds a state is from one that returns.
abbrev pub rank : OpState → ℕ
rank fixed_read = 4
rank rest_read = 3
rank do_control_payload = 3
rank do_control = 2
rank payload_read = 2
rank pong_resumed = 2
rank do_pong = 1
rank pong_sent = 1
rank do_fail = 1
rank do_start = 1
rank close_resumed = 1
rank fail_resumed = 1
rank s = 0

-- The states in which `fb` holds a close frame that is to be written, those in which it holds a
-- pong, and those that write the close frame at once.
abbrev pub is_closing : OpState → Bool
is_closing do_close_resume = true
is_closing close_resumed = true
is_closing do_close = true
is_closing fail_send = true
is_closing fail_parked = true
is_closing fail_resumed = true
is_closing s = false

abbrev pub is_ponging : OpState → Bool
is_ponging do_pong_resume = true
is_ponging pong_resumed = true
is_ponging do_pong = true
is_ponging s = false

abbrev pub is_sending : OpState → Bool
is_sending do_close = true
is_sending fail_send = true
is_sending s = false

abbrev pub is_resumed : OpState → Bool
is_resumed fail_resumed = true
is_resumed s = false

-- What holds of the operation between two rounds.
abbrev pub Inv : Op → Type 0
Inv d =
    IsOnce d.r.s
    × (is_closing d.state ≡ true → is_close d.fb ≡ true)
    × (is_ponging d.state ≡ true → is_close d.fb ≡ false)
    × (is_sending d.state ≡ true → d.r.s.st.wr_close ≡ false)

-- A round that does not leave the loop is nearer to one that does, and keeps what holds.
pub data Kept (n : ℕ) : Turn → Type 0 where
  goes :
      {d : Op} {code : CloseCode} {bs : Bytes}
      → ltb (rank d.state) n ≡ true
      → is_resumed d.state ≡ false
      → Inv d
      → Kept n (go d code bs)
  waits : {d : Op} {w : Wants} → Inv d → Kept n (wait d w)
  answers : {d : Op} {a : Answer} → IsOnce d.r.s → Kept n (upcall d a)
  asserts : Kept n broken

pub on_if :
    (n : ℕ) (b : Bool) (x y : Turn)
    → (b ≡ true → Kept n x)
    → (b ≡ false → Kept n y)
    → Kept n (if b then x else y)
on_if n true x y p q = p refl
on_if n false x y p q = q refl

read_fh1-wr_close :
    (st : StreamBase) (db : Bytes) (t : Step)
    → read_fh1 st db ≡ some t
    → t.st.wr_close ≡ st.wr_close
unfolding read_fh1 check_fixed
read_fh1-wr_close st [] t h = cc
read_fh1-wr_close st (a ∷ []) t h = cc
read_fh1-wr_close st (a ∷ b ∷ db) t h = ground (arith, h)

keyed-wr_close :
    (st : StreamBase) (o : Option (FrameHeader × Bytes)) (t : Step)
    → Option.map (λ r. account st r.1 r.0) o ≡ some t
    → t.st.wr_close ≡ st.wr_close
unfolding account
keyed-wr_close st none t h = cc
keyed-wr_close st (some (fh, db)) t h = ground (arith, h)

read_fh2-wr_close :
    (st : StreamBase) (db : Bytes) (t : Step)
    → read_fh2 st db ≡ some t
    → t.st.wr_close ≡ st.wr_close
read_fh2-wr_close st db t h = cases (read_len st.rd_fh db) (unfold read_fh2 in h)
  where
    cases :
        (o : Option (FrameHeader × Bytes × Bool))
        → elim o [
          | none ↦ none
          | some (fh, db', canonical) ↦
              if not canonical
              then some (record {
                st = record st { rd_fh = fh };
                db = db';
                code = code_protocol_error;
                need = 0;
              })
              else Option.map (λ r. account st r.1 r.0) (read_key fh db')
        ]
          ≡ some t
        → t.st.wr_close ≡ st.wr_close
    cases none h = cc
    cases (some (fh, db', true)) h = keyed-wr_close st (read_key fh db') t h
    cases (some (fh, db', false)) h = ground (arith, h)

pub false-true : false ≡ true → ⊥
false-true e = cc

-- A state that neither closes nor answers a ping wants no more than `IsOnce`.
abbrev pub plain :
    {A : Type 0} {B C D : Type 0}
    → A
    → A × (false ≡ true → B) × (false ≡ true → C) × (false ≡ true → D)
plain o = (o, λ e. absurd (false-true e), λ e. absurd (false-true e), λ e. absurd (false-true e))

IsOnce-set_st :
    (r : Reader) (t : Step)
    → t.st.wr_close ≡ r.s.st.wr_close
    → IsOnce r.s
    → IsOnce (set_st t.st r).s
IsOnce-set_st r t e o = o ∙ ap (λ w. if w then 1 else 0) (sym e)

pub on_payload-Kept : (bs : Bytes) (d : Op) → IsOnce d.r.s → Kept 2 (on_payload bs d)
unfolding on_payload frame_done unmask_payload
on_payload-Kept bs d o =
    on_if 2 (not (check_payload bs d.r).1) _ _ (λ y. goes refl refl (plain o))
      (λ z.
        on_if 2 (ltb 0 (d.r.s.st.rd_need - length bs)) _ _ (λ y. goes refl refl (plain o))
          (λ z. answers o))

module _ (bs : Bytes) (d : Op) (o : IsOnce d.r.s) where
  fixed_step : (t : Step) → IsOnce (set_st t.st d.r).s → Kept 4 (after_fixed bs d t)
  unfolding after_fixed
  fixed_step t h =
      on_if 4 (not (t.code == code_none)) _ _ (λ y. goes refl refl (plain h))
        (λ z. on_if 4 (t.need == 0) _ _ (λ y. goes refl refl (plain h)) (λ z. waits (plain h)))

  rest_step : (t : Step) → IsOnce (set_st t.st d.r).s → Kept 3 (after_rest bs d t)
  unfolding after_rest
  rest_step t h =
      on_if 3 (not (t.code == code_none)) _ _ (λ y. goes refl refl (plain h))
        (λ z.
          on_if 3 (is_control t.st.rd_fh.op) _ _
            (λ y.
              on_if 3 (ltb 0 t.st.rd_fh.len) _ _ (λ y. waits (plain h))
                (λ z. goes refl refl (plain h)))
            (λ z.
              on_if 3 (ltb 0 t.st.rd_need) _ _ (λ y. goes refl refl (plain h))
                (λ z. goes refl refl (plain h))))

  pub on_fixed-Kept : Kept 4 (on_fixed bs d)
  unfolding on_fixed
  on_fixed-Kept = elim (Option-cases (read_fh1 d.r.s.st (d.fb ++ bs))) [
    | inl e ↦ rw (on_fixed, e) asserts
    | inr (t, e) ↦
        rw (on_fixed, e)
          (fixed_step t (IsOnce-set_st d.r t (read_fh1-wr_close d.r.s.st (d.fb ++ bs) t e) o))
  ]

  pub on_rest-Kept : Kept 3 (on_rest bs d)
  unfolding on_rest
  on_rest-Kept = elim (Option-cases (read_fh2 d.r.s.st (d.fb ++ bs))) [
    | inl e ↦ rw (on_rest, e) asserts
    | inr (t, e) ↦
        rw (on_rest, e)
          (rest_step t (IsOnce-set_st d.r t (read_fh2-wr_close d.r.s.st (d.fb ++ bs) t e) o))
  ]
