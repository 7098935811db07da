-- ===== src/Websocket/Reader/Headers.antt =====
-- What a header that has been asked for leaves: no assertion of `read_fh2` fails on the bytes that
-- `read_fh1` wants.
use mathlib.Core.Option
use mathlib.Core.Path.{subst}
use beast.Base.{
  ℕ, ◌+◌, ◌≤◌, ◌≡◌, inl, inr, refl, sym, ap, ◌∙◌, Bool, true, false, not, ◌==◌, if◌then◌else◌,
  Bool-cases, Option, some, Bytes, [], ◌∷◌, length, arith,
}
use beast.Websocket.StreamBase.{
  StreamBase, Step, fh_need, read_len, read_len16, read_len64, read_masking_key, read_key, account,
  read_fh2,
}
use beast.Websocket.Types.{code_none, code_protocol_error, FrameHeader}

-- The header with its length read: its kind is the one before, and a short length stays.
pub record HasKind (fh fh' : FrameHeader) : Type 0 where
  pub op : fh'.op ≡ fh.op
  pub mask : fh'.mask ≡ fh.mask
  pub short_len : fh.len ≤ 125 → fh'.len ≡ fh.len

record LenRead (fh : FrameHeader) (k : ℕ) (o : Option (FrameHeader × Bytes × Bool)) : Type 0 where
  fh' : FrameHeader
  rest : Bytes
  canonical : Bool
  done : o ≡ some (fh', rest, canonical)
  length-rest : length rest ≡ k
  kind : HasKind fh fh'

read_len16-LenRead :
    (fh : FrameHeader) (k : ℕ) (db : Bytes)
    → length db ≡ 2 + k
    → fh.len ≡ 126
    → LenRead fh k (read_len16 fh db)
unfolding read_len16
read_len16-LenRead fh k [] h l = absurd (omega (arith, h))
read_len16-LenRead fh k (a ∷ []) h l = absurd (omega (arith, h))
read_len16-LenRead fh k (a ∷ b ∷ db) h l = record {
  fh' = _;
  rest = db;
  canonical = _;
  done = refl;
  length-rest = omega (arith, h);
  kind = record { op = refl; mask = refl; short_len = λ s. absurd (omega (arith, l, s)) };
}

read_len64-LenRead :
    (fh : FrameHeader) (k : ℕ) (db : Bytes)
    → length db ≡ 8 + k
    → fh.len ≡ 127
    → LenRead fh k (read_len64 fh db)
unfolding read_len64
read_len64-LenRead fh k (p0 ∷ p1 ∷ p2 ∷ p3 ∷ p4 ∷ p5 ∷ p6 ∷ p7 ∷ db) h l = record {
  fh' = _;
  rest = db;
  canonical = _;
  done = refl;
  length-rest = omega (arith, h);
  kind = record { op = refl; mask = refl; short_len = λ s. absurd (omega (arith, l, s)) };
}
read_len64-LenRead fh k [] h l = absurd (omega (arith, h))
read_len64-LenRead fh k (p0 ∷ []) h l = absurd (omega (arith, h))
read_len64-LenRead fh k (p0 ∷ p1 ∷ []) h l = absurd (omega (arith, h))
read_len64-LenRead fh k (p0 ∷ p1 ∷ p2 ∷ []) h l = absurd (omega (arith, h))
read_len64-LenRead fh k (p0 ∷ p1 ∷ p2 ∷ p3 ∷ []) h l = absurd (omega (arith, h))
read_len64-LenRead fh k (p0 ∷ p1 ∷ p2 ∷ p3 ∷ p4 ∷ []) h l = absurd (omega (arith, h))
read_len64-LenRead fh k (p0 ∷ p1 ∷ p2 ∷ p3 ∷ p4 ∷ p5 ∷ []) h l = absurd (omega (arith, h))
read_len64-LenRead fh k (p0 ∷ p1 ∷ p2 ∷ p3 ∷ p4 ∷ p5 ∷ p6 ∷ []) h l = absurd (omega (arith, h))

abbrev len_bytes : FrameHeader → ℕ
len_bytes fh = if fh.len == 126 then 2 else if fh.len == 127 then 8 else 0

abbrev key_need : FrameHeader → ℕ
key_need fh = if fh.mask then 4 else 0

read_len-LenRead :
    (fh : FrameHeader) (k : ℕ) (db : Bytes)
    → length db ≡ len_bytes fh + k
    → LenRead fh k (read_len fh db)
unfolding read_len
read_len-LenRead fh k db h = elim (Bool-cases (fh.len == 126)) [
  | inl y ↦ rw y (read_len16-LenRead fh k db (ground (arith, h, y)) (ground (arith, y)))
  | inr n ↦ rw n (elim (Bool-cases (fh.len == 127)) [
    | inl y ↦ rw y (read_len64-LenRead fh k db (ground (arith, h, n, y)) (ground (arith, y)))
    | inr m ↦ rw m (record {
      fh' = fh;
      rest = db;
      canonical = true;
      done = refl;
      length-rest = ground (arith, h, n, m);
      kind = record { op = refl; mask = refl; short_len = λ s. refl };
    })
  ])
]

record KeyRead (fh : FrameHeader) (o : Option (FrameHeader × Bytes)) : Type 0 where
  fh' : FrameHeader
  done : o ≡ some (fh', [])
  kind : HasKind fh fh'

read_masking_key-KeyRead :
    (fh : FrameHeader) (db : Bytes) → length db ≡ 4 → KeyRead fh (read_masking_key fh db)
unfolding read_masking_key
read_masking_key-KeyRead fh (a ∷ b ∷ c ∷ d ∷ []) h = record {
  fh' = _;
  done = refl;
  kind = record { op = refl; mask = refl; short_len = λ s. refl };
}
read_masking_key-KeyRead fh (a ∷ b ∷ c ∷ d ∷ e ∷ db) h = absurd (omega (arith, h))
read_masking_key-KeyRead fh [] h = absurd (omega (arith, h))
read_masking_key-KeyRead fh (a ∷ []) h = absurd (omega (arith, h))
read_masking_key-KeyRead fh (a ∷ b ∷ []) h = absurd (omega (arith, h))
read_masking_key-KeyRead fh (a ∷ b ∷ c ∷ []) h = absurd (omega (arith, h))

no_key-KeyRead :
    (fh : FrameHeader) (db : Bytes) → length db ≡ 0 → KeyRead fh (some (record fh { key = 0 }, db))
no_key-KeyRead fh [] h = record {
  fh' = _;
  done = refl;
  kind = record { op = refl; mask = refl; short_len = λ s. refl };
}
no_key-KeyRead fh (x ∷ db) h = absurd (omega (arith, h))

key_cases :
    (fh : FrameHeader) (db : Bytes) (m : Bool)
    → length db ≡ (if m then 4 else 0)
    → KeyRead fh (if m then read_masking_key fh db else some (record fh { key = 0 }, db))
key_cases fh db true h = read_masking_key-KeyRead fh db h
key_cases fh db false h = no_key-KeyRead fh db h

read_key-KeyRead :
    (fh : FrameHeader) (db : Bytes) → length db ≡ key_need fh → KeyRead fh (read_key fh db)
unfolding read_key
read_key-KeyRead fh db h = key_cases fh db fh.mask h

-- What `read_fh2` leaves: an error, or a header of the same kind and nothing behind it.
pub record SecondRead (st : StreamBase) (o : Option Step) : Type 0 where
  pub t : Step
  pub done : o ≡ some t
  pub keeps : t.st.wr_close ≡ st.wr_close
  pub whole : t.code ≡ code_none → (t.db ≡ []) × HasKind st.rd_fh t.st.rd_fh

account-header :
    (st : StreamBase) (db : Bytes) (fh : FrameHeader)
    → ((account st db fh).db ≡ db)
      × ((account st db fh).st.rd_fh ≡ fh)
      × ((account st db fh).st.wr_close ≡ st.wr_close)
unfolding account
account-header st db fh = ground arith

HasKind-compose : (a b c : FrameHeader) → HasKind a b → HasKind b c → HasKind a c
HasKind-compose a b c p q = record {
  op = q.op ∙ p.op;
  mask = q.mask ∙ p.mask;
  short_len = λ s. q.short_len (omega (arith, p.short_len s, s)) ∙ p.short_len s;
}

-- `read_fh2` behind `read_len`.
abbrev keyed : StreamBase → FrameHeader × Bytes × Bool → Option Step
keyed st (fh, db, canonical) =
    if not canonical
    then some
        (record { st = record st { rd_fh = fh }; db = db; code = code_protocol_error; need = 0 })
    else Option.map (λ r. account st r.1 r.0) (read_key fh db)

keyed-SecondRead :
    (st : StreamBase) (fh : FrameHeader) (db : Bytes) (canonical : Bool)
    → HasKind st.rd_fh fh
    → length db ≡ key_need fh
    → SecondRead st (keyed st (fh, db, canonical))
keyed-SecondRead st fh db false k h = record { t = _; done = refl; keeps = refl; whole = λ e. cc }
keyed-SecondRead st fh db true k h =
    let r = read_key-KeyRead fh db h in
    let a = account-header st [] r.fh' in
    record {
      t = account st [] r.fh';
      done = ap (Option.map (λ r. account st r.1 r.0)) r.done;
      keeps = a.2;
      whole = λ e.
          (a.0, subst (HasKind st.rd_fh) (sym a.1) (HasKind-compose st.rd_fh fh r.fh' k r.kind));
    }

pub read_fh2-SecondRead :
    (st : StreamBase) (db : Bytes) → length db ≡ fh_need st.rd_fh → SecondRead st (read_fh2 st db)
unfolding read_fh2 fh_need
read_fh2-SecondRead st db h =
    let l = read_len-LenRead st.rd_fh (key_need st.rd_fh) db h in
    let k =
      keyed-SecondRead st l.fh' l.rest l.canonical l.kind
        (l.length-rest ∙ ap (λ m. if m then 4 else 0) (sym l.kind.mask)) in
    record { t = k.t; done = rw (read_fh2, l.done) k.done; keeps = k.keeps; whole = k.whole }
