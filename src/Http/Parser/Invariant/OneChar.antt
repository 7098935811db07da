-- ===== src/Http/Parser/Invariant/OneChar.antt =====
-- The invariant where a case compares one character or reads one digit.
use beast.Base.{
  ℕ, ◌*◌, ◌+◌, ◌-◌, ◌≡◌, sym, Bool, not, Bytes, if◌then◌else◌, true, false, none, arith, ◌==◌,
}
use mathlib.Core.Path.{subst}
use beast.Http.Chars.{is_digit}
use beast.Http.Parser.Invariant.Defs.{CbOk, LengthOk, IsValid, OutcomeOk}
use beast.Http.Parser.Outcome.{expect, err, enter}
use beast.Http.Parser.StartLine.{major_digit, minor_digit, status_digit}
use beast.Http.Parser.Types.{ErrorCode, State, Parser}

module _ {S : Type 0} where
  pub failed :
      (p : Parser S) (rest : Bytes) (ev : ErrorCode) → IsValid p → OutcomeOk rest (err p ev)
  failed p rest ev v = (
    record { cb_ok = tt; pos_ok = v.pos_ok; length_fits = v.length_fits; length_ok = tt },
    omega arith,
    tt,
  )

  -- What the cases of one character have in common.
  one_char :
      {s' : State} (ok : Bool) (p q : Parser S) (rest : Bytes) (ev : ErrorCode)
      → IsValid p
      → IsValid (record q { s = s' })
      → OutcomeOk rest (if not ok then err p ev else enter q s')
  one_char true p q rest ev v w = (w, omega arith)
  one_char false p q rest ev v w = failed p rest ev v

  moved :
      (p : Parser S) (s' : State)
      → IsValid p
      → p.cb ≡ none
      → CbOk s' none
      → ((n : ℕ) → LengthOk s' n)
      → IsValid (record p { s = s' })
  moved p s' v c h l = record {
    cb_ok = subst (CbOk s') (sym c) h;
    pos_ok = v.pos_ok;
    length_fits = v.length_fits;
    length_ok = l p.content_length;
  }

  pub expect-OutcomeOk :
      (c : ℕ) (ev : ErrorCode) (s' : State) (p : Parser S) (ch : ℕ) (rest : Bytes)
      → IsValid p
      → p.cb ≡ none
      → CbOk s' none
      → ((n : ℕ) → LengthOk s' n)
      → OutcomeOk rest (expect c ev s' p ch)
  expect-OutcomeOk c ev s' p ch rest v e h l = one_char (ch == c) p p rest ev v (moved p s' v e h l)

  pub major_digit-OutcomeOk :
      (s' : State) (p : Parser S) (ch : ℕ) (rest : Bytes)
      → IsValid p
      → p.cb ≡ none
      → CbOk s' none
      → ((n : ℕ) → LengthOk s' n)
      → OutcomeOk rest (major_digit s' p ch)
  unfolding major_digit
  major_digit-OutcomeOk s' p ch rest v e h l =
      one_char (is_digit ch) p (record p { http_major = ch - b'0' }) rest _ v
        (moved_on (moved p s' v e h l))
    where
      moved_on :
          IsValid (record p { s = s' }) → IsValid (record p { s = s'; http_major = ch - b'0' })
      moved_on w = record {
        cb_ok = w.cb_ok;
        pos_ok = w.pos_ok;
        length_fits = w.length_fits;
        length_ok = w.length_ok;
      }

  pub minor_digit-OutcomeOk :
      (s' : State) (p : Parser S) (ch : ℕ) (rest : Bytes)
      → IsValid p
      → p.cb ≡ none
      → CbOk s' none
      → ((n : ℕ) → LengthOk s' n)
      → OutcomeOk rest (minor_digit s' p ch)
  unfolding minor_digit
  minor_digit-OutcomeOk s' p ch rest v e h l =
      one_char (is_digit ch) p (record p { http_minor = ch - b'0' }) rest _ v
        (moved_on (moved p s' v e h l))
    where
      moved_on :
          IsValid (record p { s = s' }) → IsValid (record p { s = s'; http_minor = ch - b'0' })
      moved_on w = record {
        cb_ok = w.cb_ok;
        pos_ok = w.pos_ok;
        length_fits = w.length_fits;
        length_ok = w.length_ok;
      }

  pub status_digit-OutcomeOk :
      (s' : State) (before : ℕ) (p : Parser S) (ch : ℕ) (rest : Bytes)
      → IsValid p
      → p.cb ≡ none
      → CbOk s' none
      → ((n : ℕ) → LengthOk s' n)
      → OutcomeOk rest (status_digit s' before p ch)
  unfolding status_digit
  status_digit-OutcomeOk s' before p ch rest v e h l =
      one_char (is_digit ch) p (record p { status_code = before * 10 + ch - b'0' }) rest _ v
        (moved_on (moved p s' v e h l))
    where
      moved_on :
          IsValid (record p { s = s' })
          → IsValid (record p { s = s'; status_code = before * 10 + ch - b'0' })
      moved_on w = record {
        cb_ok = w.cb_ok;
        pos_ok = w.pos_ok;
        length_fits = w.length_fits;
        length_ok = w.length_ok;
      }
