-- ===== src/Websocket/Reader/Total.antt =====
-- `read_frame` and `read` on any input.
use beast.Base.{
  ℕ, suc, zero, ◌<◌, ◌≡◌, ◌⊎◌, inl, inr, refl, Bool, true, false, Option, none, some, length, arith,
}
use beast.Websocket.Frame.{Endian}
use beast.Websocket.Reader.{
  Net, Reader, below_failed, closed, failed, Outcome, info, error, Round, again, stop, broken,
}
use beast.Websocket.Reader.Closes.{IsOnce}
use beast.Websocket.Reader.Controls.{Progress, goes_on, gives, fails}
use beast.Websocket.Reader.Loop.{round, read_frame, read}
use beast.Websocket.Reader.Rounds.{round-Progress}
use beast.Websocket.Stream.{Stream}

abbrev pub is_error : Outcome → Bool
is_error (info op fin) = false
is_error (error ec) = true

-- Where the connection is closed or failed, a close frame has been written.
abbrev pub HasClosed : Outcome → Reader → Type 0
HasClosed (info op fin) r = Unit
HasClosed (error below_failed) r = Unit
HasClosed (error closed) r = r.s.st.wr_close ≡ true
HasClosed (error failed) r = r.s.st.wr_close ≡ true

-- How a read ends, from a stream that writes.
pub record Ended (s : Stream) (o : Option (Reader × Outcome)) : Type 0 where
  pub result : Reader
  pub outcome : Outcome
  pub done : o ≡ some (result, outcome)
  pub failed-is_error : result.s.st.failed ≡ is_error outcome
  pub closes_first : HasClosed outcome result
  pub once : IsOnce s → IsOnce result.s

-- The same of one frame, with less input left.
record FrameEnded (n : ℕ) (s : Stream) (o : Option (Reader × Outcome)) : Type 0 where
  ended : Ended s o
  shorter : is_error ended.outcome ≡ false → length ended.result.input < n

module _ (e : Endian) (net : Net) where
  after_error :
      (ec : _) (r : Reader)
      → (ec ≡ below_failed) ⊎ (r.s.st.wr_close ≡ true)
      → HasClosed (error ec) r
  after_error below_failed r h = tt
  after_error closed r (inl p) = cc
  after_error closed r (inr w) = w
  after_error failed r (inl p) = cc
  after_error failed r (inr w) = w

  frame_cases :
      (n fuel : ℕ) (s : Stream) (rd : Round)
      → Progress n s rd
      → ((r : Reader)
          → length r.input < n
          → FrameEnded (length r.input) r.s (read_frame e net fuel r))
      → FrameEnded n s
          (elim rd [ again r ↦ read_frame e net fuel r | stop r o ↦ some (r, o) | broken ↦ none ])
  frame_cases n fuel s broken p f = elim p [ ]
  frame_cases n fuel s (again r) (goes_on lt once) f =
      let g = f r lt in
      record {
        ended = record {
          result = g.ended.result;
          outcome = g.ended.outcome;
          done = g.ended.done;
          failed-is_error = g.ended.failed-is_error;
          closes_first = g.ended.closes_first;
          once = λ o. g.ended.once (once o);
        };
        shorter = λ q. omega (arith, g.shorter q, lt);
      }
  frame_cases n fuel s (stop r (info op fin)) (gives lt good once) f = record {
    ended = record {
      result = r;
      outcome = info op fin;
      done = refl;
      failed-is_error = good;
      closes_first = tt;
      once = once;
    };
    shorter = λ q. lt;
  }
  frame_cases n fuel s (stop r (error ec)) (fails bad h once) f = record {
    ended = record {
      result = r;
      outcome = error ec;
      done = refl;
      failed-is_error = bad;
      closes_first = after_error ec r h;
      once = once;
    };
    shorter = λ q. cc;
  }

  read_frame-FrameEnded :
      (fuel : ℕ) (r : Reader)
      → length r.input < fuel
      → FrameEnded (length r.input) r.s (read_frame e net fuel r)
  unfolding read_frame
  read_frame-FrameEnded zero r lt = absurd (omega (arith, lt))
  read_frame-FrameEnded (suc fuel) r lt =
      frame_cases (length r.input) fuel r.s (round e net r) (round-Progress e net r)
        (λ r' lt'. read_frame-FrameEnded fuel r' (omega (arith, lt, lt')))

  -- With one round more than there are bytes of input, `read_frame` ends, whatever the input, the
  -- writes below that fail and the state of the stream; no assertion fails. It sets `failed_`
  -- exactly where it gives an error; where that is `closed` or `failed`, a close frame has been
  -- written; and where a close frame has been written at most once so far, and is noted, that is
  -- still so.
  pub read_frame-Ended :
      (fuel : ℕ) (r : Reader) → length r.input < fuel → Ended r.s (read_frame e net fuel r)
  read_frame-Ended fuel r lt = (read_frame-FrameEnded fuel r lt).ended

  -- What `read` does behind a frame.
  abbrev pub behind_frame : ℕ → Reader × Outcome → Option (Reader × Outcome)
  behind_frame fuel (r, error ec) = some (r, error ec)
  behind_frame fuel (r, info op true) = some (r, info op true)
  behind_frame fuel (r, info op false) = read e net fuel r

  abbrev pub frame_or_none : ℕ → Option (Reader × Outcome) → Option (Reader × Outcome)
  frame_or_none fuel none = none
  frame_or_none fuel (some (r, o)) = behind_frame fuel (r, o)

  message_cases :
      (n fuel : ℕ) (s : Stream) (r : Reader) (o : Outcome)
      → r.s.st.failed ≡ is_error o
      → HasClosed o r
      → (IsOnce s → IsOnce r.s)
      → (is_error o ≡ false → length r.input < n)
      → ((r : Reader) → length r.input < n → Ended r.s (read e net fuel r))
      → Ended s (behind_frame fuel (r, o))
  message_cases n fuel s r (error ec) p c h lt f = record {
    result = r;
    outcome = error ec;
    done = refl;
    failed-is_error = p;
    closes_first = c;
    once = h;
  }
  message_cases n fuel s r (info op true) p c h lt f = record {
    result = r;
    outcome = info op true;
    done = refl;
    failed-is_error = p;
    closes_first = c;
    once = h;
  }
  message_cases n fuel s r (info op false) p c h lt f =
      let g = f r (lt refl) in
      record {
        result = g.result;
        outcome = g.outcome;
        done = g.done;
        failed-is_error = g.failed-is_error;
        closes_first = g.closes_first;
        once = λ o. g.once (h o);
      }

  pub read-behind :
      (fuel : ℕ) (r : Reader)
      → read e net (suc fuel) r ≡ frame_or_none fuel (read_frame e net (suc (length r.input)) r)
  unfolding read
  read-behind fuel r = cases (read_frame e net (suc (length r.input)) r)
    where
      cases :
          (o : Option (Reader × Outcome))
          → elim o [
            | none ↦ none
            | some (r', error ec) ↦ some (r', error ec)
            | some (r', info op true) ↦ some (r', info op true)
            | some (r', info op false) ↦ read e net fuel r'
          ]
            ≡ frame_or_none fuel o
      cases none = refl
      cases (some (r', error ec)) = refl
      cases (some (r', info op true)) = refl
      cases (some (r', info op false)) = refl

  -- With one frame more than there are bytes of input, `read` ends, whatever the input, the writes
  -- below that fail and the state of the stream; no assertion fails. It sets `failed_` exactly where
  -- it gives an error; where that is `closed` or `failed`, a close frame has been written; and where
  -- a close frame has been written at most once so far, and is noted, that is still so.
  pub read-Ended : (fuel : ℕ) (r : Reader) → length r.input < fuel → Ended r.s (read e net fuel r)
  read-Ended zero r lt = absurd (omega (arith, lt))
  read-Ended (suc fuel) r lt =
      let f = read_frame-FrameEnded (suc (length r.input)) r (omega arith) in
      let d = f.ended in
      rw (read-behind fuel r, d.done)
        (message_cases (length r.input) fuel r.s d.result d.outcome d.failed-is_error d.closes_first
          d.once f.shorter (λ r' lt'. read-Ended fuel r' (omega (arith, lt, lt'))))
