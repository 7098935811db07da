-- ===== src/Http/Parser/Outcome.antt =====
-- What one round of the loop in `write` does with the character at `p`.
use beast.Base.{ℕ, Bool, true, false, not, ◌==◌, if◌then◌else◌, some}
use beast.Http.Parser.Calls.{is_set}
use beast.Http.Parser.Types.{State, dead, ErrorCode, Parser}

-- `next p n`: `break` with `p` moved on by `n` more characters, before the loop's `++p`.
-- `stay p`: `break` with `p` moved back by one, so that the loop meets the same character again.
-- `ret p n`: `return used()` with `p` moved on by `n`.
pub data Outcome (S : Type 0) : Type 0 where
  next : Parser S → ℕ → Outcome S
  stay : Parser S → Outcome S
  ret : Parser S → ℕ → Outcome S

module _ {S : Type 0} where
  -- `return err(ev)`
  abbrev pub err : Parser S → ErrorCode → Outcome S
  err p ev = ret (record p { ec = some ev; s = dead }) 0

  -- `return errc()`
  abbrev pub errc : Parser S → Outcome S
  errc p = ret (record p { s = dead }) 0

  -- `s_ = s; break;`
  abbrev pub enter : Parser S → State → Outcome S
  enter p s = next (record p { s = s }) 0

  -- `if(ec) return errc();`
  abbrev pub unless_set : Parser S → Outcome S → Outcome S
  unless_set p k = if is_set p.ec then errc p else k

  -- `if(cb(next)) return errc();` on the result of `run_cb`
  abbrev pub unless_failed : Parser S × Bool → (Parser S → Outcome S) → Outcome S
  unless_failed (p, true) k = errc p
  unless_failed (p, false) k = k p

  -- `if(ch != c) return err(ev); s_ = s; break;`
  abbrev pub expect : ℕ → ErrorCode → State → Parser S → ℕ → Outcome S
  expect c ev s p ch = if not (ch == c) then err p ev else enter p s
