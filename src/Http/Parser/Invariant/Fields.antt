-- ===== src/Http/Parser/Invariant/Fields.antt =====
-- The position in a matched string stays inside it, and the content length fits 64 bits.
use beast.Base.{ℕ, ◌≤◌, ◌≡◌, arith}
use beast.Http.Parser.Fields.{Field, FieldResult, ok, bad, name_char}
use beast.Http.Parser.Invariant.Defs.{PosOk}
use beast.Http.Parser.Types.{FieldState, h_general, no_content_length}
use beast.Http.Parser.Values.{value_char}

-- A step of a switch keeps what the invariant says of the field.
pub record FieldOk (f : Field) : Type 0 where
  pub pos_ok : PosOk f.fs f.pos
  pub length_fits : f.content_length ≤ no_content_length

abbrev pub ResultOk : FieldResult → Type 0
ResultOk (bad e) = Unit
ResultOk (ok f) = FieldOk f

pub name_char-ResultOk :
    (fs : FieldState) (c : ℕ) (f : Field) → f.fs ≡ fs → FieldOk f → ResultOk (name_char fs c f)
unfolding name_char
name_char-ResultOk h_general c f e v = ground arith
name_char-ResultOk _ c f e v = ground arith

pub value_char-ResultOk :
    (fs : FieldState) (ch c : ℕ) (f : Field)
    → f.fs ≡ fs
    → FieldOk f
    → ResultOk (value_char fs ch c f)
unfolding value_char
value_char-ResultOk h_general ch c f e v = ground arith
value_char-ResultOk _ ch c f e v = ground arith
