-- ===== src/Core/Queue.antt =====
-- What a dynamic buffer promises: a queue of bytes, and bytes that are prepared behind it.
use beast.Base.{ℕ, ◌≡◌, ◌++◌, Bytes, List, [], ◌∷◌, length, take, drop}

pub record Queue : Type 0 where
  pub input : Bytes
  pub output : Bytes

-- What the client does. `stores` is its write to the bytes that are prepared, which then are the
-- given ones.
pub data Call : Type 0 where
  prepares commits consumes : ℕ → Call
  stores : Bytes → Call
  clears : Call

-- What each call does to the queue. Only the bytes that `prepares` gives are left open.
abbrev pub Does : Call → Queue → Queue → Type 0
Does (prepares n) q r = (r.input ≡ q.input) × (length r.output ≡ n)
Does (commits n) q r = (r.input ≡ q.input ++ take n q.output) × (r.output ≡ drop n q.output)
Does (consumes n) q r = (r.input ≡ drop n q.input) × (r.output ≡ q.output)
Does (stores bs) q r = (r.input ≡ q.input) × (r.output ≡ bs) × (length bs ≡ length q.output)
Does clears q r = (r.input ≡ []) × (r.output ≡ [])

-- The calls in their order, with what each does.
pub data Runs {ℓ} {S : Type ℓ} (step : Call → S → S → Type 0) : S → List Call → S → Type ℓ where
  here : {s : S} → Runs step s [] s
  next :
      {s s' s'' : S} {c : Call} {cs : List Call}
      → step c s s'
      → Runs step s' cs s''
      → Runs step s (c ∷ cs) s''
