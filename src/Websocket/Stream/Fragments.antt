-- ===== src/Websocket/Stream/Fragments.antt =====
-- The frames that `write_frame` makes of a message where it fragments.
use beast.Base.{
  ℕ, zero, suc, ◌-◌, ◌≡◌, ◌≤◌, ◌<◌, ◌⊎◌, inl, inr, refl, sym, ap, ◌∙◌, min, Bool, true, false, ltb,
  ◌==◌, if◌then◌else◌, Option, some, Bytes, List, [], ◌∷◌, ◌++◌, length, take, drop, arith,
  length-append, length-take, length-drop, take-append-drop, take_all, drop_all, append_assoc,
}
use beast.Websocket.Frame.{Endian}
use beast.Websocket.StreamBase.Write.{is_client}
use beast.Websocket.Stream.{
  Below, Stream, send, data_header, frame, set_cont, set_held, send_fragment, fragment,
}
use beast.Websocket.Types.{Opcode, cont, Role}

abbrev next_key : Role → ℕ → ℕ
next_key role k = if is_client role then suc k else k

module _ (e : Endian) (b : Below) (role : Role) (max : ℕ) where
  -- The writes for a payload: frames that are full, and the last one with the final bit. The first
  -- has the opcode that is given, and the others continue it.
  pub data Frames : Opcode → ℕ → Bytes → List Bytes → Type 0 where
    last_frame :
        {op : Opcode} {k : ℕ} (p : Bytes)
        → length p ≤ max
        → Frames op k p (frame e (data_header role op true (length p) (b.keys k)) p ∷ [])
    full_frame :
        {op : Opcode} {k : ℕ} {p rest : Bytes} {ws : List Bytes} (part : Bytes)
        → length part ≡ max
        → p ≡ part ++ rest
        → Frames cont (next_key role k) rest ws
        → Frames op k p (frame e (data_header role op false (length part) (b.keys k)) part ∷ ws)

-- A stream whose buffer has room at all, and that holds as much as it counts.
pub record IsReady (s : Stream) : Type 0 where
  pub max-positive : 0 < s.st.wr.max
  pub size-held : s.st.wr.size ≡ length s.held
  pub held-max : length s.held ≤ s.st.wr.max

-- What a final write leaves: the frames of all that it was given and held, and nothing held.
pub record Finished (e : Endian) (b : Below) (op : Opcode) (p : Bytes) (s : Stream)
    (o : Option Stream) : Type 0 where
  pub result : Stream
  pub done : o ≡ some result
  pub writes : List Bytes
  pub sent-writes : result.sent ≡ s.sent ++ writes
  pub frames : Frames e b s.st.role s.st.wr.max op s.drawn p writes
  pub held-nil : result.held ≡ []
  pub cont-false : result.st.wr.cont ≡ false
  pub failed-false : result.st.failed ≡ false

-- Where the stream below does not fail, a fragment is one more write, and nothing is held behind it.
record Sent (e : Endian) (b : Below) (fin : Bool) (op : Opcode) (mb : Bytes) (s s' : Stream)
    : Type 0 where
  one_more :
      s'.sent
      ≡ s.sent ++ (frame e (data_header s.st.role op fin (length mb) (b.keys s.drawn)) mb ∷ [])
  drawn : s'.drawn ≡ next_key s.st.role s.drawn
  failed : s'.st.failed ≡ b.fails (length s.sent)
  role : s'.st.role ≡ s.st.role
  max : s'.st.wr.max ≡ s.st.wr.max

send_fragment-Sent :
    (e : Endian) (b : Below) (fin : Bool) (op : Opcode) (mb : Bytes) (s : Stream)
    → Sent e b fin op mb s (send_fragment e b fin op mb s)
unfolding send_fragment send
send_fragment-Sent e b fin op mb s = record {
  one_more = refl;
  drawn = refl;
  failed = refl;
  role = refl;
  max = refl;
}

-- The last round, and a round with more to come.
fragment-last :
    (e : Endian) (b : Below) (fuel : ℕ) (op : Opcode) (cb : Bytes) (s : Stream)
    → ((i : ℕ) → b.fails i ≡ false)
    → length cb ≤ s.st.wr.max - s.st.wr.size
    → fragment e b (suc fuel) true op cb s
      ≡ some (set_cont false (set_held [] (send_fragment e b true op (s.held ++ cb) s)))
unfolding fragment send_fragment send
fragment-last e b fuel op cb s ok le =
    let room = s.st.wr.max - s.st.wr.size in
    let n : min (length cb) room ≡ length cb = omega (arith, le) in
    let all : take (length cb) cb ≡ cb = take_all (length cb) cb (omega arith) in
    let none_left : drop (length cb) cb ≡ [] = drop_all (length cb) cb (omega arith) in
    let same : (length cb == length cb) ≡ true = ground arith in
    rw (n, all, none_left, same, ok (length s.sent)) refl

fragment-more :
    (e : Endian) (b : Below) (fuel : ℕ) (op : Opcode) (cb : Bytes) (s : Stream)
    → ((i : ℕ) → b.fails i ≡ false)
    → let room = s.st.wr.max - s.st.wr.size in
      room < length cb
      → fragment e b (suc fuel) true op cb s
        ≡ fragment e b fuel true cont
            (drop room cb)
            (set_held [] (send_fragment e b false op (s.held ++ take room cb) s))
unfolding fragment send_fragment send
fragment-more e b fuel op cb s ok lt =
    let room = s.st.wr.max - s.st.wr.size in
    let n : min (length cb) room ≡ room = omega (arith, lt) in
    let other : (room == length cb) ≡ false = ground (arith, lt) in
    let left : ltb 0 (length (drop room cb)) ≡ true = ground (arith, length-drop room cb, lt) in
    rw (n, other, ok (length s.sent), left) refl

-- Enough fuel for what is left: one round more where there is no room in the first.
abbrev Fuel : ℕ → Bytes → Stream → Type 0
Fuel fuel cb s = ((length cb < fuel) × (s.st.wr.size < s.st.wr.max)) ⊎ (suc (length cb) < fuel)

-- Behind a full fragment the stream is ready, with nothing held.
behind-IsReady :
    (e : Endian) (b : Below) (op : Opcode) (mb : Bytes) (s : Stream)
    → IsReady s
    → IsReady (set_held [] (send_fragment e b false op mb s))
unfolding send_fragment send
behind-IsReady e b op mb s r = record {
  max-positive = r.max-positive;
  size-held = refl;
  held-max = omega arith;
}

last-Finished :
    (e : Endian) (b : Below) (op : Opcode) (cb : Bytes) (s : Stream) (o : Option Stream)
    → ((i : ℕ) → b.fails i ≡ false)
    → length (s.held ++ cb) ≤ s.st.wr.max
    → o ≡ some (set_cont false (set_held [] (send_fragment e b true op (s.held ++ cb) s)))
    → Finished e b op (s.held ++ cb) s o
unfolding send_fragment send
last-Finished e b op cb s o ok le eq = record {
  result = set_cont false (set_held [] (send_fragment e b true op (s.held ++ cb) s));
  done = eq;
  writes =
      frame e (data_header s.st.role op true (length (s.held ++ cb)) (b.keys s.drawn))
        (s.held ++ cb)
      ∷ [];
  sent-writes = refl;
  frames = last_frame (s.held ++ cb) le;
  held-nil = refl;
  cont-false = refl;
  failed-false = ok (length s.sent);
}

more-Finished :
    (e : Endian) (b : Below) (op : Opcode) (part rest p : Bytes) (s : Stream) (o o' : Option Stream)
    → length part ≡ s.st.wr.max
    → p ≡ part ++ rest
    → o ≡ o'
    → Finished e b cont rest (set_held [] (send_fragment e b false op part s)) o'
    → Finished e b op p s o
unfolding send_fragment send
more-Finished e b op part rest p s o o' full split eq f =
    let one = frame e (data_header s.st.role op false (length part) (b.keys s.drawn)) part in
    record {
      result = f.result;
      done = eq ∙ f.done;
      writes = one ∷ f.writes;
      sent-writes = f.sent-writes ∙ append_assoc s.sent (one ∷ []) f.writes;
      frames = full_frame part full split f.frames;
      held-nil = f.held-nil;
      cont-false = f.cont-false;
      failed-false = f.failed-false;
    }

pub fragment-Finished :
    (e : Endian) (b : Below) (fuel : ℕ) (op : Opcode) (cb : Bytes) (s : Stream)
    → ((i : ℕ) → b.fails i ≡ false)
    → IsReady s
    → Fuel fuel cb s
    → Finished e b op (s.held ++ cb) s (fragment e b fuel true op cb s)
fragment-Finished e b zero op cb s ok r enough = absurd (ground arith)
fragment-Finished e b (suc fuel) op cb s ok r enough =
    let room = s.st.wr.max - s.st.wr.size in
    elim (fits_or_not (length cb) room) [
      | inl le ↦
          last-Finished e b op cb s (fragment e b (suc fuel) true op cb s) ok
            (omega (arith, length-append s.held cb, r.size-held, r.held-max, le))
            (fragment-last e b fuel op cb s ok le)
      | inr lt ↦
          let part = s.held ++ take room cb in
          let next = set_held [] (send_fragment e b false op part s) in
          let ready = behind-IsReady e b op part s r in
          let shorter : length (drop room cb) < fuel =
            ground (arith, length-drop room cb, lt, enough) in
          more-Finished e b op part (drop room cb) (s.held ++ cb) s
            (fragment e b (suc fuel) true op cb s) (fragment e b fuel true cont (drop room cb) next)
            (omega (
              arith,
              length-append s.held (take room cb),
              length-take room cb,
              r.size-held,
              r.held-max,
              lt,
            ))
            (ap (λ t. s.held ++ t) (sym (take-append-drop room cb))
              ∙ sym (append_assoc s.held (take room cb) (drop room cb)))
            (fragment-more e b fuel op cb s ok lt)
            (fragment-Finished e b fuel cont (drop room cb) next ok ready
              (inl (shorter, ready.max-positive)))
    ]
  where
    fits_or_not : (n m : ℕ) → (n ≤ m) ⊎ (m < n)
    fits_or_not n m = omega arith
