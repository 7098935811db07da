-- ===== src/Http/Parser/Invariant/Defs.antt =====
-- What holds of the parser between two characters: the callback that is pending is the one of the
-- state, the position in a matched string is inside it, and the content length is in range.
use beast.Base.{
  ℕ, suc, ◌+◌, ◌≤◌, ◌<◌, ◌≡◌, sym, refl, Bool, if◌then◌else◌, true, false, Option, none, some,
  Bytes, [], ◌∷◌, length, arith,
}
use mathlib.Core.Path.{subst, subst₂}
use beast.Http.Parser.Calls.{invoke, switch_cb, run_cb}
use beast.Http.Parser.Fields.{
  str_connection, str_proxy_connection, str_content_length, str_transfer_encoding, str_upgrade,
  str_keep_alive, str_close, str_chunked,
}
use beast.Http.Parser.Outcome.{Outcome, next, stay, ret, enter, unless_failed}
use beast.Http.Parser.Types.{
  State, dead, restart, body_pause, req_method, req_url, res_reason, header_name, header_value,
  body_identity0, body_identity, body_identity_eof0, body_identity_eof, chunk_size0, chunk_size,
  chunk_ext_name0, chunk_ext_name, chunk_ext_val, chunk_size_lf, chunk_data0, chunk_data,
  chunk_data_cr, FieldState, h_c, h_co, h_con, h_matching_connection, h_matching_proxy_connection,
  h_matching_content_length, h_matching_transfer_encoding, h_matching_upgrade,
  h_matching_connection_keep_alive, h_matching_connection_close, h_matching_connection_upgrade,
  h_matching_transfer_encoding_chunked, Callback, call_on_method, call_on_uri, call_on_reason,
  call_on_field, call_on_value, call_on_body, Derived, Parser, no_content_length,
}

-- The callback that is pending in a state. A dead parser may still hold one.
abbrev pub CbOk : State → Option Callback → Type 0
CbOk dead cb = Unit
CbOk req_method cb = cb ≡ some call_on_method
CbOk req_url cb = cb ≡ some call_on_uri
CbOk res_reason cb = cb ≡ some call_on_reason
CbOk header_name cb = cb ≡ some call_on_field
CbOk header_value cb = cb ≡ some call_on_value
CbOk body_identity cb = cb ≡ some call_on_body
CbOk body_identity_eof cb = cb ≡ some call_on_body
CbOk chunk_data cb = cb ≡ some call_on_body
CbOk chunk_data_cr cb = cb ≡ some call_on_body
CbOk _ cb = cb ≡ none

-- The next character to compare with is in the string, before its terminating zero.
abbrev pub PosOk : FieldState → ℕ → Type 0
PosOk h_c pos = pos ≡ 0
PosOk h_co pos = pos ≡ 1
PosOk h_con pos = pos ≡ 2
PosOk h_matching_connection pos = pos + 1 < length str_connection
PosOk h_matching_proxy_connection pos = pos + 1 < length str_proxy_connection
PosOk h_matching_content_length pos = pos + 1 < length str_content_length
PosOk h_matching_transfer_encoding pos = pos + 1 < length str_transfer_encoding
PosOk h_matching_upgrade pos = pos + 1 < length str_upgrade
PosOk h_matching_connection_keep_alive pos = pos + 1 < length str_keep_alive
PosOk h_matching_connection_close pos = pos + 1 < length str_close
PosOk h_matching_connection_upgrade pos = pos + 1 < length str_upgrade
PosOk h_matching_transfer_encoding_chunked pos = pos + 1 < length str_chunked
PosOk _ pos = Unit

abbrev pub LengthOk : State → ℕ → Type 0
LengthOk chunk_size n = n < no_content_length
LengthOk chunk_ext_name0 n = n < no_content_length
LengthOk chunk_ext_name n = n < no_content_length
LengthOk chunk_ext_val n = n < no_content_length
LengthOk chunk_size_lf n = n < no_content_length
LengthOk chunk_data0 n = (0 < n) × (n < no_content_length)
LengthOk chunk_data n = (0 < n) × (n < no_content_length)
LengthOk body_identity0 n = (0 < n) × (n < no_content_length)
LengthOk body_identity n = (0 < n) × (n < no_content_length)
LengthOk _ n = Unit

-- The states that a paused parser goes on in.
abbrev pub Resumes : State → Type 0
Resumes chunk_size0 = Unit
Resumes body_identity0 = Unit
Resumes body_identity_eof0 = Unit
Resumes _ = ⊥

-- The states that `write` returns in before the buffer is used up.
abbrev pub Stops : State → Type 0
Stops dead = Unit
Stops restart = Unit
Stops body_pause = Unit
Stops _ = ⊥

module _ {S : Type 0} where
  pub record IsValid (p : Parser S) : Type 0 where
    pub cb_ok : CbOk p.s p.cb
    pub pos_ok : PosOk p.fs p.pos
    pub length_fits : p.content_length ≤ no_content_length
    pub length_ok : LengthOk p.s p.content_length

  -- A round keeps the invariant and takes no more than is there.
  abbrev pub OutcomeOk : Bytes → Outcome S → Type 0
  OutcomeOk rest (next q n) = IsValid q × (n ≤ length rest)
  OutcomeOk rest (stay q) = IsValid q × Resumes q.s
  OutcomeOk rest (ret q n) = IsValid q × (n ≤ suc (length rest)) × Stops q.s

  pub by_if :
      (t : Bool) (a b : Outcome S) (rest : Bytes)
      → OutcomeOk rest a
      → OutcomeOk rest b
      → OutcomeOk rest (if t then a else b)
  by_if true a b rest h k = h
  by_if false a b rest h k = k

  -- Nothing that the invariant reads has changed, but the callback.
  pub record Keeps (p q : Parser S) : Type 0 where
    pub s_kept : q.s ≡ p.s
    pub fs_kept : q.fs ≡ p.fs
    pub pos_kept : q.pos ≡ p.pos
    pub flags_kept : q.flags ≡ p.flags
    pub length_kept : q.content_length ≡ p.content_length

module _ {S : Type 0} (is_request : Bool) (d : Derived S) where
  pub invoke-Keeps :
      (c : Callback) (p : Parser S) (piece : Bytes)
      → Keeps p (invoke is_request d c p piece) × ((invoke is_request d c p piece).cb ≡ p.cb)
  unfolding invoke
  invoke-Keeps call_on_method p piece = ground arith
  invoke-Keeps _ p piece = ground arith

  pub switch_cb-Keeps :
      (c : Option Callback) (piece : Bytes) (p : Parser S) (to : Option Callback)
      → let r = switch_cb is_request d c piece p to in
        Keeps p r.0 × (r.1 ≡ false → r.0.cb ≡ to) × (c ≡ none → r.1 ≡ false)
  unfolding switch_cb
  switch_cb-Keeps none piece p to = ground arith
  switch_cb-Keeps (some c) [] p to = ground arith
  switch_cb-Keeps (some c) (x ∷ xs) p to = ground (arith, invoke-Keeps c p (x ∷ xs))

  -- `cb(next)` leaves `next` pending unless it fails, and cannot fail where nothing is pending.
  pub run_cb-Keeps :
      (p : Parser S) (to : Option Callback)
      → let r = run_cb is_request d p to in
        Keeps p r.0 × (r.1 ≡ false → r.0.cb ≡ to) × (p.cb ≡ none → r.1 ≡ false)
  unfolding run_cb
  run_cb-Keeps p to = switch_cb-Keeps p.cb p.piece p to

module _ {S : Type 0} where
  pub PosOk-Keeps : (p q : Parser S) → PosOk p.fs p.pos → Keeps p q → PosOk q.fs q.pos
  PosOk-Keeps p q h k = subst₂ PosOk (sym k.fs_kept) (sym k.pos_kept) h

  -- The invariant in a state that a case enters.
  pub entered :
      {p q : Parser S} (s' : State)
      → IsValid p
      → Keeps p q
      → CbOk s' q.cb
      → LengthOk s' q.content_length
      → IsValid (record q { s = s' })
  entered {p} {q} s' v k c l = record {
    cb_ok = c;
    pos_ok = PosOk-Keeps p q v.pos_ok k;
    length_fits = rw k.length_kept v.length_fits;
    length_ok = l;
  }

  -- A dead parser needs no more than ranges.
  pub died : {p q : Parser S} → IsValid p → Keeps p q → IsValid (record q { s = dead })
  died v k = entered dead v k tt tt

  pub Keeps-refl : (p : Parser S) → Keeps p p
  Keeps-refl p = record {
    s_kept = refl;
    fs_kept = refl;
    pos_kept = refl;
    flags_kept = refl;
    length_kept = refl;
  }

module _ {S : Type 0} (is_request : Bool) (d : Derived S) where
  -- `if(cb(nullptr)) return errc(); s_ = s'; break;`
  pub cb_ended :
      (p : Parser S) (rest : Bytes) (s' : State)
      → IsValid p
      → CbOk s' none
      → ((n : ℕ) → LengthOk s' n)
      → OutcomeOk rest (unless_failed (run_cb is_request d p none) (λ q. enter q s'))
  cb_ended p rest s' v c l = go (run_cb is_request d p none) (run_cb-Keeps is_request d p none)
    where
      go :
          (r : Parser S × Bool)
          → Keeps p r.0 × (r.1 ≡ false → r.0.cb ≡ none) × (p.cb ≡ none → r.1 ≡ false)
          → OutcomeOk rest (unless_failed r (λ q. enter q s'))
      go (q, true) k = (died v k.0, omega arith, tt)
      go (q, false) k =
          (entered s' v k.0 (subst (CbOk s') (sym (k.1 refl)) c) (l q.content_length), omega arith)

  -- `cb(c); s_ = s';` where nothing is pending.
  pub cb_begun :
      (p : Parser S) (c : Callback) (s' : State)
      → IsValid p
      → p.cb ≡ none
      → CbOk s' (some c)
      → LengthOk s' p.content_length
      → IsValid (record (run_cb is_request d p (some c)).0 { s = s' })
  cb_begun p c s' v e ok l =
      let k = run_cb-Keeps is_request d p (some c) in
      entered s' v k.0 (subst (CbOk s') (sym (k.1 (k.2 e))) ok)
        (subst (LengthOk s') (sym k.0.length_kept) l)
