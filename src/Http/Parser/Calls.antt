-- ===== src/Http/Parser/Calls.antt =====
-- The calls into the derived class, with the limits that they enforce, and the questions that the
-- parser answers about itself.
use beast.Base.{
  ℕ, ◌+◌, ◌-◌, ◌/◌, ◌%◌, ◌^◌, Bool, true, false, not, ◌&&◌, ◌||◌, ltb, leb, ◌==◌, if◌then◌else◌,
  Option, none, some, Bytes, [], ◌∷◌, length,
}
use beast.Http.Parser.Types.{
  State, req_start, res_start, restart, closed_complete, body_pause, ErrorCode, headers_too_big,
  body_too_big, Callback, call_on_method, call_on_uri, call_on_reason, call_on_field, call_on_value,
  call_on_body, Derived, Parser, no_content_length,
}

-- `if(ec)`
abbrev pub is_set : Option ErrorCode → Bool
is_set none = false
is_set (some e) = true

-- `left -= size` on a `std::size_t`.
abbrev pub spent : ℕ → ℕ → ℕ
spent left size = (left + 2 ^ 64 - size) % 2 ^ 64

module _ {S : Type 0} where
  abbrev pub with_result : Parser S → S × Option ErrorCode → Parser S
  with_result p (impl, ec) = record p { impl = impl; ec = ec }

  -- The limit that guards the callbacks of the header, and the one that guards the body.
  unfoldable pub spend_header :
      (Bytes → S → Option ErrorCode → S × Option ErrorCode) → Parser S → Bytes → Parser S
  spend_header f p piece =
      if not (p.h_max == 0) && ltb p.h_left (length piece)
      then record p { ec = some headers_too_big }
      else with_result (record p { h_left = spent p.h_left (length piece) }) (f piece p.impl p.ec)

  unfoldable pub spend_body :
      (Bytes → S → Option ErrorCode → S × Option ErrorCode) → Parser S → Bytes → Parser S
  spend_body f p piece =
      if not (p.b_max == 0) && ltb p.b_left (length piece)
      then record p { ec = some body_too_big }
      else with_result (record p { b_left = spent p.b_left (length piece) }) (f piece p.impl p.ec)

module _ {S : Type 0} (is_request : Bool) (d : Derived S) where
  -- `(this->*cb_)(ec, piece)`
  unfoldable pub invoke : Callback → Parser S → Bytes → Parser S
  unfolding spend_header spend_body
  invoke call_on_method p piece = if is_request then spend_header d.on_method p piece else p
  invoke call_on_uri p piece = if is_request then spend_header d.on_uri p piece else p
  invoke call_on_reason p piece = if is_request then p else spend_header d.on_reason p piece
  invoke call_on_field p piece = spend_header d.on_field p piece
  invoke call_on_value p piece = spend_header d.on_value p piece
  invoke call_on_body p piece = spend_body d.on_body p piece

  -- `call_on_start`, `call_on_request`, `call_on_response`, `call_on_headers`, `call_on_complete`
  abbrev pub start_called : Parser S → Parser S
  start_called p = with_result p (d.on_start p.impl p.ec)

  abbrev pub request_called : Parser S → Parser S
  request_called p = if is_request then with_result p (d.on_request p.impl p.ec) else p

  abbrev pub response_called : Parser S → Parser S
  response_called p = if is_request then p else with_result p (d.on_response p.impl p.ec)

  abbrev pub headers_called : Parser S → Parser S
  headers_called p = with_result p (d.on_headers p.content_length p.impl p.ec)

  abbrev pub complete_called : Parser S → Parser S
  complete_called p = with_result p (d.on_complete p.impl p.ec)

  -- The lambda `cb`: `true` is an error. The piece starts anew where a callback is set.
  abbrev set_cb : Parser S → Option Callback → Parser S
  set_cb p none = record p { cb = none }
  set_cb p (some c) = record p { cb = some c; piece = [] }

  abbrev checked_cb : Parser S → Option Callback → Parser S × Bool
  checked_cb p next = if is_set p.ec then (p, true) else (set_cb p next, false)

  unfoldable pub switch_cb : Option Callback → Bytes → Parser S → Option Callback → Parser S × Bool
  unfolding invoke
  switch_cb none piece p next = (set_cb p next, false)
  switch_cb (some c) [] p next = (set_cb p next, false)
  switch_cb (some c) (x ∷ xs) p next = checked_cb (invoke c p (x ∷ xs)) next

  unfoldable pub run_cb : Parser S → Option Callback → Parser S × Bool
  unfolding switch_cb
  run_cb p next = switch_cb p.cb p.piece p next

  unfoldable pub needs_eof : Parser S → Bool
  needs_eof p =
      if is_request
      then false
      else if p.status_code / 100 == 1
          || p.status_code == 204
          || p.status_code == 304
          || p.flags.skipbody
      then false
      else if p.flags.chunked || not (p.content_length == no_content_length)
      then false
      else true

  unfoldable pub keep_alive : Parser S → Bool
  unfolding needs_eof
  keep_alive p =
      if leb 1 p.http_major && leb 1 p.http_minor
      then (if p.flags.connection_close then false else not (needs_eof p))
      else (if not p.flags.connection_keep_alive then false else not (needs_eof p))

  unfoldable pub reset : Parser S → Parser S
  reset p = record p {
    cb = none;
    h_left = p.h_max;
    b_left = p.b_max;
    s = if is_request then req_start else res_start;
  }

-- `complete()`
unfoldable pub is_complete : State → Bool
is_complete restart = true
is_complete closed_complete = true
is_complete body_pause = true
is_complete _ = false
