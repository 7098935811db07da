-- ===== src/Websocket/Reader/Rounds.antt =====
-- What a round of `read_frame` does, whatever the input and whatever fails.
use mathlib.Core.Path.{subst}
use beast.Base.{
  ℕ, suc, ◌<◌, ◌≡◌, ◌⊎◌, inl, inr, refl, sym, ap, ◌∙◌, min, false, not, ◌&&◌, ltb, ◌==◌,
  if◌then◌else◌, Bytes, ◌++◌, length, take, drop, arith, length-drop,
}
use beast.Websocket.Frame.{Endian}
use beast.Websocket.Reader.{
  Net, Reader, Round, again, stop, broken, set_failed, read_failed, Header, header, short,
  assertion, do_read_fh,
}
use beast.Websocket.Reader.Closes.{closes, IsOnce}
use beast.Websocket.Reader.Control.{fail_connection, read_control}
use beast.Websocket.Reader.HeadRead.{Silent, HeadRead, head_short, head_read, do_read_fh-HeadRead}
use beast.Websocket.Reader.Loop.{
  unmask, check_payload, unmask_payload, take_payload, read_payload, read_header, round,
}
use beast.Websocket.Stream.{Stream}
use beast.Websocket.Types.{is_control, code_none, code_bad_payload}
use beast.Websocket.Reader.Controls.{
  Progress, goes_on, gives, fails, on_if, fail_connection-Progress, read_control-Progress,
}

module _ (n : ℕ) (s : Stream) where
  take_payload-Progress :
      (e : Endian) (net : Net) (bytes : Bytes) (r : Reader)
      → length r.input < n
      → (IsOnce s → IsOnce r.s)
      → Progress n s (take_payload e net bytes r)
  unfolding take_payload unmask_payload
  take_payload-Progress e net bytes r lt h =
      let r' = unmask_payload bytes r in
      on_if n s (check_payload bytes r).1
        (stop (record r' { buffer = r.buffer ++ (unmask bytes r).0 }) _)
        (fail_connection e net code_bad_payload r') (λ y. gives lt refl h)
        (λ z. fail_connection-Progress n s e net code_bad_payload r' h)

  -- Where the header of this round has not made the input shorter, the payload does.
  read_payload-Progress :
      (e : Endian) (net : Net) (r : Reader)
      → (length r.input < n) ⊎ ((length r.input ≡ n) × (0 < r.s.st.rd_need))
      → (IsOnce s → IsOnce r.s)
      → Progress n s (read_payload e net r)
  unfolding read_payload
  read_payload-Progress e net r lt h =
      let k = min r.s.st.rd_need (suc (net.chunk r.reads)) in
      on_if n s (ltb 0 r.s.st.rd_need && length r.input == 0) _ _ (λ y. fails refl (inl refl) h)
        (λ z.
          let shorter : length (drop k r.input) < n =
            ground (arith, length-drop k r.input, lt, z) in
          take_payload-Progress e net (take k r.input)
            (record r { input = drop k r.input; reads = suc r.reads }) shorter h)

Silent-IsOnce : (s s' : Stream) → Silent s s' → IsOnce s → IsOnce s'
Silent-IsOnce s s' q o = ap closes q.0 ∙ o ∙ ap (λ w. if w then 1 else 0) (sym q.1)

-- What `read_frame` does behind the header.
abbrev pub behind_header : Endian → Net → Header → Round
behind_header e net assertion = broken
behind_header e net (short r) = read_failed r
behind_header e net (header r1 fb code) =
    let r' = set_failed false r1 in
    if not (code == code_none)
    then fail_connection e net code r'
    else if is_control r'.s.st.rd_fh.op
    then read_control e net fb r'
    else if r'.s.st.rd_need == 0 && not r'.s.st.rd_fh.fin
    then again r'
    else read_payload e net r'

behind_header-Progress :
    (n : ℕ) (s : Stream) (e : Endian) (net : Net) (hd : Header)
    → HeadRead n s hd
    → Progress n s (behind_header e net hd)
behind_header-Progress n s e net assertion p = elim p [ ]
behind_header-Progress n s e net (short r) (head_short q) =
    fails refl (inl refl) (Silent-IsOnce s r.s q)
behind_header-Progress n s e net (header r1 fb code) (head_read lt q whole) =
    let r' = set_failed false r1 in
    let h = Silent-IsOnce s r1.s q in
    on_if n s (not (code == code_none)) _ _ (λ y. fail_connection-Progress n s e net code r' h)
      (λ z.
        let w = whole (ground (arith, z)) in
        on_if n s (is_control r'.s.st.rd_fh.op) _ _
          (λ y.
            subst (λ t. Progress n s (read_control e net t r')) (sym w.0)
              (read_control-Progress n s e net r' (w.1 y) lt h))
          (λ z.
            on_if n s (r'.s.st.rd_need == 0 && not r'.s.st.rd_fh.fin) _ _ (λ y. goes_on lt h)
              (λ z. read_payload-Progress n s e net r' (inl lt) h)))

pub read_header-behind :
    (e : Endian) (net : Net) (r : Reader) → read_header e net r ≡ behind_header e net (do_read_fh r)
unfolding read_header
read_header-behind e net r = cases (do_read_fh r)
  where
    cases :
        (hd : Header)
        → elim hd [
          | assertion ↦ broken
          | short r' ↦ read_failed r'
          | header r1 fb code ↦ behind_header e net (header r1 fb code)
        ]
          ≡ behind_header e net hd
    cases assertion = refl
    cases (short r) = refl
    cases (header r1 fb code) = refl

pub round-Progress :
    (e : Endian) (net : Net) (r : Reader) → Progress (length r.input) r.s (round e net r)
unfolding round
round-Progress e net r =
    on_if (length r.input) r.s (r.s.st.rd_need == 0) _ _
      (λ y.
        rw (read_header-behind e net r) (
          behind_header-Progress (length r.input) r.s e net (do_read_fh r) (do_read_fh-HeadRead r)))
      (λ z.
        read_payload-Progress (length r.input) r.s e net r (inr (refl, ground (arith, z))) (λ o. o))
