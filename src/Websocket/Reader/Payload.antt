-- ===== src/Websocket/Reader/Payload.antt =====
-- A step of `read_frame` within the payload of a frame that the other side has written.
use beast.Base.{
  ◌≡◌, inl, inr, refl, sym, ap, ◌∙◌, Bool, true, false, if◌then◌else◌, Bool-cases, Bytes, [], ◌++◌,
  length,
}
use beast.Websocket.Mask.Spec.{Key, IsBytes}
use beast.Websocket.Reader.{Reader}
use beast.Websocket.Reader.Cipher.{cipher, Keyed}
use beast.Websocket.Reader.Loop.{check_text, is_text_op}
use beast.Websocket.Types.{Opcode}
use beast.Websocket.Utf8.{Utf8Checker, reset_checker, write, finish}
use beast.Websocket.Utf8.Check.{passes, then_write, write-append}

-- Within a frame: `q` of its payload is still to come, then `t` of its message in other frames.
pub record Mid (r : Reader) (op : Opcode) (fin m : Bool) (k : Key) (q t rest : Bytes) : Type 0 where
  pub need : r.s.st.rd_need ≡ length q
  pub input-cipher : r.input ≡ cipher m k q ++ rest
  pub fin_is : r.s.st.rd_fh.fin ≡ fin
  pub mask_is : r.s.st.rd_fh.mask ≡ m
  pub opcode_is : r.s.st.rd_opcode ≡ op
  pub keyed : Keyed m r.s.st.rd_key k
  pub octets : IsBytes q
  pub checked : is_text_op op ≡ true → passes (write r.utf8 (q ++ t)) ≡ true
  pub last : fin ≡ true → t ≡ []

-- What reading payload leaves alone.
pub record Steady (r r' : Reader) : Type 0 where
  pub role : r'.s.st.role ≡ r.s.st.role
  pub rd_cont : r'.s.st.rd_cont ≡ r.s.st.rd_cont
  pub rd_msg_max : r'.s.st.rd_msg_max ≡ r.s.st.rd_msg_max
  pub rd_size : r'.s.st.rd_size ≡ r.s.st.rd_size
  pub rd_opcode : r'.s.st.rd_opcode ≡ r.s.st.rd_opcode
  pub sent : r'.s.sent ≡ r.s.sent
  pub pongs : r'.pongs ≡ r.pongs

-- A piece of a text that passes as a whole.
passes-append :
    (c : Utf8Checker) (xs ys : Bytes)
    → passes (write c (xs ++ ys)) ≡ true
    → ((write c xs).1 ≡ true) × (passes (write (write c xs).0 ys) ≡ true)
passes-append c xs ys h =
    let h' : passes (then_write (write c xs) ys) ≡ true =
      ap passes (sym (write-append c xs ys)) ∙ h in
    elim (Bool-cases (write c xs).1) [
      | inl y ↦ (
        y,
        ap (λ b. passes (if b then write (write c xs).0 ys else ((write c xs).0, false))) (sym y)
            ∙ h',
      )
      | inr z ↦ cc (
          ap (λ b. passes (if b then write (write c xs).0 ys else ((write c xs).0, false))) (sym z)
          ∙ h')
    ]

passes-nil : (c : Utf8Checker) → passes (write c []) ≡ (finish c).1
unfolding write
passes-nil c = refl

-- What a piece that is taken leaves of the check.
pub record TextTaken (ends : Bool) (a b : Bytes) (c : Utf8Checker) (u : Utf8Checker × Bool)
    : Type 0 where
  pub passed : u.1 ≡ true
  pub rest_passes : ends ≡ false → passes (write u.0 b) ≡ true
  pub reset_after : ends ≡ true → u.0 ≡ reset_checker

pub check_text-TextTaken :
    (ends : Bool) (a b : Bytes) (c : Utf8Checker)
    → passes (write c (a ++ b)) ≡ true
    → (ends ≡ true → b ≡ [])
    → TextTaken ends a b c (check_text ends a c)
unfolding check_text
check_text-TextTaken true a b c h nil =
    let p = passes-append c a b h in
    let f : (finish (write c a).0).1 ≡ true =
      sym (passes-nil (write c a).0)
      ∙ ap (λ t. passes (write (write c a).0 t)) (sym (nil refl))
      ∙ p.1 in
    rw p.0 (record { passed = f; rest_passes = λ e. cc; reset_after = λ e. unfold finish in refl })
check_text-TextTaken false a b c h nil =
    let p = passes-append c a b h in
    rw p.0 (record { passed = refl; rest_passes = λ e. p.1; reset_after = λ e. cc })
