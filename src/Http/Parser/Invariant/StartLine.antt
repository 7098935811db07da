-- ===== src/Http/Parser/Invariant/StartLine.antt =====
-- The invariant through the request line and the status line.
use beast.Base.{ℕ, ◌≡◌, refl, Bool, none, Bytes, arith}
use beast.Http.Parser.Calls.{start_called}
use beast.Http.Parser.Invariant.Defs.{CbOk, IsValid, OutcomeOk, cb_ended, cb_begun}
use beast.Http.Parser.StartLine.{
  at_req_start, at_req_method0, at_req_method, at_req_url0, at_req_url, at_req_lf, at_res_start,
  at_res_reason0, at_res_reason,
}
use beast.Http.Parser.Types.{
  req_method, req_url0, req_url, req_http, res_reason, res_line_lf, call_on_method, call_on_uri,
  call_on_reason, Derived, Parser,
}

module _ {S : Type 0} (is_request : Bool) (d : Derived S) (p : Parser S) (ch : ℕ) (rest : Bytes)
    (v : IsValid p) where
  pub at_req_method0-OutcomeOk : p.cb ≡ none → OutcomeOk rest (at_req_method0 is_request d p ch)
  unfolding at_req_method0
  at_req_method0-OutcomeOk e =
      ground (arith, cb_begun is_request d (start_called is_request d p) call_on_method req_method)

  pub at_req_method-OutcomeOk :
      CbOk req_method p.cb → OutcomeOk rest (at_req_method is_request d p ch)
  unfolding at_req_method
  at_req_method-OutcomeOk e =
      ground (arith, cb_ended is_request d p rest req_url0 v refl (λ (n : ℕ). tt))

  pub at_req_url0-OutcomeOk : p.cb ≡ none → OutcomeOk rest (at_req_url0 is_request d p ch)
  unfolding at_req_url0
  at_req_url0-OutcomeOk e = ground (arith, cb_begun is_request d p call_on_uri req_url)

  pub at_req_url-OutcomeOk : CbOk req_url p.cb → OutcomeOk rest (at_req_url is_request d p ch)
  unfolding at_req_url
  at_req_url-OutcomeOk e =
      ground (arith, cb_ended is_request d p rest req_http v refl (λ (n : ℕ). tt))

  pub at_req_lf-OutcomeOk : p.cb ≡ none → OutcomeOk rest (at_req_lf is_request d p ch)
  unfolding at_req_lf
  at_req_lf-OutcomeOk e = ground arith

  pub at_res_start-OutcomeOk : OutcomeOk rest (at_res_start is_request d p ch)
  unfolding at_res_start
  at_res_start-OutcomeOk = ground arith

  pub at_res_reason0-OutcomeOk : p.cb ≡ none → OutcomeOk rest (at_res_reason0 is_request d p ch)
  unfolding at_res_reason0
  at_res_reason0-OutcomeOk e = ground (arith, cb_begun is_request d p call_on_reason res_reason)

  pub at_res_reason-OutcomeOk :
      CbOk res_reason p.cb → OutcomeOk rest (at_res_reason is_request d p ch)
  unfolding at_res_reason
  at_res_reason-OutcomeOk e =
      ground (arith, cb_ended is_request d p rest res_line_lf v refl (λ (n : ℕ). tt))

pub at_req_start-OutcomeOk :
    {S : Type 0} (is_request : Bool) (d : Derived S) (p : Parser S) (ch : ℕ) (rest : Bytes)
    → IsValid p
    → OutcomeOk rest (at_req_start is_request d p ch)
unfolding at_req_start
at_req_start-OutcomeOk is_request d p ch rest v =
    at_req_method0-OutcomeOk is_request d _ ch rest
      (record { cb_ok = refl; pos_ok = v.pos_ok; length_fits = omega arith; length_ok = tt }) refl
