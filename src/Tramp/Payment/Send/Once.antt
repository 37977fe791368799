-- ===== src/Tramp/Payment/Send/Once.antt =====
-- An invoice is not paid twice, and no call ends without an answer.
use greenlight.Prelude.{◌≡◌, refl, true, false, List, [], ◌∷◌, Any, inl, inr, arith}
use greenlight.Prelude.Run.{done}
use greenlight.Prelude.Outcome.{Result, ok, err}
use greenlight.Tramp.ErrorCode.{TrampolineErrorCode}
use greenlight.Tramp.Payment.{
  Node, TrampolinePayRequest, Decoded, Sendpay, Prepared, paid, planned, PayResponse, prepare,
  any_pending, pay_or_plan, rpc_try, paid_before,
}
use greenlight.Tramp.Payment.Send.{Sender, SendpayRequest, trampolinepay, send_plan, send_parts}
use greenlight.Tramp.Payment.Send.Payload.{get-build_payload}

-- `trampolinepay` never panics: it gives a result and the list of the requests that it made.
pub trampolinepay_returns :
    (n : Node) (s : Sender) (req : TrampolinePayRequest)
    → (r : Result TrampolineErrorCode PayResponse) × ((made : List SendpayRequest) × (trampolinepay
            n s req
          ≡ done (r, made)))
unfolding trampolinepay send_plan
trampolinepay_returns n s req = by_cases (prepare n req) refl
  where
    by_cases :
        (r : Result TrampolineErrorCode Prepared)
        → prepare n req ≡ r
        → (r : Result TrampolineErrorCode PayResponse) × ((made : List SendpayRequest)
            × (trampolinepay n s req ≡ done (r, made)))
    by_cases (err e) h = (err e, ([], ground (arith, h)))
    by_cases (ok (paid r)) h = (ok r, ([], ground (arith, h)))
    by_cases (ok (planned p)) h =
        let (payload, built, _, _) = get-build_payload req.bolt11 p.tlv_amount_msat in
        (
          (send_parts n s req p payload).0,
          ((send_parts n s req p payload).1, ground (arith, h, built)),
        )

any_pending-Any : (ps : List Sendpay) → Any (λ p. p.failed ≡ false) ps → any_pending ps ≡ true
unfolding any_pending
any_pending-Any [] a = absurd a
any_pending-Any (p ∷ ps) (inl first) = ground (arith, first)
any_pending-Any (p ∷ ps) (inr later) = ground (arith, any_pending-Any ps later)

-- If some earlier payment of the invoice has not failed, and so is pending or complete, no request is made.
pub trampolinepay_once :
    (n : Node) (s : Sender) (req : TrampolinePayRequest) (decoded : Decoded) (ps : List Sendpay)
    (r : Result TrampolineErrorCode PayResponse) (made : List SendpayRequest)
    → n.decodepay req.bolt11 ≡ ok decoded
    → n.listsendpays decoded.payment_hash ≡ ok ps
    → Any (λ p. p.failed ≡ false) ps
    → trampolinepay n s req ≡ done (r, made)
    → made ≡ []
unfolding trampolinepay prepare pay_or_plan rpc_try paid_before
trampolinepay_once n s req decoded ps r made d l pending h =
    let held : any_pending ps ≡ true = any_pending-Any ps pending in ground arith
