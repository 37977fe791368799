-- ===== src/Tramp/Service.antt =====
-- `trampoline_pay` of libs/gl-plugin/src/node/mod.rs, which answers a caller with the result of
-- `trampolinepay`. The conversion of the response by cln-grpc is a parameter, and so is the text of an
-- error.
mod Tests
use greenlight.Prelude.{ℕ, Option, none, some, List, []}
use greenlight.Prelude.Run
use greenlight.Prelude.Run.{Run}
use greenlight.Prelude.Outcome.{Result, ok, err}
use greenlight.Util.Error.{Error, Json, Status, to_status}
use greenlight.Util.Error.Transfer.{trampoline}
use greenlight.Tramp.ErrorCode.{TrampolineErrorCode, Code}
use greenlight.Tramp.Payment.{Node, TrampolinePayRequest, PayResponse}
use greenlight.Tramp.Payment.Send.{Sender, SendpayRequest, trampolinepay}

-- The `PayResponse` of cln-grpc; `T` is its type of times, a floating-point number.
pub record GrpcPayResponse (T : Type 0) : Type 0 where
  pub payment_preimage : List ℕ
  pub payment_hash : List ℕ
  pub created_at : T
  pub parts : ℕ
  pub amount_msat : Option ℕ
  pub amount_sent_msat : Option ℕ
  pub destination : Option (List ℕ)

pub record TrampolinePayResponse (T : Type 0) : Type 0 where
  pub payment_preimage : List ℕ
  pub payment_hash : List ℕ
  pub created_at : T
  pub parts : ℕ
  pub amount_msat : ℕ
  pub amount_sent_msat : ℕ
  pub destination : List ℕ

abbrev pub unwrap_or_default : {A : Type 0} → A → Option A → A
unwrap_or_default default none = default
unwrap_or_default default (some a) = a

abbrev pub response_of : {T : Type 0} → GrpcPayResponse T → TrampolinePayResponse T
response_of res = record {
  payment_preimage = res.payment_preimage;
  payment_hash = res.payment_hash;
  created_at = res.created_at;
  parts = res.parts;
  amount_msat = unwrap_or_default 0 res.amount_msat;
  amount_sent_msat = unwrap_or_default 0 res.amount_sent_msat;
  destination = unwrap_or_default [] res.destination;
}

-- The error with its message and its hint; its context and its source are not sent.
abbrev pub error_of :
    (TrampolineErrorCode → List ℕ × Option (List ℕ))
    → TrampolineErrorCode
    → Error TrampolineErrorCode
error_of texts c = record {
  code = c;
  message = (texts c).0;
  hint = (texts c).1;
  context = none;
  source = none;
}

module _ {T : Type 0} (n : Node) (s : Sender) (into : PayResponse → GrpcPayResponse T)
    (texts : TrampolineErrorCode → List ℕ × Option (List ℕ)) (json : Json) where
  -- The two maps over the result.
  abbrev pub answer :
      Result TrampolineErrorCode PayResponse → Result (Status Code) (TrampolinePayResponse T)
  answer (ok res) = ok (response_of (into res))
  answer (err c) = err (to_status trampoline json (error_of texts c))

  unfoldable pub trampoline_pay :
      TrampolinePayRequest → Run (Result (Status Code) (TrampolinePayResponse T))
  trampoline_pay r = Run.and_then (trampolinepay n s r) (λ paid. Run.done (answer paid.0))
