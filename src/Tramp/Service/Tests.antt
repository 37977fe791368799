-- ===== src/Tramp/Service/Tests.antt =====
-- A payment that core-lightning refuses, and how the caller is told.
use greenlight.Prelude.{
  ℕ, ◌≡◌, refl, Option, none, some, List, [], ◌∷◌, ℤ, pos, negsuc, codes, bytes_eq,
}
use greenlight.Prelude.Run.{done}
use greenlight.Prelude.Outcome.{err}
use greenlight.Util.Error.{Json, to_status}
use greenlight.Util.Error.Transfer.{trampoline}
use greenlight.Tramp.ErrorCode.{TrampolineErrorCode, from_rpc_error}
use greenlight.Tramp.Payment.{
  PayResponse, RpcError, prepare, rpc_try, pay_or_plan, any_pending, plan_payment, feature_guard,
  byte_has, reverse_onto, bit_set, choose_amount, as_option, usable_channels, choose_allocation,
  reestablished_channels, max_group_id, paid_before, zip_ready,
}
use greenlight.Tramp.Payment.Send.{
  Sender, trampolinepay, build_payload, do_pay, last_preimage, pay_part, send_parts, send_plan,
  spawn_parts, wait_error,
}
use greenlight.Tramp.Payment.Tests.{node, sender, request, failed_once}
use greenlight.Tramp.Order.{find_allocation_ascending_order, insert_by, sort_by}
use greenlight.Tramp.Allocation.{find_allocation, try_allocate, pop, try_channel}
use greenlight.Tlv.Stream.{set_bytes, set_tu64, find_entry, insert, get}
use greenlight.Tramp.Service.{GrpcPayResponse, error_of, trampoline_pay}

-- How the details are written: the sign, the number, and the hint behind a mark.
encode_hint : Option (List ℕ) → List ℕ
encode_hint none = []
encode_hint (some hint) = 1 ∷ hint

encode_code : ℤ → List ℕ → List ℕ
encode_code (pos n) rest = 0 ∷ n ∷ rest
encode_code (negsuc n) rest = 1 ∷ n ∷ rest

abbrev json : Json
json = record {
  to_vec = λ d. some (encode_code d.code (encode_hint d.hint));
  from_slice = λ bytes. none;
  decimal = λ n. [];
}

-- Hashes and preimages are a byte, and the time of a payment is left out.
abbrev converted : PayResponse → GrpcPayResponse (Unit {0})
converted res = record {
  payment_preimage = res.payment_preimage ∷ [];
  payment_hash = res.payment_hash ∷ [];
  created_at = tt;
  parts = res.parts;
  amount_msat = some res.amount_msat;
  amount_sent_msat = some res.amount_sent_msat;
  destination = none;
}

abbrev texts : TrampolineErrorCode → List ℕ × Option (List ℕ)
texts c = (codes "no", some (codes "try"))

-- core-lightning refuses to pay.
abbrev refused : RpcError
refused = record { code = some (pos 210); message = codes "refused" }

abbrev refusing : Sender
refusing = record sender { sendpay = λ req. err refused }

refused_run :
    trampoline_pay (node failed_once) refusing converted texts json request
    ≡ done (err (to_status trampoline json (error_of texts (from_rpc_error (some (pos 210))))))
unfolding trampoline_pay trampolinepay to_status prepare rpc_try pay_or_plan any_pending
    plan_payment feature_guard byte_has reverse_onto bit_set choose_amount as_option usable_channels
    choose_allocation reestablished_channels max_group_id paid_before zip_ready build_payload do_pay
    last_preimage pay_part send_parts send_plan spawn_parts wait_error
    find_allocation_ascending_order insert_by sort_by find_allocation try_allocate pop try_channel
    set_bytes set_tu64 bytes_eq find_entry insert get
refused_run = refl
