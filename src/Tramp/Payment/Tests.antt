-- ===== src/Tramp/Payment/Tests.antt =====
-- A node with one channel pays an invoice.
use greenlight.Prelude.{
  inl, ◌+◌, ◌^◌, ◌<◌, ◌≡◌, ◌≢◌, refl, true, false, some, none, List, [], ◌∷◌, arith, All, codes,
  pos,
}
use greenlight.Prelude.Run.{done}
use greenlight.Prelude.Outcome.{ok}
use greenlight.Tlv.Stream.{new}
use greenlight.Tramp.ErrorCode.{TrampolineErrorCode, from_code}
use greenlight.Tramp.Allocation.{find_allocation, try_allocate, try_channel, pop}
use greenlight.Tramp.Allocation.Picks.{contribution, total}
use greenlight.Tramp.Allocation.Bounds.{InBounds}
use greenlight.Tramp.Order.{
  find_allocation_ascending_order, find_allocation_descending_order, sort_by, insert_by,
}
use greenlight.Tramp.Payment.{
  Node, TrampolinePayRequest, Decoded, Sendpay, Plan, PayResponse, WaitsendpayResponse,
  plan_payment, pay_or_plan, prepare, any_pending, max_group_id, rpc_try, feature_guard, byte_has,
  bit_set, reverse_onto, choose_amount, as_option, usable_channels, reestablished_channels,
  zip_ready, choose_allocation, paid_before,
}
use greenlight.Tramp.Payment.Plans.{plan_payment_lem}
use greenlight.Tramp.Payment.Send.{
  Sender, SendpayRequest, trampolinepay, send_parts, spawn_parts, pay_part, do_pay, last_preimage,
  pay_response,
}
use greenlight.Tramp.Payment.Send.Once.{trampolinepay_once}
use greenlight.Tramp.Payment.Send.Parts.{sent_msat, sent_msat-send_parts}

read_run : from_code (pos 42711) ≡ some TrampolineErrorCode.peer_node_failure
unfolding from_code
read_run = refl

abbrev invoice : Decoded
invoice = record { payment_hash = 77; payment_secret = some 5; amount_msat = some 100; payee = 3 }

abbrev pub failed_once : List Sendpay
failed_once = record { failed = true; groupid = 4 } ∷ []

abbrev complete : List Sendpay
complete = record { failed = false; groupid = 4 } ∷ []

-- The invoice was paid with the preimage 9.
abbrev settled : WaitsendpayResponse
settled = record {
  amount_msat = some 100;
  amount_sent_msat = 101;
  destination = none;
  partid = some 0;
  payment_hash = 77;
  payment_preimage = some 9;
}

-- Feature bit 427 is bit 3 of the 54th byte from the end; the fee is one msat.
abbrev pub node : List Sendpay → Node
node send_pays = record {
  from_slice = λ id. some 1;
  connect = true;
  decodepay = λ bolt11. ok invoice;
  listsendpays = λ hash. ok send_pays;
  waitsendpay = λ hash part. ok settled;
  await_peer = λ id. ok tt;
  listpeers = λ id. ok (some (codes "08") ∷ []);
  hex_decode = λ text. some (
      8 ∷ 0 ∷ 0 ∷ 0 ∷ 0 ∷ 0 ∷ 0 ∷ 0 ∷ 0 ∷ 0 ∷ 0 ∷ 0 ∷ 0 ∷ 0 ∷ 0 ∷ 0 ∷ 0 ∷ 0 ∷ 0 ∷ 0 ∷ 0 ∷ 0 ∷ 0 ∷ 0
      ∷ 0 ∷ 0 ∷ 0 ∷ 0 ∷ 0 ∷ 0 ∷ 0 ∷ 0 ∷ 0 ∷ 0 ∷ 0 ∷ 0 ∷ 0 ∷ 0 ∷ 0 ∷ 0 ∷ 0 ∷ 0 ∷ 0 ∷ 0 ∷ 0 ∷ 0 ∷ 0
      ∷ 0 ∷ 0 ∷ 0 ∷ 0 ∷ 0 ∷ 0 ∷ 0 ∷ []);
  overpay = λ amount percent. 1;
  listpeerchannels = λ id. ok (
      record {
        short_channel_id = some 6;
        alias_local = none;
        spendable_msat = some 500;
        minimum_htlc_out_msat = some 1;
      }
      ∷ []);
  await_channel = λ id ch. true;
  preapproveinvoice = λ bolt11. ok tt;
}

abbrev pub sender : Sender
sender = record { connect_part = λ id. true; sendpay = λ req. ok tt; joined = λ id. true }

abbrev pub request : TrampolinePayRequest
request = record {
  trampoline_node_id = 2 ∷ [];
  bolt11 = codes "lnbc";
  amount_msat = 0;
  maxfeepercent = 0;
  maxdelay = 0;
}

abbrev plan : Plan
plan = record {
  node_id = 1;
  decoded = invoice;
  tlv_amount_msat = 100;
  amount_msat = 101;
  group_id = 5;
  alloc =
      contribution (record { short_channel_id = 6; spendable_msat = 500; min_htlc_out_msat = 1 })
        101
      ∷ [];
}

plan_run : plan_payment (node failed_once) request 1 invoice failed_once ≡ ok plan
unfolding plan_payment rpc_try feature_guard byte_has bit_set reverse_onto choose_amount as_option
    usable_channels reestablished_channels zip_ready choose_allocation
    find_allocation_ascending_order find_allocation_descending_order find_allocation try_allocate
    try_channel pop sort_by insert_by max_group_id
plan_run = refl

max_run : max_group_id failed_once + 1 < 2 ^ 64
unfolding max_group_id
max_run = omega arith

plan_payment_lem_example :
    (plan.alloc ≢ []) × All InBounds plan.alloc × All (λ e. e.groupid < plan.group_id) failed_once
plan_payment_lem_example =
    plan_payment_lem (node failed_once) request 1 invoice failed_once plan plan_run max_run

abbrev paid_response : PayResponse
paid_response = record {
  amount_msat = 100;
  amount_sent_msat = 101;
  destination = none;
  parts = 1;
  payment_hash = 77;
  payment_preimage = 9;
}

complete_run : trampolinepay (node complete) sender request ≡ done (ok paid_response, [])
unfolding trampolinepay prepare pay_or_plan any_pending paid_before rpc_try
complete_run = refl

trampolinepay_once_example : ◌≡◌ {A = List SendpayRequest} [] []
trampolinepay_once_example =
    trampolinepay_once (node complete) sender request invoice complete (ok paid_response) [] refl
      refl (inl refl) complete_run

spawn_run :
    (spawn_parts (node failed_once) sender request plan (7 ∷ []) 0 plan.alloc).0
    ≡ ok (ok settled ∷ [])
unfolding spawn_parts pay_part do_pay rpc_try
spawn_run = refl

abbrev response : PayResponse
response = record {
  amount_msat = 101;
  amount_sent_msat = 101;
  destination = some 3;
  parts = 1;
  payment_hash = 77;
  payment_preimage = 9;
}

send_run : (send_parts (node failed_once) sender request plan new).0 ≡ ok response
unfolding send_parts spawn_parts pay_part do_pay rpc_try last_preimage pay_response
send_run = refl

sent_msat-send_parts_example :
    sent_msat (send_parts (node failed_once) sender request plan new).1 ≡ total plan.alloc
sent_msat-send_parts_example =
    sent_msat-send_parts (node failed_once) sender request plan new 5 response refl send_run
