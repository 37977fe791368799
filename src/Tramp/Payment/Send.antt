-- ===== src/Tramp/Payment/Send.antt =====
-- `trampolinepay` from the first part on, and `do_pay` (libs/gl-plugin/src/tramp.rs). Next to its
-- result each function returns the `sendpay` requests that it has made, in their order: the tasks of
-- the parts run on when an error ends the call.
pub mod Once
pub mod Parts
pub mod Payload
use greenlight.Prelude.{
  ℕ, ◌+◌, ◌≡◌, ◌^◌, ◌%◌, Bool, true, false, Option, none, some, List, [], ◌∷◌, ◌++◌, ◌==◌,
  if◌then◌else◌, length, ℤ, pos, eqz, codes, bytes_eq,
}
use greenlight.Prelude.Run
use greenlight.Prelude.Run.{Run}
use greenlight.Prelude.Outcome.{Result, ok, err, ◌>>=◌}
use greenlight.Tramp.ErrorCode.{TrampolineErrorCode, from_rpc_error}
use greenlight.Tramp.Allocation.{ChannelContribution, Allocations}
use greenlight.Tlv.Stream.{SerializedTlvStream, new, set_bytes, set_tu64, to_bytes}
use greenlight.Tramp.Payment.{
  Node, TrampolinePayRequest, RpcError, Plan, Prepared, paid, planned, PayResponse,
  WaitsendpayResponse, as_option, connection, prepare, rpc_try,
}

-- A `sendpay` call with its only hop; the metadata are the bytes that it has in hex.
pub record SendpayRequest : Type 0 where
  pub hop_node : ℕ
  pub hop_channel : ℕ
  pub hop_amount_msat : ℕ
  pub hop_delay : ℕ
  pub payment_hash : ℕ
  pub amount_msat : ℕ
  pub bolt11 : List ℕ
  pub payment_secret : ℕ
  pub partid : ℕ
  pub groupid : ℕ
  pub payment_metadata : List ℕ

-- What core-lightning and the runtime answer: the connection of the part with this id, `sendpay`,
-- and whether the part's task ended without a panic.
pub record Sender : Type 0 where
  pub connect_part : ℕ → Bool
  pub sendpay : SendpayRequest → Result RpcError (Unit {0})
  pub joined : ℕ → Bool

-- The onion payload: the invoice under type 33001 and the amount under 33003.
unfoldable pub build_payload : List ℕ → ℕ → Run SerializedTlvStream
build_payload bolt11 amount =
    Run.and_then (set_bytes 33001 bolt11 new) (λ s. set_tu64 33003 amount s)

-- An unparsable onion is the peer's failure.
unfoldable pub wait_error : RpcError → TrampolineErrorCode
wait_error e = elim e.code [
  | some c ↦
      if eqz c (pos 202) then TrampolineErrorCode.peer_node_failure else from_rpc_error e.code
  | none ↦
      if bytes_eq e.message (codes "Malformed error reply")
      then TrampolineErrorCode.peer_node_failure
      else from_rpc_error e.code
]

abbrev waited : Result RpcError WaitsendpayResponse → Result TrampolineErrorCode WaitsendpayResponse
waited (ok v) = ok v
waited (err e) = err (wait_error e)

unfoldable pub do_pay :
    Node → Sender → SendpayRequest → Result TrampolineErrorCode WaitsendpayResponse
do_pay n s req = do
  sent ← rpc_try (s.sendpay req)
  waited (n.waitsendpay req.payment_hash (some (req.partid, req.groupid)))

-- `MAX_DELAY_DEFAULT`
abbrev max_delay : Option ℕ → ℕ
max_delay none = 2016
max_delay (some d) = d

module _ (n : Node) (s : Sender) (req : TrampolinePayRequest) (p : Plan) (payload : List ℕ) where
  unfoldable pub part_request : ℕ → ChannelContribution → ℕ → SendpayRequest
  part_request part_id ch secret = record {
    hop_node = p.node_id;
    hop_channel = ch.channel.short_channel_id;
    hop_amount_msat = ch.contrib_msat;
    hop_delay = max_delay (as_option req.maxdelay);
    payment_hash = p.decoded.payment_hash;
    amount_msat = p.amount_msat;
    bolt11 = req.bolt11;
    payment_secret = secret;
    partid = part_id;
    groupid = p.group_id;
    payment_metadata = payload;
  }

  -- The task of one part.
  unfoldable pub pay_part :
      ℕ → ChannelContribution → Result TrampolineErrorCode WaitsendpayResponse × List SendpayRequest
  pay_part part_id ch = elim p.decoded.payment_secret [
    | none ↦ (err TrampolineErrorCode.invalid_invoice, [])
    | some secret ↦
        (do_pay n s (part_request part_id ch secret), part_request part_id ch secret ∷ [])
  ]

  -- `result.map_err(..)??`: a task that panicked, or the result of the task.
  abbrev pub join_part :
      ℕ
      → Result TrampolineErrorCode WaitsendpayResponse
      → Result TrampolineErrorCode WaitsendpayResponse
  join_part part_id r = if s.joined part_id then r else err TrampolineErrorCode.internal

  -- The loop that spawns the parts: it ends at the first connection that fails.
  unfoldable pub spawn_parts :
      ℕ
      → Allocations
      → Result TrampolineErrorCode (List (Result TrampolineErrorCode WaitsendpayResponse))
        × List SendpayRequest
  spawn_parts part_id [] = (ok [], [])
  spawn_parts part_id (ch ∷ al) =
      let (r, made) = pay_part part_id ch in
      let (rs, later) = spawn_parts (part_id + 1) al in
      elim (s.connect_part part_id) [
        | false ↦ (err TrampolineErrorCode.network_error, [])
        | true ↦ ((rs >>= λ l. ok (join_part part_id r ∷ l)), made ++ later)
      ]

-- The first error of the results, or the last preimage.
unfoldable pub last_preimage :
    Option ℕ
    → List (Result TrampolineErrorCode WaitsendpayResponse)
    → Result TrampolineErrorCode (Option ℕ)
last_preimage found [] = ok found
last_preimage found (err e ∷ rs) = err e
last_preimage found (ok r ∷ rs) = elim r.payment_preimage [
  | none ↦ last_preimage found rs
  | some preimage ↦ last_preimage (some preimage) rs
]

unfoldable pub pay_response : Plan → Option ℕ → Result TrampolineErrorCode PayResponse
pay_response p none = err TrampolineErrorCode.payment_failure
pay_response p (some preimage) = ok (record {
  amount_msat = p.amount_msat;
  amount_sent_msat = p.amount_msat;
  destination = some p.decoded.payee;
  parts = length p.alloc % 2 ^ 32;
  payment_hash = p.decoded.payment_hash;
  payment_preimage = preimage;
})

-- A single part has the id 0, several parts are numbered from 1.
abbrev pub first_part_id : Allocations → ℕ
first_part_id alloc = if length alloc == 1 then 0 else 1

unfoldable pub send_parts :
    Node
    → Sender
    → TrampolinePayRequest
    → Plan
    → SerializedTlvStream
    → Result TrampolineErrorCode PayResponse × List SendpayRequest
send_parts n s req p payload =
    let (results, made) =
      spawn_parts n s req p (to_bytes payload) (first_part_id p.alloc) p.alloc in
    ((results >>= λ rs. last_preimage none rs >>= λ preimage. pay_response p preimage), made)

-- A payload that panics makes no request.
unfoldable pub send_plan :
    Node
    → Sender
    → TrampolinePayRequest
    → Plan
    → Run (Result TrampolineErrorCode PayResponse × List SendpayRequest)
send_plan n s req p =
    Run.and_then (build_payload req.bolt11 p.tlv_amount_msat)
      (λ payload. Run.done (send_parts n s req p payload))

unfoldable pub trampolinepay :
    Node
    → Sender
    → TrampolinePayRequest
    → Run (Result TrampolineErrorCode PayResponse × List SendpayRequest)
trampolinepay n s req = elim (prepare n req) [
  | err e ↦ Run.done (err e, [])
  | ok (paid r) ↦ Run.done (ok r, [])
  | ok (planned p) ↦ send_plan n s req p
]
