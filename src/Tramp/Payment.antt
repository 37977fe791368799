-- ===== src/Tramp/Payment.antt =====
-- `trampolinepay` of libs/gl-plugin/src/tramp.rs up to the point where the first part is sent.
-- What core-lightning and the awaited peer answer is the record `Node`. Of an error only its code is
-- kept; the message, the hint and the context are text for the user.
pub mod Send
pub mod Plans
pub mod Features
pub mod Tests
use greenlight.Prelude.{
  ℕ, zero, suc, ◌+◌, ◌/◌, ◌%◌, ◌^◌, ◌≡◌, Bool, true, false, Option, none, some, List, [], ◌∷◌, ◌++◌,
  not, ◌&&◌, ◌||◌, ltb, leb, ◌==◌, if◌then◌else◌, ℤ, pos, negsuc, length, drop,
}
use greenlight.Prelude.Outcome.{Result, ok, err, ◌>>=◌, map_err, ok_or}
use greenlight.Tramp.ErrorCode
use greenlight.Tramp.ErrorCode.{TrampolineErrorCode, from_rpc_error}
use greenlight.Tramp.Allocation.{Channel, Allocations}
use greenlight.Tramp.Order.{find_allocation_ascending_order, find_allocation_descending_order}

pub record RpcError : Type 0 where
  pub code : Option ℤ
  pub message : List ℕ

-- `AwaitablePeerError`
pub data PeerError : Type 0 where
  peer_unknown : PeerError
  peer_connection_failure : PeerError
  rpc : RpcError → PeerError
  other : PeerError

pub record TrampolinePayRequest : Type 0 where
  pub trampoline_node_id : List ℕ
  pub bolt11 : List ℕ
  pub amount_msat : ℕ
  pub maxfeepercent : ℕ
  pub maxdelay : ℕ

-- The answer of `decodepay`.
pub record Decoded : Type 0 where
  pub payment_hash : ℕ
  pub payment_secret : Option ℕ
  pub amount_msat : Option ℕ
  pub payee : ℕ

-- One entry of `listsendpays`.
pub record Sendpay : Type 0 where
  pub failed : Bool
  pub groupid : ℕ

pub record WaitsendpayResponse : Type 0 where
  pub amount_msat : Option ℕ
  pub amount_sent_msat : ℕ
  pub destination : Option ℕ
  pub partid : Option ℕ
  pub payment_hash : ℕ
  pub payment_preimage : Option ℕ

pub record PayResponse : Type 0 where
  pub amount_msat : ℕ
  pub amount_sent_msat : ℕ
  pub destination : Option ℕ
  pub parts : ℕ
  pub payment_hash : ℕ
  pub payment_preimage : ℕ

-- One entry of `listpeerchannels`.
pub record PeerChannel : Type 0 where
  pub short_channel_id : Option ℕ
  pub alias_local : Option ℕ
  pub spendable_msat : Option ℕ
  pub minimum_htlc_out_msat : Option ℕ

-- What is not this file's: the answers of core-lightning, the wait for the peer and its channels,
-- the decoders, and `amount as f64 * (percent / 100)` as a `u64`, with the default for percent 0.
pub record Node : Type 0 where
  pub from_slice : List ℕ → Option ℕ
  pub connect : Bool
  pub decodepay : List ℕ → Result RpcError Decoded
  pub listsendpays : ℕ → Result RpcError (List Sendpay)
  pub waitsendpay : ℕ → Option (ℕ × ℕ) → Result RpcError WaitsendpayResponse
  pub await_peer : ℕ → Result PeerError (Unit {0})
  pub listpeers : ℕ → Result RpcError (List (Option (List ℕ)))
  pub hex_decode : List ℕ → Option (List ℕ)
  pub overpay : ℕ → ℕ → ℕ
  pub listpeerchannels : ℕ → Result RpcError (List PeerChannel)
  pub await_channel : ℕ → Channel → Bool
  pub preapproveinvoice : List ℕ → Result RpcError (Unit {0})

-- `?` on the answer of an RPC call.
unfoldable pub rpc_try : {A : Type 0} → Result RpcError A → Result TrampolineErrorCode A
rpc_try r = map_err (λ e. from_rpc_error e.code) r

-- `ClnRpc::new`
abbrev pub connection : Bool → Result TrampolineErrorCode (Unit {0})
connection true = ok tt
connection false = err TrampolineErrorCode.network_error

-- `as_option` at the numbers.
unfoldable pub as_option : ℕ → Option ℕ
as_option v = if v == 0 then none else some v

-- `byte & (1 << k) != 0`
unfoldable pub bit_set : ℕ → ℕ → Bool
bit_set zero byte = byte % 2 == 1
bit_set (suc k) byte = bit_set k (byte / 2)

unfoldable pub reverse_onto : List ℕ → List ℕ → List ℕ
reverse_onto acc [] = acc
reverse_onto acc (b ∷ bs) = reverse_onto (b ∷ acc) bs

-- The byte at `byte_pos` of the reversed features, if there is one.
unfoldable pub byte_has : ℕ → List ℕ → Bool
byte_has bit_pos [] = false
byte_has bit_pos (b ∷ bs) = bit_set bit_pos b

unfoldable pub feature_guard : List ℕ → ℕ → Result TrampolineErrorCode (Unit {0})
feature_guard features feature_bit =
    if byte_has (feature_bit % 8) (drop (feature_bit / 8) (reverse_onto [] features))
    then ok tt
    else err TrampolineErrorCode.feature_not_supported

-- The amount of the request and that of the invoice.
unfoldable pub choose_amount : Option ℕ → Option ℕ → Result TrampolineErrorCode ℕ
choose_amount none none = err TrampolineErrorCode.missing_amount
choose_amount none (some amt) = ok amt
choose_amount (some amt) none = ok amt
choose_amount (some set_amt) (some bolt11_amt) =
    if set_amt == bolt11_amt then ok bolt11_amt else err TrampolineErrorCode.ambigous_amount

-- `a.or(b)`
abbrev or_else : Option ℕ → Option ℕ → Option ℕ
or_else none b = b
or_else (some a) b = some a

-- The closure of the `filter_map`.
abbrev to_channel : PeerChannel → Option Channel
to_channel ch = elim (or_else ch.short_channel_id ch.alias_local) [
  | none ↦ none
  | some scid ↦ elim ch.spendable_msat [
    | none ↦ none
    | some s ↦ elim ch.minimum_htlc_out_msat [
      | none ↦ none
      | some m ↦
          some (record { short_channel_id = scid; spendable_msat = s; min_htlc_out_msat = m })
    ]
  ]
]

abbrev is_usable : Channel → Bool
is_usable ch = ltb 0 ch.spendable_msat && ltb ch.min_htlc_out_msat ch.spendable_msat

abbrev keep_usable : Option Channel → List Channel → List Channel
keep_usable none rest = rest
keep_usable (some ch) rest = if is_usable ch then ch ∷ rest else rest

unfoldable pub usable_channels : List PeerChannel → List Channel
usable_channels [] = []
usable_channels (ch ∷ chs) = keep_usable (to_channel ch) (usable_channels chs)

-- The channels whose wait ended before the deadline, with `answers` in their order.
unfoldable pub zip_ready : (Channel → Bool) → List Channel → List Channel
zip_ready ready [] = []
zip_ready ready (ch ∷ chs) = let rest = zip_ready ready chs in if ready ch then ch ∷ rest else rest

unfoldable pub reestablished_channels : Node → ℕ → List Channel → List Channel
reestablished_channels n node_id channels = zip_ready (n.await_channel node_id) channels

-- `.filter(|alloc| !alloc.is_empty())`
abbrev pub non_empty : Option Allocations → Option Allocations
non_empty none = none
non_empty (some []) = none
non_empty (some (a ∷ al)) = some (a ∷ al)

unfoldable pub choose_allocation : List Channel → ℕ → Result TrampolineErrorCode Allocations
choose_allocation channels amount =
    let (ascending, sorted) = find_allocation_ascending_order channels amount in
    let (descending, resorted) = find_allocation_descending_order sorted amount in
    elim (non_empty ascending) [
      | some alloc ↦ ok alloc
      | none ↦ ok_or TrampolineErrorCode.insufficient_funds (non_empty descending)
    ]

unfoldable pub any_pending : List Sendpay → Bool
any_pending [] = false
any_pending (p ∷ ps) = not p.failed || any_pending ps

-- `map(|p| p.groupid).max().unwrap_or(0)`
unfoldable pub max_group_id : List Sendpay → ℕ
max_group_id [] = 0
max_group_id (p ∷ ps) = let m = max_group_id ps in if ltb m p.groupid then p.groupid else m

-- The part number of a finished payment, as a number of parts (u32).
abbrev pub parts_of : Option ℕ → ℕ
parts_of none = 1
parts_of (some n) = if n == 0 then 1 else n % 2 ^ 32

-- The payment was made before: its preimage is waited for.
unfoldable pub paid_before : Node → Decoded → Result TrampolineErrorCode PayResponse
paid_before n decoded = do
  resp ← rpc_try (n.waitsendpay decoded.payment_hash none)
  preimage ← ok_or TrampolineErrorCode.missing_preimage resp.payment_preimage
  ok (record {
    amount_msat = elim resp.amount_msat [ none ↦ 0 | some a ↦ a ];
    amount_sent_msat = resp.amount_sent_msat;
    destination = resp.destination;
    parts = parts_of resp.partid;
    payment_hash = resp.payment_hash;
    payment_preimage = preimage;
  })

abbrev pub peer_error : PeerError → TrampolineErrorCode
peer_error peer_unknown = TrampolineErrorCode.unknown_peer
peer_error peer_connection_failure = TrampolineErrorCode.peer_connection_failure
peer_error (rpc e) = from_rpc_error e.code
peer_error other = TrampolineErrorCode.internal

-- The features of the first peer that is listed.
abbrev pub first_features : Node → List (Option (List ℕ)) → Result TrampolineErrorCode (List ℕ)
first_features n [] = err TrampolineErrorCode.unknown_peer
first_features n (none ∷ peers) = err TrampolineErrorCode.internal
first_features n (some feat ∷ peers) = ok_or TrampolineErrorCode.internal (n.hex_decode feat)

abbrev pub some_channels : List Channel → Result TrampolineErrorCode (List Channel)
some_channels [] = err TrampolineErrorCode.missing_channel
some_channels (ch ∷ chs) = ok (ch ∷ chs)

abbrev pub feature_bit : ℕ
feature_bit = 427

-- What is fixed before the parts are sent.
pub record Plan : Type 0 where
  pub node_id : ℕ
  pub decoded : Decoded
  pub tlv_amount_msat : ℕ
  pub amount_msat : ℕ
  pub group_id : ℕ
  pub alloc : Allocations

-- `amount_msat + overpay as u64`, which wraps.
abbrev pub with_overpay : Node → TrampolinePayRequest → ℕ → ℕ
with_overpay n req amount = (amount + n.overpay amount req.maxfeepercent) % 2 ^ 64

-- From the wait for the peer to the approval of the invoice.
unfoldable pub plan_payment :
    Node → TrampolinePayRequest → ℕ → Decoded → List Sendpay → Result TrampolineErrorCode Plan
plan_payment n req node_id decoded send_pays = do
  connected ← map_err peer_error (n.await_peer node_id)
  peers ← rpc_try (n.listpeers node_id)
  features ← first_features n peers
  supported ← feature_guard features feature_bit
  tlv_amount ← choose_amount (as_option req.amount_msat) decoded.amount_msat
  listed ← rpc_try (n.listpeerchannels node_id)
  channels ← some_channels (usable_channels listed)
  alloc ←
      choose_allocation (reestablished_channels n node_id channels) (with_overpay n req tlv_amount)
  approved ← rpc_try (n.preapproveinvoice req.bolt11)
  ok (record {
    node_id = node_id;
    decoded = decoded;
    tlv_amount_msat = tlv_amount;
    amount_msat = with_overpay n req tlv_amount;
    group_id = (max_group_id send_pays + 1) % 2 ^ 64;
    alloc = alloc;
  })

-- A payment that was made before, or the plan of a new one.
pub data Prepared : Type 0 where
  paid : PayResponse → Prepared
  planned : Plan → Prepared

unfoldable pub pay_or_plan :
    Node → TrampolinePayRequest → ℕ → Decoded → List Sendpay → Result TrampolineErrorCode Prepared
pay_or_plan n req node_id decoded send_pays =
    if any_pending send_pays
    then (do resp ← paid_before n decoded; ok (paid resp))
    else (do p ← plan_payment n req node_id decoded send_pays; ok (planned p))

unfoldable pub prepare : Node → TrampolinePayRequest → Result TrampolineErrorCode Prepared
prepare n req = do
  node_id ← ok_or TrampolineErrorCode.invalid_node_id (n.from_slice req.trampoline_node_id)
  connected ← connection n.connect
  decoded ← rpc_try (n.decodepay req.bolt11)
  send_pays ← rpc_try (n.listsendpays decoded.payment_hash)
  pay_or_plan n req node_id decoded send_pays
