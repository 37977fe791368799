-- ===== src/Plugin/Hooks.antt =====
-- The hooks of libs/gl-plugin/src/lib.rs that core-lightning calls, and the streams of
-- libs/gl-plugin/src/node/mod.rs that listeners get their events from. serde_json, hex, the protobuf
-- decoder and core-lightning's answers are parameters.
pub mod Streams
pub mod Closing
mod Tests
use greenlight.Prelude.{
  ℕ, Bool, Option, none, some, List, [], ◌∷◌, ◌++◌, if◌then◌else◌, codes, ltb, length, drop,
}
use greenlight.Prelude.Run.{Run, done, fail, panic, unwrap, ensure, ◌>>=◌}
use greenlight.Plugin.Context.{Request}
use greenlight.Plugin.Node.{Json}

pub record Custommsg : Type 0 where
  pub peer_id : List ℕ
  pub payload : List ℕ

pub record TlvField : Type 0 where
  pub typ : ℕ
  pub value : List ℕ

pub record OffChainPayment : Type 0 where
  pub label : List ℕ
  pub preimage : List ℕ
  pub amount : ℕ
  pub extratlvs : List TlvField
  pub payment_hash : List ℕ
  pub bolt11 : List ℕ

-- `Event`; what is said when the node stops is left out.
pub data Event : Type 0 where
  stop : Event
  rpc_call : List ℕ → Event
  incoming_payment : OffChainPayment → Event
  custom_msg : Custommsg → Event

-- The answer to a hook: `result`, and where the peer pays out to when the channel is closed.
pub record HookResponse : Type 0 where
  pub result : List ℕ
  pub close_to : Option (List ℕ)

abbrev pub continue : HookResponse
continue = record { result = codes "continue"; close_to = none }

-- `decoded` is the message; its fields are in hex form. A send without listeners is not an error.
unfoldable pub on_custommsg :
    (List ℕ → Option (List ℕ)) → Option Custommsg → List Event → Run (HookResponse × List Event)
on_custommsg from_hex decoded events = do
  call ← unwrap decoded
  peer_id ← unwrap (from_hex call.peer_id)
  payload ← unwrap (from_hex call.payload)
  done (continue, events ++ custom_msg (record { peer_id = peer_id; payload = payload }) ∷ [])

-- `request[5..]`
unfoldable pub behind_prefix : List ℕ → Run (List ℕ)
behind_prefix request = if ltb (length request) 5 then panic else done (drop 5 request)

-- `decode` gives the `close_to_addr` of a `GlConfig`.
unfoldable pub parse_gl_config_from_serialized_request :
    Json → (List ℕ → Option (List ℕ)) → List ℕ → Run (Option (List ℕ))
unfolding behind_prefix
parse_gl_config_from_serialized_request json decode request = do
  gl_conf_req ← unwrap (json.from_str request)
  payload ← behind_prefix gl_conf_req.payload
  done (decode payload)

-- The first text that `listdatastore` answers with; the call may fail.
unfoldable pub first_text : Option (List (Option (List ℕ))) → Option (List ℕ)
first_text none = none
first_text (some []) = none
first_text (some (string ∷ datastore)) = string

unfoldable pub close_to_of : Json → (List ℕ → Option (List ℕ)) → Option (List ℕ) → Run HookResponse
close_to_of json decode none = done continue
close_to_of json decode (some text) = do
  gl_config ← parse_gl_config_from_serialized_request json decode text
  done (record { result = codes "continue"; close_to = gl_config })

unfoldable pub on_openchannel :
    Json → (List ℕ → Option (List ℕ)) → Bool → Option (List (Option (List ℕ))) → Run HookResponse
unfolding first_text close_to_of
on_openchannel json decode opened listdatastore = do
  rpc ← ensure opened
  close_to_of json decode (first_text listdatastore)

-- The call of `invoice_payment`, and an invoice of `listinvoices`.
pub record InvoicePayment : Type 0 where
  pub label : List ℕ
  pub preimage : List ℕ
  pub amount : ℕ
  pub extratlvs : Option (List TlvField)

pub record Invoice : Type 0 where
  pub label : List ℕ
  pub bolt11 : Option (List ℕ)
  pub payment_hash : List ℕ

unfoldable pub convert_tlvs : (List ℕ → Option (List ℕ)) → List TlvField → Run (List TlvField)
convert_tlvs from_hex [] = done []
convert_tlvs from_hex (t ∷ tlvs) = do
  value ← unwrap (from_hex t.value)
  rest ← convert_tlvs from_hex tlvs
  done (record { typ = t.typ; value = value } ∷ rest)

abbrev pub unwrap_or_empty : Option (List TlvField) → List TlvField
unwrap_or_empty none = []
unwrap_or_empty (some tlvs) = tlvs

unfoldable pub payment_of :
    (List ℕ → Option (List ℕ)) → InvoicePayment → Invoice → Run OffChainPayment
unfolding convert_tlvs
payment_of from_hex call invoice = do
  tlvs ← convert_tlvs from_hex (unwrap_or_empty call.extratlvs)
  preimage ← unwrap (from_hex call.preimage)
  bolt11 ← unwrap invoice.bolt11
  payment_hash ← unwrap (from_hex invoice.payment_hash)
  done (record {
    label = invoice.label;
    preimage = preimage;
    amount = call.amount;
    extratlvs = tlvs;
    payment_hash = payment_hash;
    bolt11 = bolt11;
  })

-- `pop`
unfoldable pub last_invoice : List Invoice → Option Invoice
last_invoice [] = none
last_invoice (i ∷ []) = some i
last_invoice (i ∷ j ∷ invoices) = last_invoice (j ∷ invoices)

unfoldable pub announce :
    (List ℕ → Option (List ℕ))
    → InvoicePayment
    → Option Invoice
    → List Event
    → Run (HookResponse × List Event)
announce from_hex call none events = done (continue, events)
announce from_hex call (some invoice) events = do
  p ← payment_of from_hex call invoice
  done (continue, events ++ incoming_payment p ∷ [])

unfoldable pub on_call :
    (List ℕ → Option (List ℕ))
    → Bool
    → (List ℕ → Option (List Invoice))
    → Option InvoicePayment
    → List Event
    → Run (HookResponse × List Event)
unfolding last_invoice announce payment_of
on_call from_hex opened listinvoices none events = done (continue, events)
on_call from_hex opened listinvoices (some call) events = do
  rpc ← ensure opened
  invoices ← unwrap (listinvoices call.label)
  announce from_hex call (last_invoice invoices) events

-- `listinvoices` is by label.
unfoldable pub on_invoice_payment :
    (List ℕ → Option (List ℕ))
    → Bool
    → (List ℕ → Option (List Invoice))
    → Option InvoicePayment
    → List Event
    → Run (HookResponse × List Event)
unfolding on_call
on_invoice_payment from_hex opened listinvoices decoded events =
    on_call from_hex opened listinvoices decoded events

-- What a listener receives of the events from when it subscribed, for as long as it takes them and keeps
-- up with them.
unfoldable pub stream_incoming : List Event → List OffChainPayment
stream_incoming [] = []
stream_incoming (incoming_payment p ∷ events) = p ∷ stream_incoming events
stream_incoming (stop ∷ events) = stream_incoming events
stream_incoming (rpc_call uri ∷ events) = stream_incoming events
stream_incoming (custom_msg m ∷ events) = stream_incoming events

unfoldable pub stream_custommsg : List Event → List Custommsg
stream_custommsg [] = []
stream_custommsg (custom_msg m ∷ events) = m ∷ stream_custommsg events
stream_custommsg (stop ∷ events) = stream_custommsg events
stream_custommsg (rpc_call uri ∷ events) = stream_custommsg events
stream_custommsg (incoming_payment p ∷ events) = stream_custommsg events
