-- ===== src/Signer/Model.antt =====
-- The pending calls of libs/gl-client/src/signer/model: which call a URI stands for, and how a pending
-- request is decoded. The protobuf decoders are parameters.
use greenlight.Prelude.{
  ℕ, Bool, true, false, Option, none, some, List, [], ◌∷◌, ◌==◌, if◌then◌else◌, bytes_eq, codes,
}
use greenlight.Prelude.Run.{Run, done, panic}

-- `pb::PendingRequest`
pub record PendingRequest : Type 0 where
  pub request : List ℕ
  pub uri : List ℕ
  pub signature : List ℕ
  pub pubkey : List ℕ
  pub timestamp : ℕ
  pub rune : List ℕ

-- The variants of `model::Request`.
pub data Method : Type 0 where
  gl_config : Method
  lsp_invoice : Method
  getinfo : Method
  list_peers : Method
  list_funds : Method
  send_pay : Method
  list_channels : Method
  add_gossip : Method
  auto_clean_once : Method
  check_message : Method
  close : Method
  connect : Method
  create_invoice : Method
  datastore : Method
  create_onion : Method
  del_datastore : Method
  del_expired_invoice : Method
  del_invoice : Method
  invoice : Method
  list_datastore : Method
  list_invoices : Method
  send_onion : Method
  list_send_pays : Method
  list_transactions : Method
  pay : Method
  pre_approve_invoice : Method
  list_nodes : Method
  wait_any_invoice : Method
  wait_invoice : Method
  wait_send_pay : Method
  new_addr : Method
  withdraw : Method
  key_send : Method
  fund_psbt : Method
  send_psbt : Method
  sign_psbt : Method
  utxo_psbt : Method
  tx_discard : Method
  tx_prepare : Method
  tx_send : Method
  disconnect : Method
  feerates : Method
  fund_channel : Method
  get_route : Method
  list_forwards : Method
  list_pays : Method
  ping : Method
  set_channel : Method
  sign_message : Method
  fetch_invoice : Method
  stop : Method
  list_closed_channels : Method
  static_backup : Method
  trampoline_pay : Method

-- A decoded call: its variant, with the fields that the signer looks at. `plain` has none of these.
pub data Request : Type 0 where
  gl_config_call : List ℕ → Request
  send_pay_call : Option (List ℕ) → Request
  sign_message_call : List ℕ → Request
  fund_channel_call : List ℕ → Request
  lsp_invoice_call : Request
  invoice_call : Request
  pay_call : List ℕ → Request
  pre_approve_invoice_call : List ℕ → Request
  trampoline_pay_call : List ℕ → Request
  plain : Method → Request

-- `prost`'s decoders: the fields of a payload, or none if it cannot be decoded.
pub record Decoders : Type 0 where
  pub close_to_addr : List ℕ → Option (List ℕ)
  pub send_pay_bolt11 : List ℕ → Option (Option (List ℕ))
  pub message : List ℕ → Option (List ℕ)
  pub channel_id : List ℕ → Option (List ℕ)
  pub bolt11 : Method → List ℕ → Option (List ℕ)
  pub decodes : Method → List ℕ → Bool

-- The arms of `cln::decode_request`, in their order.
abbrev pub cln_uris : List (List ℕ × Method)
cln_uris =
    (codes "/cln.Node/Getinfo", getinfo)
    ∷ (codes "/cln.Node/ListPeers", list_peers)
    ∷ (codes "/cln.Node/ListFunds", list_funds)
    ∷ (codes "/cln.Node/SendPay", send_pay)
    ∷ (codes "/cln.Node/ListChannels", list_channels)
    ∷ (codes "/cln.Node/AddGossip", add_gossip)
    ∷ (codes "/cln.Nonde/AutoCleanOnce", auto_clean_once)
    ∷ (codes "/cln.Node/CheckMessage", check_message)
    ∷ (codes "/cln.Node/Close", close)
    ∷ (codes "/cln.Node/ConnectPeer", connect)
    ∷ (codes "/cln.Node/CreateInvoice", create_invoice)
    ∷ (codes "/cln.Node/Datastore", datastore)
    ∷ (codes "/cln.Node/CreateOnion", create_onion)
    ∷ (codes "/cln.Node/DelDatastore", del_datastore)
    ∷ (codes "/cln.Node/DelExpiredInvoice", del_expired_invoice)
    ∷ (codes "/cln.Node/DelInvoice", del_invoice)
    ∷ (codes "/cln.Node/Invoice", invoice)
    ∷ (codes "/cln.Node/ListDatastore", list_datastore)
    ∷ (codes "/cln.Node/ListInvoices", list_invoices)
    ∷ (codes "/cln.Node/SendOnion", send_onion)
    ∷ (codes "/cln.Node/ListSendPays", list_send_pays)
    ∷ (codes "/cln.Node/ListTransactions", list_transactions)
    ∷ (codes "/cln.Node/Pay", pay)
    ∷ (codes "/cln.Node/ListNodes", list_nodes)
    ∷ (codes "/cln.Node/WaitAnyInvoice", wait_any_invoice)
    ∷ (codes "/cln.Node/WaitInvoice", wait_invoice)
    ∷ (codes "/cln.Node/WaitSendPay", wait_send_pay)
    ∷ (codes "/cln.Node/NewAddr", new_addr)
    ∷ (codes "/cln.Node/Withdraw", withdraw)
    ∷ (codes "/cln.Node/KeySend", key_send)
    ∷ (codes "/cln.Node/FundPsbt", fund_psbt)
    ∷ (codes "/cln.Node/SendPsbt", send_psbt)
    ∷ (codes "/cln.Node/SignPsbt", sign_psbt)
    ∷ (codes "/cln.Node/UtxoPsbt", utxo_psbt)
    ∷ (codes "/cln.Node/TxDiscard", tx_discard)
    ∷ (codes "/cln.Node/TxPrepare", tx_prepare)
    ∷ (codes "/cln.Node/TxSend", tx_send)
    ∷ (codes "/cln.Node/Disconnect", disconnect)
    ∷ (codes "/cln.Node/Feerates", feerates)
    ∷ (codes "/cln.Node/FundChannel", fund_channel)
    ∷ (codes "/cln.Node/GetRoute", get_route)
    ∷ (codes "/cln.Node/ListForwards", list_forwards)
    ∷ (codes "/cln.Node/ListPays", list_pays)
    ∷ (codes "/cln.Node/Ping", ping)
    ∷ (codes "/cln.Node/SetChannel", set_channel)
    ∷ (codes "/cln.Node/SignMessage", sign_message)
    ∷ (codes "/cln.Node/FetchInvoice", fetch_invoice)
    ∷ (codes "/cln.Node/Stop", stop)
    ∷ (codes "/cln.Node/ListClosedChannels", list_closed_channels)
    ∷ (codes "/cln.Node/StaticBackup", static_backup)
    ∷ (codes "/cln.Node/PreApproveInvoice", pre_approve_invoice)
    ∷ []

-- The arms of `greenlight::decode_request`.
abbrev pub greenlight_uris : List (List ℕ × Method)
greenlight_uris =
    (codes "/greenlight.Node/Configure", gl_config)
    ∷ (codes "/greenlight.Node/TrampolinePay", trampoline_pay)
    ∷ (codes "/greenlight.Node/LspInvoice", lsp_invoice)
    ∷ []

-- The first arm that matches.
unfoldable pub method_of : List (List ℕ × Method) → List ℕ → Option Method
method_of [] uri = none
method_of ((u, m) ∷ arms) uri = if bytes_eq u uri then some m else method_of arms uri

abbrev wrap : (List ℕ → Request) → Option (List ℕ) → Option Request
wrap f none = none
wrap f (some a) = some (f a)

abbrev wrap_send_pay : Option (Option (List ℕ)) → Option Request
wrap_send_pay none = none
wrap_send_pay (some a) = some (send_pay_call a)

abbrev when : Bool → Request → Option Request
when true r = some r
when false r = none

-- `T::decode(p)` at the type of the variant.
unfoldable pub decode_call : Decoders → Method → List ℕ → Option Request
decode_call d method p = elim method [
  | gl_config ↦ wrap gl_config_call (d.close_to_addr p)
  | send_pay ↦ wrap_send_pay (d.send_pay_bolt11 p)
  | sign_message ↦ wrap sign_message_call (d.message p)
  | fund_channel ↦ wrap fund_channel_call (d.channel_id p)
  | lsp_invoice ↦ when (d.decodes lsp_invoice p) lsp_invoice_call
  | invoice ↦ when (d.decodes invoice p) invoice_call
  | pay ↦ wrap pay_call (d.bolt11 pay p)
  | pre_approve_invoice ↦ wrap pre_approve_invoice_call (d.bolt11 pre_approve_invoice p)
  | trampoline_pay ↦ wrap trampoline_pay_call (d.bolt11 trampoline_pay p)
  | other ↦ when (d.decodes other p) (plain other)
]

-- An unknown URI and a payload that does not decode are both an error.
unfoldable pub decode_by : List (List ℕ × Method) → Decoders → List ℕ → List ℕ → Option Request
decode_by arms d uri p = elim (method_of arms uri) [ none ↦ none | some m ↦ decode_call d m p ]

-- `a.or_else(|_| b)`
abbrev or_else : Option Request → Option Request → Option Request
or_else (some r) b = some r
or_else none b = b

-- Behind the flag byte and the length. An empty request fails the index, a set flag the assertion,
-- and one of less than five bytes the slice: each is a panic.
unfoldable pub decode_payload : Decoders → List ℕ → List ℕ → Run (Option Request)
decode_payload d uri (f ∷ a ∷ b ∷ c ∷ e ∷ payload) =
    if f == 0
    then done (or_else (decode_by cln_uris d uri payload) (decode_by greenlight_uris d uri payload))
    else panic
decode_payload d uri [] = panic
decode_payload d uri (f ∷ []) = panic
decode_payload d uri (f ∷ a ∷ []) = panic
decode_payload d uri (f ∷ a ∷ b ∷ []) = panic
decode_payload d uri (f ∷ a ∷ b ∷ c ∷ []) = panic

unfoldable pub decode_request : Decoders → PendingRequest → Run (Option Request)
decode_request d r = decode_payload d r.uri r.request
