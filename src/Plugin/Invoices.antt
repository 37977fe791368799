-- ===== src/Plugin/Invoices.antt =====
-- `lsp_invoice` of libs/gl-plugin/src/node/mod.rs, with the conversions of its requests and responses in
-- libs/gl-plugin/src/requests.rs and libs/gl-plugin/src/responses.rs. core-lightning is the record `Rpc`.
pub mod Capacity
pub mod Negotiated
mod Tests
use greenlight.Prelude.{
  ℕ, ◌+◌, ◌-◌, ◌*◌, ◌/◌, ◌%◌, ◌^◌, Bool, true, false, Option, none, some, List, [], ◌∷◌, ◌==◌, ◌&&◌,
  if◌then◌else◌, codes, ltb, leb, Ordering,
}
use greenlight.Prelude.Run.{Run, done, fail, panic, unwrap, ok_or, ◌>>=◌}
use greenlight.Persist.Map.{cmp}

-- `AmountOrAny`
pub data AmountOrAny : Type 0 where
  amount : ℕ → AmountOrAny
  any : AmountOrAny

-- The request over gRPC, `pb::LspInvoiceRequest`.
pub record LspInvoiceCall : Type 0 where
  pub lsp_id : List ℕ
  pub token : List ℕ
  pub amount_msat : ℕ
  pub description : List ℕ
  pub label : List ℕ

-- `LspInvoiceRequest` and `LspInvoiceRequestV2`
pub record LspInvoiceRequest : Type 0 where
  pub lsp_id : List ℕ
  pub token : Option (List ℕ)
  pub amount_msat : AmountOrAny
  pub description : List ℕ
  pub label : List ℕ

-- The fields that `lsp_invoice` sets; the others are `None`.
pub record Invoice : Type 0 where
  pub amount_msat : AmountOrAny
  pub description : List ℕ
  pub label : List ℕ
  pub cltv : Option ℕ

-- The answer to `invoice`, and the one of the LSP plugin; hashes and secrets are in hex form.
pub record InvoiceAnswer : Type 0 where
  pub expiry_time : ℕ
  pub bolt11 : List ℕ
  pub payment_hash : List ℕ
  pub payment_secret : Option (List ℕ)

pub record InvoiceResponse : Type 0 where
  pub bolt11 : List ℕ
  pub created_index : ℕ
  pub expires_at : ℕ
  pub payment_hash : List ℕ
  pub payment_secret : List ℕ

-- `pb::LspInvoiceResponse`
pub record LspInvoiceResponse : Type 0 where
  pub bolt11 : List ℕ
  pub created_index : ℕ
  pub expires_at : ℕ
  pub payment_hash : List ℕ
  pub payment_secret : List ℕ

-- `is_normal` is `state == CHANNELD_NORMAL`.
pub record PeerChannel : Type 0 where
  pub peer_connected : Bool
  pub is_normal : Bool
  pub receivable_msat : Option ℕ

-- Core-lightning's answers. `lsp_getinfo` tells whether a peer answered within two seconds; `from_hex` is
-- `hex::decode`.
pub record Rpc : Type 0 where
  pub listpeerchannels : Option (List PeerChannel)
  pub invoice : Invoice → Option InvoiceAnswer
  pub version : Option (List ℕ)
  pub listpeers : Option (List (List ℕ))
  pub lsp_getinfo : List ℕ → Bool
  pub jitchannel : LspInvoiceRequest → Option InvoiceResponse
  pub lsps2_invoice : LspInvoiceRequest → Option InvoiceResponse
  pub from_hex : List ℕ → Option (List ℕ)

abbrev pub u64_max : ℕ
u64_max = 2 ^ 64 - 1

-- `filter`, `filter_map` and `sum`, which wraps around.
unfoldable pub receivable_of : PeerChannel → ℕ
receivable_of c =
    if c.peer_connected && c.is_normal then elim c.receivable_msat [ none ↦ 0 | some a ↦ a ] else 0

unfoldable pub sum_receivable : ℕ → List PeerChannel → ℕ
unfolding receivable_of
sum_receivable total [] = total
sum_receivable total (c ∷ channels) = sum_receivable ((total + receivable_of c) % 2 ^ 64) channels

unfoldable pub get_receivable_capacity : Rpc → Option ℕ
unfolding sum_receivable
get_receivable_capacity rpc = elim rpc.listpeerchannels [
  | none ↦ none
  | some channels ↦ some (sum_receivable 0 channels)
]

unfoldable pub saturating_mul : ℕ → ℕ → ℕ
saturating_mul a b = if leb (a * b) u64_max then a * b else u64_max

-- The capacity that cannot be read counts as 0.
unfoldable pub has_sufficient_capacity : Rpc → ℕ → Bool
unfolding saturating_mul
has_sufficient_capacity rpc amount_msat =
    leb (saturating_mul amount_msat 105 / 100)
      (elim (get_receivable_capacity rpc) [ none ↦ 0 | some receivable ↦ receivable ])

abbrev pub regular_request : LspInvoiceCall → Invoice
regular_request req = record {
  amount_msat = amount req.amount_msat;
  description = req.description;
  label = req.label;
  cltv = some 144;
}

-- The secret is optional, and empty where it is not in hex form.
unfoldable pub secret_or_default : Rpc → Option (List ℕ) → List ℕ
secret_or_default rpc none = []
secret_or_default rpc (some s) = elim (rpc.from_hex s) [ none ↦ [] | some bytes ↦ bytes ]

unfoldable pub regular_invoice : Rpc → LspInvoiceCall → Run LspInvoiceResponse
unfolding secret_or_default
regular_invoice rpc req = do
  res ← ok_or (rpc.invoice (regular_request req))
  payment_hash ← ok_or (rpc.from_hex res.payment_hash)
  done (record {
    bolt11 = res.bolt11;
    created_index = 0;
    expires_at = res.expiry_time;
    payment_hash = payment_hash;
    payment_secret = secret_or_default rpc res.payment_secret;
  })

-- The peers whose offers came in, in the order of the peers.
unfoldable pub offering : Rpc → List (List ℕ) → List (List ℕ)
offering rpc [] = []
offering rpc (peer ∷ peers) =
    let rest = offering rpc peers in if rpc.lsp_getinfo peer then peer ∷ rest else rest

unfoldable pub get_lsps_offers : Rpc → Run (List (List ℕ))
unfolding offering
get_lsps_offers rpc = do peers ← ok_or rpc.listpeers; done (offering rpc peers)

-- `lsps[0]`, behind the check for none
abbrev pub first_offer : List (List ℕ) → Run (List ℕ)
first_offer [] = fail
first_offer (lsp ∷ lsps) = done lsp

abbrev pub token_of : List ℕ → Option (List ℕ)
token_of [] = none
token_of (c ∷ token) = some (c ∷ token)

-- `From<LspInvoiceRequest>`, with the LSP's id put in.
unfoldable pub from_call : List ℕ → LspInvoiceCall → LspInvoiceRequest
from_call lsp_id o = record {
  lsp_id = lsp_id;
  token = token_of o.token;
  amount_msat = if o.amount_msat == 0 then any else amount o.amount_msat;
  description = o.description;
  label = o.label;
}

-- `From<InvoiceResponse>`
unfoldable pub from_response : Rpc → InvoiceResponse → Run LspInvoiceResponse
from_response rpc o = do
  payment_hash ← unwrap (rpc.from_hex o.payment_hash)
  payment_secret ← unwrap (rpc.from_hex o.payment_secret)
  done (record {
    bolt11 = o.bolt11;
    created_index = o.created_index;
    expires_at = o.expires_at;
    payment_hash = payment_hash;
    payment_secret = payment_secret;
  })

abbrev pub is_greater : Ordering → Bool
is_greater Ordering.gt = true
is_greater Ordering.eq = false
is_greater Ordering.lt = false

-- Versions are compared as texts.
unfoldable pub negotiated_call : Rpc → List ℕ → LspInvoiceRequest → Option InvoiceResponse
negotiated_call rpc version invreq =
    if is_greater (cmp version (codes "v25.05gl1"))
    then rpc.lsps2_invoice invreq
    else rpc.jitchannel invreq

unfoldable pub negotiate : Rpc → LspInvoiceCall → Run LspInvoiceResponse
unfolding get_lsps_offers
negotiate rpc req = do
  version ← ok_or rpc.version
  lsps ← get_lsps_offers rpc
  lsp ← first_offer lsps
  res ← ok_or (negotiated_call rpc version (from_call lsp req))
  from_response rpc res

unfoldable pub lsp_invoice : Rpc → LspInvoiceCall → Run LspInvoiceResponse
lsp_invoice rpc req =
    let regular = regular_invoice rpc req in
    let jit = negotiate rpc req in
    if ltb 0 req.amount_msat && has_sufficient_capacity rpc req.amount_msat then regular else jit
