-- ===== src/Plugin/Invoices/Tests.antt =====
-- A node with two channels, and three peers of which the second and the third offer channels.
use greenlight.Prelude.{
  ◌+◌, ◌*◌, ◌≡◌, refl, true, false, none, some, List, [], ◌∷◌, bytes_eq, not, codes, ltb, arith,
  if◌then◌else◌,
}
use greenlight.Prelude.Run.{done}
use greenlight.Plugin.Invoices.{
  Rpc, PeerChannel, LspInvoiceCall, LspInvoiceResponse, InvoiceAnswer, InvoiceResponse, negotiate,
  negotiated_call, from_call, from_response, get_lsps_offers, offering, regular_invoice,
  lsp_invoice, has_sufficient_capacity, saturating_mul, get_receivable_capacity, sum_receivable,
}
use greenlight.Plugin.Invoices.Capacity.{capacity, lsp_invoice-capacity}

abbrev channels : List PeerChannel
channels =
    record { peer_connected = true; is_normal = true; receivable_msat = some 2099 }
    ∷ record { peer_connected = false; is_normal = true; receivable_msat = some 50000 }
    ∷ []

abbrev answer : InvoiceResponse
answer = record {
  bolt11 = codes "lnbc";
  created_index = 1;
  expires_at = 9;
  payment_hash = codes "aa";
  payment_secret = codes "bb";
}

abbrev rpc : Rpc
rpc = record {
  listpeerchannels = some channels;
  invoice = λ i. none;
  version = some (codes "v25.05");
  listpeers = some (codes "p" ∷ codes "q" ∷ codes "r" ∷ []);
  lsp_getinfo = λ peer. not (bytes_eq peer (codes "p"));
  jitchannel = λ r. some answer;
  lsps2_invoice = λ r. none;
  from_hex = some;
}

abbrev call : LspInvoiceCall
call = record {
  lsp_id = [];
  token = [];
  amount_msat = 2000;
  description = codes "d";
  label = codes "l";
}

abbrev response : LspInvoiceResponse
response = record {
  bolt11 = codes "lnbc";
  created_index = 1;
  expires_at = 9;
  payment_hash = codes "aa";
  payment_secret = codes "bb";
}

-- 105 percent of 2000 are 2100.
lsp_invoice-capacity_example : lsp_invoice rpc call ≡ (
    if ltb (105 * 2000) (100 * (capacity channels + 1))
    then regular_invoice rpc call
    else negotiate rpc call)
unfolding capacity
lsp_invoice-capacity_example =
    lsp_invoice-capacity rpc channels call refl (omega arith) (omega arith) (omega arith)

negotiate_run : negotiate rpc call ≡ done response
unfolding negotiate get_lsps_offers offering negotiated_call from_call from_response bytes_eq
    greenlight.Persist.Map.cmp
negotiate_run = refl

-- Where the product saturates, less than the amount is enough.
abbrev rich : Rpc
rich = record rpc {
  listpeerchannels = some (
      record { peer_connected = true; is_normal = true; receivable_msat = some 190000000000000000 }
      ∷ []);
}

saturated : has_sufficient_capacity rich 1000000000000000000 ≡ true
unfolding has_sufficient_capacity saturating_mul get_receivable_capacity sum_receivable
    greenlight.Plugin.Invoices.receivable_of
saturated = refl

-- A version that is a number with three digits counts as the older one.
old_method : negotiated_call rpc (codes "v100.1") (from_call (codes "q") call) ≡ some answer
unfolding negotiated_call greenlight.Persist.Map.cmp
old_method = refl

-- An amount of 20 is taken for receivable with a capacity of 21, which is 105 percent, but one of 1 too
-- with a capacity of 1.
abbrev poor : Rpc
poor = record rpc {
  listpeerchannels =
      some (record { peer_connected = true; is_normal = true; receivable_msat = some 1 } ∷ []);
}

rounded_down : has_sufficient_capacity poor 1 ≡ true
unfolding has_sufficient_capacity saturating_mul get_receivable_capacity sum_receivable
    greenlight.Plugin.Invoices.receivable_of
rounded_down = refl
