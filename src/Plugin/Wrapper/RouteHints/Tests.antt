-- ===== src/Plugin/Wrapper/RouteHints/Tests.antt =====
-- A node with a channel that can be used, under an alias, and one that is not connected.
use greenlight.Prelude.{ℕ, ◌≡◌, refl, true, false, Option, none, some, List, [], ◌∷◌, codes}
use greenlight.Prelude.Run.{done}
use greenlight.Plugin.Wrapper.RouteHints.{
  PeerChannel, IncomingChannel, Texts, get_routehints, hop_from, Invoice, InvoiceCall, invoice_from,
  invoice,
}

-- An id is a text of one byte.
abbrev first_byte : List ℕ → Option ℕ
first_byte [] = none
first_byte (c ∷ cs) = some c

abbrev texts : Texts
texts = record {
  scid_from_str = first_byte;
  scid_fmt = λ n. n ∷ [];
  amount_from_str = first_byte;
  from_hex = some;
  to_hex = λ bytes. bytes;
}

abbrev channels : List PeerChannel
channels =
    record { peer_connected = true; is_normal = true; short_channel_id = some 1; remote = some 9 }
    ∷ record { peer_connected = false; is_normal = true; short_channel_id = some 2; remote = none }
    ∷ []

abbrev incoming_of : ℕ → IncomingChannel
incoming_of n = record {
  id = codes "peer";
  short_channel_id = n ∷ [];
  fee_base_msat = 5 ∷ [];
  fee_proportional_millionths = 10;
  cltv_expiry_delta = 6;
}

abbrev incoming : List IncomingChannel
incoming = incoming_of 2 ∷ incoming_of 1 ∷ []

abbrev call : InvoiceCall
call = record {
  amount_msat = none;
  description = codes "d";
  label = codes "l";
  expiry = none;
  fallbacks = [];
  preimage = none;
  cltv = none;
  deschashonly = none;
}

abbrev sent : Invoice
sent = record (invoice_from texts call) {
  dev_routes = some (
      (hop_from texts (record {
        id = codes "peer";
        scid = 9 ∷ [];
        feebase = some 5;
        feeprop = 10;
        expirydelta = 6;
      })
        ∷ [])
      ∷ []);
  cltv = some 144;
}

-- Where the channels cannot be listed, the invoice has no routes.
best_effort :
    invoice {R = Invoice} texts none (some incoming) some call
    ≡ done (record (invoice_from texts call) { dev_routes = none; cltv = some 144 })
unfolding invoice get_routehints
best_effort = refl
