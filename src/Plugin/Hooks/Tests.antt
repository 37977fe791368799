-- ===== src/Plugin/Hooks/Tests.antt =====
-- A payment that is announced, and a channel that is opened after a configuration.
use greenlight.Prelude.{ℕ, ◌≡◌, refl, true, none, some, List, [], ◌∷◌, drop, codes, arith}
use greenlight.Prelude.Run.{done, panic}
use greenlight.Plugin.Context.{Request, snapshot}
use greenlight.Plugin.Stager
use greenlight.Plugin.Node.{Node, Json, configure}
use greenlight.Plugin.Hooks.{
  InvoicePayment, Invoice, OffChainPayment, payment_of, convert_tlvs, on_openchannel, on_custommsg,
}
use greenlight.Plugin.Hooks.Closing.{on_openchannel-configure}

abbrev payment : InvoicePayment
payment = record { label = codes "l"; preimage = codes "00"; amount = 5; extratlvs = none }

abbrev invoice : Invoice
invoice = record { label = codes "l"; bolt11 = some (codes "lnbc"); payment_hash = codes "11" }

abbrev announced : OffChainPayment
announced = record {
  label = codes "l";
  preimage = codes "00";
  amount = 5;
  extratlvs = [];
  payment_hash = codes "11";
  bolt11 = codes "lnbc";
}

payment_run : payment_of some payment invoice ≡ done announced
unfolding payment_of convert_tlvs
payment_run = refl

-- A message whose fields are not in hex form ends the hook with a panic.
bad_message :
    on_custommsg (λ b. none) (some (record { peer_id = codes "zz"; payload = [] })) [] ≡ panic
unfolding on_custommsg
bad_message = refl

-- A call that is known by its payload.
abbrev call : List ℕ → Request
call payload = record {
  pubkey = [];
  signature = [];
  rune = [];
  payload = payload;
  uri = codes "/greenlight.Node/Configure";
  timestamp = none;
}

abbrev json : Json
json = record { to_string = λ r. r.payload; from_str = λ text. some (call text) }

abbrev node : Node ℕ
node = record {
  signer_state = record { values = [] };
  stored = none;
  stage = Stager.new;
  ctx = record { requests = call (codes "12345bc1") ∷ [] };
  cached_gl_config = none;
}

abbrev configured : Node ℕ
configured = record node { cached_gl_config = some (codes "12345bc1") }

configured_run : configure {N = ℕ} json (some 1) (λ n. true) true node ≡ done configured
unfolding configure snapshot
configured_run = refl

on_openchannel-configure_example :
    on_openchannel json some true (some (some (codes "12345bc1") ∷ []))
    ≡ done (record { result = codes "continue"; close_to = some (drop 5 (codes "12345bc1")) })
on_openchannel-configure_example =
    on_openchannel-configure {N = ℕ} json some (some 1) (λ n. true) true node configured
      (call (codes "12345bc1")) [] (codes "12345bc1") [] refl configured_run refl refl (omega arith)
