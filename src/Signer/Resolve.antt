-- ===== src/Signer/Resolve.antt =====
-- `Resolver::try_resolve` of libs/gl-client/src/signer/resolve.rs. Of the messages of the signer's
-- protocol only the fields that are compared are kept.
pub mod Matches
use greenlight.Prelude.{ℕ, Bool, true, false, List, [], ◌∷◌, bytes_eq, if◌then◌else◌}
use greenlight.Signer.Model.{
  Request, sign_message_call, fund_channel_call, lsp_invoice_call, invoice_call, pay_call,
  pre_approve_invoice_call, trampoline_pay_call,
}
use greenlight.Prelude.Outcome.{Result, ok, err}

-- `vls_protocol::msgs::Message`; `other` stands for the messages that the resolver does not name.
pub data Message : Type 0 where
  get_heartbeat : Message
  ecdh : Message
  ping : Message
  pong : Message
  sign_channel_announcement : Message
  sign_channel_update : Message
  sign_node_announcement : Message
  check_pub_key : Message
  get_channel_basepoints : Message
  validate_commitment_tx : Message
  sign_withdrawal : Message
  setup_channel : Message
  get_per_commitment_point : Message
  validate_revocation : Message
  new_channel : List ℕ → Message
  sign_commitment_tx : Message
  sign_gossip_message : Message
  sign_mutual_close_tx : Message
  sign_mutual_close_tx2 : Message
  sign_remote_commitment_tx : Message
  sign_remote_commitment_tx2 : Message
  sign_remote_htlc_tx : Message
  sign_penalty_to_us : Message
  sign_any_penalty_to_us : Message
  sign_any_delayed_payment_to_us : Message
  sign_any_local_htlc_tx : Message
  sign_any_remote_htlc_to_us : Message
  lock_outpoint : Message
  check_outpoint : Message
  sign_any_channel_announcement : Message
  revoke_commitment_tx : Message
  forget_channel : Message
  sign_message : List ℕ → Message
  sign_invoice : Message
  preapprove_invoice : List ℕ → Message
  other : Message

-- The early pass.
unfoldable pub needs_no_context : Message → Bool
needs_no_context get_heartbeat = true
needs_no_context ecdh = true
needs_no_context ping = true
needs_no_context pong = true
needs_no_context sign_channel_announcement = true
needs_no_context sign_channel_update = true
needs_no_context sign_node_announcement = true
needs_no_context check_pub_key = true
needs_no_context get_channel_basepoints = true
needs_no_context validate_commitment_tx = true
needs_no_context sign_withdrawal = true
needs_no_context setup_channel = true
needs_no_context get_per_commitment_point = true
needs_no_context validate_revocation = true
needs_no_context (new_channel peer_id) = true
needs_no_context sign_commitment_tx = true
needs_no_context sign_gossip_message = true
needs_no_context sign_mutual_close_tx = true
needs_no_context sign_mutual_close_tx2 = true
needs_no_context sign_remote_commitment_tx = true
needs_no_context sign_remote_commitment_tx2 = true
needs_no_context sign_remote_htlc_tx = true
needs_no_context sign_penalty_to_us = true
needs_no_context sign_any_penalty_to_us = true
needs_no_context sign_any_delayed_payment_to_us = true
needs_no_context sign_any_local_htlc_tx = true
needs_no_context sign_any_remote_htlc_to_us = true
needs_no_context lock_outpoint = true
needs_no_context check_outpoint = true
needs_no_context sign_any_channel_announcement = true
needs_no_context revoke_commitment_tx = true
needs_no_context forget_channel = true
needs_no_context (sign_message message) = false
needs_no_context sign_invoice = false
needs_no_context (preapprove_invoice invstring) = false
needs_no_context other = false

-- One message against one pending call, by the message.
abbrev signs : List ℕ → Request → Bool
signs message r = elim r [ sign_message_call m ↦ bytes_eq message m | _ ↦ false ]

abbrev funds : List ℕ → Request → Bool
funds peer_id r = elim r [ fund_channel_call id ↦ bytes_eq peer_id id | _ ↦ false ]

abbrev asks_invoice : Request → Bool
asks_invoice r = elim r [ lsp_invoice_call ↦ true | invoice_call ↦ true | _ ↦ false ]

abbrev pays : List ℕ → Request → Bool
pays invstring r = elim r [
  | pay_call bolt11 ↦ bytes_eq invstring bolt11
  | pre_approve_invoice_call bolt11 ↦ bytes_eq invstring bolt11
  | trampoline_pay_call bolt11 ↦ bytes_eq invstring bolt11
  | _ ↦ false
]

unfoldable pub accepts : Message → Request → Bool
accepts req cr = elim req [
  | sign_message message ↦ signs message cr
  | new_channel peer_id ↦ funds peer_id cr
  | sign_invoice ↦ asks_invoice cr
  | preapprove_invoice invstring ↦ pays invstring cr
  | _ ↦ false
]

-- The error carries the message and the context.
unfoldable pub match_context :
    Message → List Request → List Request → Result (Message × List Request) (Unit {0})
match_context req reqctx [] = err (req, reqctx)
match_context req reqctx (cr ∷ rest) =
    if accepts req cr then ok tt else match_context req reqctx rest

unfoldable pub try_resolve : Message → List Request → Result (Message × List Request) (Unit {0})
try_resolve req reqctx = if needs_no_context req then ok tt else match_context req reqctx reqctx
