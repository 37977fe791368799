-- ===== src/Signer/Example.antt =====
-- A signer that is asked to preapprove an invoice, with one authentic pending payment.
use greenlight.Prelude.{
  contains, ℕ, ◌≡◌, refl, true, false, none, some, List, [], ◌∷◌, codes, bytes_eq, starts_with,
}
use greenlight.Prelude.Run.{done}
use greenlight.Prelude.Outcome.{ok}
use greenlight.Persist.Merge.{State, merge, merge_loop}
use greenlight.Persist.Wire.{from, into, into_entries, parse_entries, collect}
use greenlight.Persist.Store.{Serde}
use greenlight.Signer.Model.{
  PendingRequest, Decoders, decode_request, decode_payload, decode_by, method_of, decode_call,
}
use greenlight.Signer.Resolve.{
  preapprove_invoice, try_resolve, match_context, accepts, needs_no_context,
}
use greenlight.Signer.Rune.{
  Runes, Alternative, verify_rune, split, uri_method, method_of_parts, to_lowercase, rune_context,
  check_alternative, field_value,
}
use greenlight.Signer.Check.{check_request_auth, check_one, is_complete, signed_data}
use greenlight.Signer.Auth.{authorize}
use greenlight.Signer.Process.{
  HsmRequest, HsmResponse, Handler, Verifier, process_request, process_merged, context_calls,
  decode_passed, answer, handle_resolved, handle_approved, handled, handle_in_context, allow_all,
  update_state_from_context, update_state_from_request, is_sign_message,
}

-- Values are bytes, and allowlists are not kept.
abbrev pub Value : Type 0
Value = List ℕ

abbrev pub no_allowlist : Serde Value (List (List ℕ))
no_allowlist = record { to_value = λ l. []; from_value = λ v. none }

abbrev pub invoice : List ℕ
invoice = codes "lnbc1"

-- A message is the invoice to preapprove.
abbrev pub handler : Handler Value (List ℕ)
handler = record {
  permissive = false;
  parse_message = λ raw. some (preapprove_invoice raw);
  parse_invoice = λ text. some text;
  ready = true;
  add_invoice = λ inv s. done s;
  handle = λ positive approvals client raw s. done (some (7 ∷ []), s);
  node_key = some (codes "ab");
  to_vec = λ v. v;
  from_slice = λ b. some b;
  allowlist = no_allowlist;
}

-- A rune is its text, and a text is its own encoding.
abbrev pub pubkey_is : List ℕ → Alternative
pubkey_is text = record { field = codes "pubkey"; condition = b'='; value = text }

abbrev pub runes : Runes (List ℕ)
runes = record {
  encode = λ b. b;
  from_base64 = λ t. some t;
  to_string = λ r. r;
  to_base64 = λ r. r;
  get_id = λ r. some (7 ∷ []);
  holds = λ value alt. bytes_eq value alt.value;
  check = λ text f. f (pubkey_is (codes "k"));
  hex = λ b. b;
  decimal = λ n. n ∷ [];
  restriction = λ t. some (pubkey_is t ∷ []);
  add_restriction = λ alts r. r;
  new_rune = λ res id version. some (codes "pubkey=k");
}

abbrev pub decoders : Decoders
decoders = record {
  close_to_addr = λ p. some p;
  send_pay_bolt11 = λ p. some (some p);
  message = λ p. some p;
  channel_id = λ p. some p;
  bolt11 = λ method p. some p;
  decodes = λ method p. true;
}

-- The signature is the public key.
abbrev pub verifier : Verifier (List ℕ)
verifier = record {
  verify = λ key signed sig. bytes_eq key sig;
  runes = runes;
  now = some 5;
  decoders = decoders;
}

abbrev pub pending : PendingRequest
pending = record {
  request = 0 ∷ 0 ∷ 0 ∷ 0 ∷ 5 ∷ invoice;
  uri = codes "/cln.Node/Pay";
  signature = codes "k";
  pubkey = codes "k";
  timestamp = 3;
  rune = codes "pubkey=k";
}

abbrev pub preapproval : HsmRequest
preapproval = record {
  request_id = 4;
  context = none;
  raw = invoice;
  signer_state = [];
  requests = pending ∷ [];
}

abbrev pub no_state : State Value
no_state = record { values = [] }

abbrev pub response : HsmResponse
response = record { request_id = 4; raw = 7 ∷ []; signer_state = []; failed = false }

pub preapproval_run :
    process_request handler verifier preapproval no_state ≡ done (ok response, no_state)
unfolding process_request process_merged context_calls decode_passed answer handle_resolved
    handle_approved handled handle_in_context allow_all update_state_from_context is_sign_message
    from parse_entries collect into into_entries merge merge_loop check_request_auth check_one
    is_complete signed_data authorize verify_rune contains split uri_method method_of_parts
    to_lowercase rune_context check_alternative field_value decode_request decode_payload decode_by
    method_of decode_call try_resolve match_context accepts needs_no_context
    update_state_from_request bytes_eq starts_with
preapproval_run = refl
