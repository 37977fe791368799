-- ===== src/Signer/Process/Tests.antt =====
-- The signer of the example: its answers, its loop, and the approval of a pairing.
use greenlight.Prelude.{
  false, zero, suc, contains, ℕ, ◌≡◌, refl, Any, true, Option, none, some, List, [], ◌∷◌, codes,
  bytes_eq, starts_with, map,
}
use greenlight.Prelude.Run.{done}
use greenlight.Prelude.Outcome.{ok, err}
use greenlight.Persist.Merge.{State, merge, merge_loop}
use greenlight.Persist.Wire.{from, parse_entries, collect}
use greenlight.Persist.Store.{Serde, RoundTrips, get_node_allowlist}
use greenlight.Signer.Model.{Request, gl_config_call}
use greenlight.Signer.Resolve.{try_resolve, match_context, needs_no_context}
use greenlight.Signer.Resolve.Matches.{Pays}
use greenlight.Signer.Rune.{
  Alternative, verify_rune, split, uri_method, method_of_parts, to_lowercase, rune_context,
  check_alternative, field_value,
}
use greenlight.Signer.Check.{check_request_auth}
use greenlight.Signer.Process.{
  HsmRequest, HsmResponse, Handler, resolver, process_request, process_merged, context_calls,
  decode_passed, answer, allow_all, is_sign_message,
}
use greenlight.Signer.Process.Justified.{Asks, process_request-preapprove}
use greenlight.Signer.Process.Rejected.{IsUnresolved, process_request-resolver}
use greenlight.Signer.Process.Allowlist.{last_close_to, get_node_allowlist-allow_all}
use greenlight.Signer.Run.{Event, message, ended, finished, run_once, to_response}
use greenlight.Signer.Run.Answers.{request_ids, run_once_answers}
use greenlight.Signer.Rune.{create_rune, parse_restrictions, has_pubkey_field, names_pubkey, join}
use greenlight.Signer.Pairing.{
  ApprovePairingRequest, ApprovePairingResponse, pairing_data, split_restrictions, pairing_request,
  process_pairing_approval,
}
use greenlight.Signer.Schedule.{
  SchedulerEvent, approve_pairing, empty_request, closed, run_once_scheduler,
}
use greenlight.Signer.Sign.{
  Hsm, sign_message, StartupMessage, get_startup_messages, handle_all, zip_messages, as_vecs,
}
use greenlight.Signer.Pairing.Signature.{process_pairing_approval_lem}
use greenlight.Signer.Example.{
  invoice, handler, runes, verifier, preapproval, no_state, response, preapproval_run,
}

process_request-preapprove_example : Any (Asks verifier (Pays invoice)) preapproval.requests
process_request-preapprove_example =
    process_request-preapprove handler verifier preapproval no_state no_state invoice response refl
      refl preapproval_run

-- The same request without the pending payment.
abbrev unasked : HsmRequest
unasked = record preapproval { requests = [] }

parsed_empty : from handler.from_slice [] ≡ done no_state
unfolding from parse_entries collect
parsed_empty = refl

unasked_run :
    process_request handler verifier unasked no_state ≡ done (err (resolver invoice []), no_state)
unfolding process_request process_merged context_calls decode_passed answer allow_all
    is_sign_message from parse_entries collect merge merge_loop check_request_auth try_resolve
    match_context needs_no_context
unasked_run = refl

-- Two configurations of a signer that keeps allowlists: the first address is gone.
abbrev as_is : Serde (List (List ℕ)) (List (List ℕ))
as_is = record { to_value = λ v. v; from_value = λ v. some v }

abbrev keeper : Handler (List (List ℕ)) (List ℕ)
keeper = record {
  permissive = true;
  parse_message = λ raw. none;
  parse_invoice = λ text. none;
  ready = true;
  add_invoice = λ inv s. done s;
  handle = λ positive approvals client raw s. done (none, s);
  node_key = some (codes "ab");
  to_vec = λ v. [];
  from_slice = λ b. none;
  allowlist = as_is;
}

abbrev nothing_kept : State (List (List ℕ))
nothing_kept = record { values = [] }

abbrev configurations : List Request
configurations = gl_config_call (codes "bc1a") ∷ gl_config_call (codes "bc1b") ∷ []

as_is-RoundTrips : RoundTrips as_is
as_is-RoundTrips a = refl

-- The node streams both requests and hangs up.
abbrev events : List Event
events = message preapproval true ∷ message unasked true ∷ ended ∷ []

abbrev refusal : HsmResponse
refusal = record { request_id = 4; raw = []; signer_state = []; failed = true }

events_run :
    run_once handler verifier events no_state ≡ done (finished, response ∷ refusal ∷ [], no_state)
unfolding run_once to_response
events_run = rw (preapproval_run, unasked_run) refl

run_once_answers_example : map (λ r. r.request_id) (response ∷ refusal ∷ []) ≡ request_ids events
run_once_answers_example =
    run_once_answers handler verifier events no_state no_state finished (response ∷ refusal ∷ [])
      events_run

-- A device asks for a rune.
abbrev pairing : ApprovePairingRequest
pairing = record {
  device_id = codes "d";
  timestamp = 3;
  device_name = codes "phone";
  restrictions = codes "pubkey=k";
  pubkey = codes "k";
  sig = codes "k";
  rune = codes "pubkey=k";
}

abbrev approval : ApprovePairingResponse
approval = record { device_id = codes "d"; node_id = codes "n"; rune = codes "pubkey=k" }

abbrev decode : List ℕ → Option (List ℕ)
decode text = some text

pairing_run :
    process_pairing_approval verifier.verify decode runes (some 5) (codes "n") pairing ≡ ok approval
unfolding process_pairing_approval pairing_data split_restrictions create_rune parse_restrictions
    has_pubkey_field names_pubkey join verify_rune contains split uri_method method_of_parts
    to_lowercase rune_context check_alternative field_value bytes_eq starts_with
pairing_run = refl

process_pairing_approval_lem_example :
    (verifier.verify pairing.pubkey (pairing_data (codes "n") pairing) pairing.sig ≡ true)
    × ((rune : List ℕ) × (decode pairing.rune ≡ some rune)
        × (verify_rune runes (some 5) (pairing_request pairing rune) ≡ ok tt))
    × ((res : List (List Alternative)) × (parse_restrictions runes
            (split_restrictions pairing.restrictions)
          ≡ ok res)
        × (has_pubkey_field res ≡ true))
    × (create_rune runes none (split_restrictions pairing.restrictions) ≡ ok approval.rune)
    × (approval.device_id ≡ pairing.device_id)
    × (approval.node_id ≡ codes "n")
process_pairing_approval_lem_example =
    process_pairing_approval_lem verifier.verify decode runes (some 5) (codes "n") pairing approval
      pairing_run

-- The scheduler asks for the pairing, and closes the stream.
abbrev scheduler_events : List SchedulerEvent
scheduler_events = empty_request ∷ approve_pairing 9 pairing ∷ closed ∷ []

-- One pairing is approved.
scheduler_run :
    run_once_scheduler verifier.verify decode runes (some 5) (codes "n") scheduler_events
    ≡ (false, (record { request_id = 9; response = approval }) ∷ [])
unfolding run_once_scheduler
scheduler_run = rw pairing_run refl

-- A handler that signs with a constant, 67 bytes long.
abbrev repeat : ℕ → List ℕ
repeat zero = []
repeat (suc n) = 1 ∷ repeat n

abbrev hsm : Hsm (List ℕ)
hsm = record {
  ready = true;
  sign = λ msg. some (repeat 67);
  from_vec = λ b. some b;
  handle = λ m. some (5 ∷ m);
}

signed_run : sign_message hsm (codes "hi") ≡ done (repeat 64, 1)
unfolding sign_message
signed_run = refl

abbrev startup : List StartupMessage
startup =
    (record { request = codes "i"; response = codes "I" })
    ∷ (record { request = codes "s"; response = 5 ∷ codes "s" })
    ∷ []

startup_run :
    get_startup_messages hsm (λ m. m) (codes "i") (some (some (codes "I"))) (codes "s" ∷ [])
    ≡ done startup
unfolding get_startup_messages handle_all zip_messages as_vecs
startup_run = refl

process_request-resolver_example :
    (handler.permissive ≡ false)
    × (no_state ≡ (merge no_state no_state).0)
    × (invoice ≡ unasked.raw)
    × (context_calls verifier [] ≡ done [])
    × IsUnresolved handler verifier invoice []
process_request-resolver_example =
    process_request-resolver handler verifier unasked no_state no_state no_state invoice []
      parsed_empty unasked_run

get_node_allowlist-allow_all_example :
    get_node_allowlist as_is [] (codes "ab") (allow_all keeper configurations nothing_kept)
    ≡ last_close_to (get_node_allowlist as_is [] (codes "ab") nothing_kept) configurations
get_node_allowlist-allow_all_example =
    get_node_allowlist-allow_all keeper (codes "ab") refl as_is-RoundTrips configurations
      nothing_kept
