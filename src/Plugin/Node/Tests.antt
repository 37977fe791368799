-- ===== src/Plugin/Node/Tests.antt =====
-- A node that gets the answer of the example's signer, and one that is configured while another call
-- is pending.
use greenlight.Prelude.{
  ℕ, ◌≡◌, ◌⊎◌, refl, true, Option, none, some, List, [], ◌∷◌, ◌++◌, map, codes,
}
use greenlight.Prelude.Run.{done}
use greenlight.Persist.Map.{lookup}
use greenlight.Persist.Merge.{State, merge, merge_loop}
use greenlight.Persist.Merge.Spec.{join}
use greenlight.Persist.Wire.{from, into, into_entries, parse_entries, collect}
use greenlight.Signer.Process.{HsmRequest}
use greenlight.Signer.Example.{
  handler, verifier, preapproval, response, no_state, preapproval_run, Value,
}
use greenlight.Plugin.Context.{Request, Context, snapshot}
use greenlight.Plugin.Context
use greenlight.Plugin.Stager.{respond, find}
use greenlight.Plugin.Stager
use greenlight.Plugin.Node.{
  Node, Json, release, commit, respond_hsm_request, cached_request, configure, outgoing,
}
use greenlight.Plugin.Node.Sync.{respond_hsm_request-stored, lookup-respond_hsm_request}
use greenlight.Plugin.Node.Configure.{outgoing-configure}

abbrev node : Node ℕ
node = record {
  signer_state = record { values = (codes "a", (3, 8)) ∷ [] };
  stored = none;
  stage = Stager.new;
  ctx = Context.new;
  cached_gl_config = none;
}

abbrev committed : Node ℕ
committed = record node { stored = some node.signer_state }

abbrev from_slice : List ℕ → Option ℕ
from_slice b = some 7

committed_run : respond_hsm_request from_slice true true response node ≡ done committed
unfolding respond_hsm_request commit release from parse_entries collect merge merge_loop respond
    find
committed_run = refl

respond_hsm_request-stored_example :
    (committed.stage ≡ node.stage)
    ⊎ ((new_state : State ℕ) × (from from_slice response.signer_state ≡ done new_state)
        × (committed.stored ≡ some (merge node.signer_state new_state).0))
respond_hsm_request-stored_example =
    respond_hsm_request-stored from_slice true true response node committed committed_run

-- The same node with the values of the example's signer.
abbrev node_of_signer : Node Value
node_of_signer = record {
  signer_state = record { values = (codes "a", (3, codes "v")) ∷ [] };
  stored = none;
  stage = Stager.new;
  ctx = Context.new;
  cached_gl_config = none;
}

abbrev node_after : Node Value
node_after = record node_of_signer { stored = some node_of_signer.signer_state }

answered_run :
    respond_hsm_request handler.from_slice true true response node_of_signer ≡ done node_after
unfolding respond_hsm_request commit release from parse_entries collect merge merge_loop respond
    find
answered_run = refl

lookup-respond_hsm_request_example :
    lookup (codes "a") node_after.signer_state.values
    ≡ join
        (lookup (codes "a") node_of_signer.signer_state.values)
        (lookup (codes "a") no_state.values)
lookup-respond_hsm_request_example =
    lookup-respond_hsm_request handler verifier preapproval response no_state no_state true true
      node_of_signer node_after (codes "a") (λ v. refl) tt preapproval_run answered_run

-- A call that is known by its URI.
abbrev call : List ℕ → Request
call uri = record {
  pubkey = codes "k";
  signature = uri;
  rune = [];
  payload = [];
  uri = uri;
  timestamp = none;
}

-- A text that stands for a call with this URI.
abbrev json : Json
json = record { to_string = λ a. a.uri; from_str = λ text. some (call text) }

abbrev busy : Node ℕ
busy = record node {
  ctx = record {
    requests = call (codes "/cln.Node/Pay") ∷ call (codes "/greenlight.Node/Configure") ∷ [];
  };
}

abbrev configured : Node ℕ
configured = record busy { cached_gl_config = some (codes "/cln.Node/Pay") }

configured_run : configure {N = ℕ} json (some 1) (λ n. true) true busy ≡ done configured
unfolding configure snapshot
configured_run = refl

abbrev staged : Stager.Request
staged = record { request = record { request_id = 1000; raw = 0 ∷ 18 ∷ [] }; response = 0 }

abbrev sent : HsmRequest
sent = record {
  request_id = 1000;
  context = none;
  raw = 0 ∷ 18 ∷ [];
  signer_state = (record { key = codes "a"; value = []; version = 3 }) ∷ [];
  requests = map Context.from busy.ctx.requests ++ Context.from (call (codes "/cln.Node/Pay")) ∷ [];
}

sent_run : outgoing (λ v. []) json none staged configured ≡ done sent
unfolding outgoing cached_request snapshot into into_entries
sent_run = refl

outgoing-configure_example :
    sent.requests
    ≡ map Context.from busy.ctx.requests ++ Context.from (call (codes "/cln.Node/Pay")) ∷ []
outgoing-configure_example =
    outgoing-configure {N = ℕ} (λ v. []) json (some 1) (λ n. true) true busy configured
      (call (codes "/cln.Node/Pay")) (call (codes "/greenlight.Node/Configure") ∷ []) none staged
      sent refl refl configured_run sent_run
