-- ===== src/Plugin/Node.antt =====
-- The node service of libs/gl-plugin/src/node/mod.rs, as far as it talks to signers:
-- `stream_hsm_requests`, `respond_hsm_request` and `configure`. serde_json, the state store and the
-- answers of core-lightning are parameters.
pub mod Sync
pub mod Configure
mod Tests
use greenlight.Prelude.{
  ℕ, Bool, true, false, Option, none, some, List, [], ◌∷◌, ◌++◌, map, if◌then◌else◌,
}
use greenlight.Prelude.Run.{Run, done, fail, panic, unwrap, ensure, ok_or, ◌>>=◌}
use greenlight.Persist.Merge.{State, merge}
use greenlight.Persist.Wire.{SignerStateEntry, from, into}
use greenlight.Signer.Model.{PendingRequest}
use greenlight.Signer.Process.{HsmRequest, HsmResponse, HsmContext}
use greenlight.Plugin.Context.{Context, Request, snapshot}
use greenlight.Plugin.Context
use greenlight.Plugin.Stager.{Stage, respond}
use greenlight.Plugin.Stager

-- `cached_gl_config` is SERIALIZED_CONFIGURE_REQUEST, and `stored` what was last written to the store.
pub record Node (V : Type 0) : Type 0 where
  pub signer_state : State V
  pub stored : Option (State V)
  pub stage : Stage
  pub ctx : Context
  pub cached_gl_config : Option (List ℕ)

-- A request of the node's context as text.
pub record Json : Type 0 where
  pub to_string : Request → List ℕ
  pub from_str : List ℕ → Option Request

-- The first message of a stream; `raw` is a heartbeat.
unfoldable pub heartbeat : {V : Type 0} → (V → List ℕ) → List ℕ → Node V → HsmRequest
heartbeat to_vec raw node = record {
  request_id = 0;
  context = none;
  raw = raw;
  signer_state = into to_vec node.signer_state;
  requests = [];
}

unfoldable pub cached_request : Json → Option (List ℕ) → Run (List PendingRequest)
cached_request json none = done []
cached_request json (some text) = do
  configure_request ← unwrap (json.from_str text)
  done (Context.from configure_request ∷ [])

-- A staged request on its way to a signer, with the state, the pending calls and the configuration.
unfoldable pub outgoing :
    {V : Type 0}
    → (V → List ℕ)
    → Json
    → Option HsmContext
    → Stager.Request
    → Node V
    → Run HsmRequest
outgoing to_vec json context r node = do
  configured ← cached_request json node.cached_gl_config
  done (record {
    request_id = r.request.request_id;
    context = context;
    raw = r.request.raw;
    signer_state = into to_vec node.signer_state;
    requests = map Context.from (snapshot node.ctx) ++ configured;
  })

-- Whether the store could be written decides about the response.
unfoldable pub release : {V : Type 0} → Bool → Bool → HsmResponse → Node V → Node V
release false open_ req node = node
release true open_ req node = record node {
  stored = some node.signer_state;
  stage = (respond open_ (record { request_id = req.request_id; raw = req.raw }) node.stage).0;
}

-- The state of an answer is merged before the answer is released.
unfoldable pub commit :
    {V : Type 0} → (List ℕ → Option V) → Bool → Bool → HsmResponse → Node V → Run (Node V)
commit from_slice written open_ req node = do
  new_state ← from from_slice req.signer_state
  done (
      release written open_ req
        (record node { signer_state = (merge node.signer_state new_state).0 }))

-- `written` tells whether the store was written, `open_` whether the requester still waits.
unfoldable pub respond_hsm_request :
    {V : Type 0} → (List ℕ → Option V) → Bool → Bool → HsmResponse → Node V → Run (Node V)
respond_hsm_request from_slice written open_ req node =
    if req.failed then done node else commit from_slice written open_ req node

-- `requests[0]`
abbrev pub first : List Request → Run Request
first [] = panic
first (r ∷ rest) = done r

-- `network` is that of `getinfo`, `is_valid` tells whether the address is one of the network, and
-- `datastored` whether the datastore took the request.
unfoldable pub configure :
    {V N : Type 0} → Json → Option N → (N → Bool) → Bool → Node V → Run (Node V)
configure json network is_valid datastored node = do
  n ← ok_or network
  valid ← ensure (is_valid n)
  request ← first (snapshot node.ctx)
  kept ← ensure datastored
  done (record node { cached_gl_config = some (json.to_string request) })
