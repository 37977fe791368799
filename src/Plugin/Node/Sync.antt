-- ===== src/Plugin/Node/Sync.antt =====
-- The states of the node and of the signer after an answer.
use greenlight.Prelude.{
  ℕ, ◌≡◌, ◌⊎◌, refl, ap, inl, inr, Bool, true, false, Option, some, List, if◌then◌else◌,
}
use greenlight.Prelude.Run.{done, done_injective, >>=-eq-done}
use greenlight.Prelude.Outcome.{ok}
use greenlight.Persist.Map.{Key, lookup}
use greenlight.Persist.Merge.{State, merge}
use greenlight.Persist.Merge.Spec.{IsValid, join, lookup-merge}
use greenlight.Persist.Wire.{from, from-into}
use greenlight.Signer.Process.{HsmRequest, HsmResponse, Handler, Verifier, process_request}
use greenlight.Signer.Process.Refused.{process_request-Carries}
use greenlight.Plugin.Node.{Node, release, commit, respond_hsm_request}

release_signer_state :
    {V : Type 0} (written open_ : Bool) (req : HsmResponse) (n : Node V)
    → (release written open_ req n).signer_state ≡ n.signer_state
unfolding release
release_signer_state true open_ req n = refl
release_signer_state false open_ req n = refl

release_stored :
    {V : Type 0} (written open_ : Bool) (req : HsmResponse) (n : Node V)
    → ((release written open_ req n).stage ≡ n.stage)
      ⊎ ((release written open_ req n).stored ≡ some n.signer_state)
unfolding release
release_stored true open_ req n = inr refl
release_stored false open_ req n = inl refl

-- An answer is handed to core-lightning only if the state that came with it is stored too: where a
-- response changes the stage, the store holds the merge of the node's state with the state of the response.
pub respond_hsm_request-stored :
    {V : Type 0} (from_slice : List ℕ → Option V) (written open_ : Bool) (req : HsmResponse)
    (node node' : Node V)
    → respond_hsm_request from_slice written open_ req node ≡ done node'
    → (node'.stage ≡ node.stage)
      ⊎ ((new_state : State V) × (from from_slice req.signer_state ≡ done new_state)
          × (node'.stored ≡ some (merge node.signer_state new_state).0))
unfolding respond_hsm_request commit
respond_hsm_request-stored {V} from_slice written open_ req node node' h = by_flag req.failed h
  where
    by_flag :
        (failed : Bool)
        → (if failed then done node else commit from_slice written open_ req node) ≡ done node'
        → (node'.stage ≡ node.stage)
          ⊎ ((new_state : State V) × (from from_slice req.signer_state ≡ done new_state)
              × (node'.stored ≡ some (merge node.signer_state new_state).0))
    by_flag true e = inl (ap (λ n. n.stage) (done_injective node node' e))
    by_flag false e =
        let (new_state, parsed, e') = >>=-eq-done (from from_slice req.signer_state) _ e in
        rw (done_injective _ node' e')
          (elim (release_stored written open_ req
            (record node { signer_state = (merge node.signer_state new_state).0 })) [
              | inl same ↦ inl same
              | inr kept ↦ inr (new_state, parsed, kept)
            ])

module _ {V I R : Type 0} (h : Handler V I) (v : Verifier R) where
  -- If reading inverts writing of values, and a signer whose state is valid afterwards has answered a
  -- request, then the answer leaves the node, under every key, with the newer one of its own entry
  -- and the signer's, of equal versions its own.
  pub lookup-respond_hsm_request :
      (req : HsmRequest) (resp : HsmResponse) (s s' : State V) (written open_ : Bool)
      (node node' : Node V) (k : Key)
      → ((a : V) → h.from_slice (h.to_vec a) ≡ some a)
      → IsValid s'
      → process_request h v req s ≡ done (ok resp, s')
      → respond_hsm_request h.from_slice written open_ resp node ≡ done node'
      → lookup k node'.signer_state.values
        ≡ join (lookup k node.signer_state.values) (lookup k s'.values)
  unfolding respond_hsm_request commit
  lookup-respond_hsm_request req resp s s' written open_ node node' k back valid answered e =
      let (same_id, state, success) = process_request-Carries h v req s s' resp answered in
      let merged = rw (success, state, from-into h.to_vec h.from_slice s' back valid) at e in
      rw (done_injective _ node' merged, release_signer_state written open_)
        (lookup-merge k node.signer_state s' valid)
