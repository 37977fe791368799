-- ===== src/Signer/Process/Refused.antt =====
-- What an answer carries, and what a refusal leaves behind.
use greenlight.Prelude.{
  ℕ, ◌≡◌, refl, Bool, true, false, Option, none, some, List, ◌∷◌, arith, Bool-cases, inl, inr, ◌==◌,
  if◌then◌else◌, length,
}
use greenlight.Prelude.Run.{Run, done, and_then, >>=-eq-done}
use greenlight.Prelude.Outcome.{Result, ok, err}
use greenlight.Persist.Merge.{State, merge}
use greenlight.Persist.Wire.{from, into}
use greenlight.Signer.Model.{Request}
use greenlight.Signer.Auth.{authorize}
use greenlight.Signer.Process.{
  HsmContext, HsmRequest, HsmResponse, other, response_of, handled, Handler, Verifier,
  is_sign_message, context_calls, answer, handle_in_context, handle_approved, handle_resolved,
  process_merged, process_request, allow_all, update_state_from_context,
}

module _ {V I R : Type 0} (h : Handler V I) (v : Verifier R) where
  -- A sign-message request is refused whatever is pending, and the state it came with is merged.
  pub process_request_sign_message :
      (req : HsmRequest) (s diff : State V) (rest : List ℕ)
      → req.raw ≡ 0 ∷ 23 ∷ rest
      → from h.from_slice req.signer_state ≡ done diff
      → process_request h v req s ≡ done (err other, (merge s diff).0)
  unfolding process_request process_merged is_sign_message
  process_request_sign_message req s diff rest raw e = ground (arith, raw, e)

  abbrev pub Carries : HsmRequest → HsmResponse → State V → Type 0
  Carries req resp s =
      (resp.request_id ≡ req.request_id)
      × (resp.signer_state ≡ into h.to_vec s)
      × (resp.failed ≡ false)

  handled-Carries :
      (req : HsmRequest) (run : Run (Option (List ℕ) × State V)) (s' : State V) (resp : HsmResponse)
      → handled h req run ≡ done (ok resp, s')
      → Carries req resp s'
  unfolding handled
  handled-Carries req run s' resp e =
      let ((raw, t), ran, last) = >>=-eq-done run _ e in of_raw raw t last
    where
      of_raw :
          (raw : Option (List ℕ)) (t : State V)
          → done (response_of h req (raw, t)) ≡ done (ok resp, s')
          → Carries req resp s'
      of_raw none t q = absurd (ground (arith, q))
      of_raw (some raw) t q = ground (arith, q)

  handle_in_context-Carries :
      (req : HsmRequest) (approvals : List I) (s s' : State V) (resp : HsmResponse)
      → handle_in_context h req approvals s ≡ done (ok resp, s')
      → Carries req resp s'
  unfolding handle_in_context
  handle_in_context-Carries req approvals s s' resp e = in_context req.context e
    where
      in_context :
          (context : Option HsmContext)
          → elim context [
            | none ↦ handled h req (h.handle h.permissive approvals none req.raw s)
            | some c ↦
                if c.dbid == 0
                then handled h req (h.handle h.permissive approvals none req.raw s)
                else if length c.node_id == 33
                then handled h req
                    (h.handle h.permissive approvals (some (c.node_id, c.dbid)) req.raw s)
                else done (err other, s)
          ]
            ≡ done (ok resp, s')
          → Carries req resp s'
      in_context none q = handled-Carries req _ s' resp q
      in_context (some c) q = elim (Bool-cases (c.dbid == 0)) [
        | inl root ↦ handled-Carries req _ s' resp (rw root at q)
        | inr client ↦ elim (Bool-cases (length c.node_id == 33)) [
          | inl peer ↦ handled-Carries req _ s' resp (rw (client, peer) at q)
          | inr bad ↦ absurd (ground (arith, client, bad, q))
        ]
      ]

  handle_resolved-Carries :
      (req : HsmRequest) (calls : List Request) (s s' : State V) (resp : HsmResponse)
      → handle_resolved h req calls s ≡ done (ok resp, s')
      → Carries req resp s'
  unfolding handle_resolved handle_approved
  handle_resolved-Carries req calls s s' resp e = authorized (authorize h.parse_invoice calls) refl
    where
      authorized :
          (r : Result (Unit {0}) (List I))
          → authorize h.parse_invoice calls ≡ r
          → Carries req resp s'
      authorized (err u) q = absurd (ground (arith, q, e))
      authorized (ok approvals) q =
          when_ready h.ready (rw (handle_resolved, q, handle_approved) at e)
        where
          when_ready :
              (ready : Bool)
              → (if ready
                  then and_then
                      (update_state_from_context h calls s)
                      (λ t. handle_in_context h req approvals t)
                  else done (err other, s))
                ≡ done (ok resp, s')
              → Carries req resp s'
          when_ready false r = absurd (ground (arith, r))
          when_ready true r =
              let (t, updated, last) = >>=-eq-done (update_state_from_context h calls s) _ r in
              handle_in_context-Carries req approvals t s' resp last

  answer-Carries :
      (req : HsmRequest) (calls : List Request) (s s' : State V) (resp : HsmResponse)
      → answer h req calls s ≡ done (ok resp, s')
      → Carries req resp s'
  unfolding answer
  answer-Carries req calls s s' resp e =
      ground (arith, e, handle_resolved-Carries req calls (allow_all h calls s) s' resp)

  -- An answer has the id of its request, no error, and all of the signer's state as it is then.
  pub process_request-Carries :
      (req : HsmRequest) (s s' : State V) (resp : HsmResponse)
      → process_request h v req s ≡ done (ok resp, s')
      → Carries req resp s'
  unfolding process_request process_merged
  process_request-Carries req s s' resp e =
      let (diff, parsed, e') = >>=-eq-done (from h.from_slice req.signer_state) _ e in
      merged (merge s diff).0 e'
    where
      merged : (t : State V) → process_merged h v req t ≡ done (ok resp, s') → Carries req resp s'
      merged t q = elim (Bool-cases (is_sign_message req.raw)) [
        | inl refused ↦ absurd (ground (arith, refused, q))
        | inr other_type ↦
            let (calls, decoded, last) =
              >>=-eq-done (context_calls v req.requests) (λ calls. answer h req calls t)
                (rw other_type at q) in
            answer-Carries req calls t s' resp last
      ]
