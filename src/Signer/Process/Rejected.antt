-- ===== src/Signer/Process/Rejected.antt =====
-- When the resolver's refusal is the result.
use greenlight.Prelude.{
  ℕ, ◌≡◌, refl, Bool, true, false, Option, none, some, List, arith, Bool-cases, inl, inr, ◌==◌,
  if◌then◌else◌, length,
}
use greenlight.Prelude.Run.{Run, done, and_then, >>=-eq-done}
use greenlight.Prelude.Outcome.{Result, ok, err}
use greenlight.Persist.Merge.{State, merge}
use greenlight.Persist.Wire.{from}
use greenlight.Signer.Model.{Request}
use greenlight.Signer.Resolve.{Message, try_resolve}
use greenlight.Signer.Auth.{authorize}
use greenlight.Signer.Process.{
  HsmContext, HsmRequest, resolver, other, response_of, handled, Handler, Verifier, is_sign_message,
  context_calls, answer, handle_in_context, handle_approved, handle_resolved, process_merged,
  process_request, allow_all, update_state_from_context,
}

module _ {V I R : Type 0} (h : Handler V I) (v : Verifier R) where
  handled-not :
      (req : HsmRequest) (run : Run (Option (List ℕ) × State V)) (s' : State V) (raw : List ℕ)
      (calls : List Request)
      → handled h req run ≡ done (err (resolver raw calls), s')
      → ⊥
  unfolding handled
  handled-not req run s' raw calls e =
      let ((reply, t), ran, last) = >>=-eq-done run _ e in of_reply reply t last
    where
      of_reply :
          (reply : Option (List ℕ)) (t : State V)
          → done (response_of h req (reply, t)) ≡ done (err (resolver raw calls), s')
          → ⊥
      of_reply none t q = ground (arith, q)
      of_reply (some bytes) t q = ground (arith, q)

  handle_in_context-not :
      (req : HsmRequest) (approvals : List I) (s s' : State V) (raw : List ℕ) (calls : List Request)
      → handle_in_context h req approvals s ≡ done (err (resolver raw calls), s')
      → ⊥
  unfolding handle_in_context
  handle_in_context-not req approvals s s' raw calls e = in_context req.context e
    where
      in_context :
          (context : Option HsmContext)
          → elim context [
            | none ↦ handled h req (h.handle h.permissive approvals none req.raw s)
            | some c ↦
                if c.dbid == 0
                then handled h req (h.handle h.permissive approvals none req.raw s)
                else if length c.node_id == 33
                then handled h req
                    (h.handle h.permissive approvals (some (c.node_id, c.dbid)) req.raw s)
                else done (err other, s)
          ]
            ≡ done (err (resolver raw calls), s')
          → ⊥
      in_context none q = handled-not req _ s' raw calls q
      in_context (some c) q = elim (Bool-cases (c.dbid == 0)) [
        | inl root ↦ handled-not req _ s' raw calls (rw root at q)
        | inr client ↦ elim (Bool-cases (length c.node_id == 33)) [
          | inl peer ↦ handled-not req _ s' raw calls (rw (client, peer) at q)
          | inr bad ↦ ground (arith, client, bad, q)
        ]
      ]

  handle_resolved-not :
      (req : HsmRequest) (calls : List Request) (s s' : State V) (raw : List ℕ)
      (calls' : List Request)
      → handle_resolved h req calls s ≡ done (err (resolver raw calls'), s')
      → ⊥
  unfolding handle_resolved handle_approved
  handle_resolved-not req calls s s' raw calls' e =
      authorized (authorize h.parse_invoice calls) refl
    where
      authorized : (r : Result (Unit {0}) (List I)) → authorize h.parse_invoice calls ≡ r → ⊥
      authorized (err u) q = ground (arith, q, e)
      authorized (ok approvals) q =
          when_ready h.ready (rw (handle_resolved, q, handle_approved) at e)
        where
          when_ready :
              (ready : Bool)
              → (if ready
                  then and_then
                      (update_state_from_context h calls s)
                      (λ t. handle_in_context h req approvals t)
                  else done (err other, s))
                ≡ done (err (resolver raw calls'), s')
              → ⊥
          when_ready false r = ground (arith, r)
          when_ready true r =
              let (t, updated, last) = >>=-eq-done (update_state_from_context h calls s) _ r in
              handle_in_context-not req approvals t s' raw calls' last

  -- The message is parsed and the calls do not resolve it.
  abbrev pub IsUnresolved : List ℕ → List Request → Type 0
  IsUnresolved raw calls =
      (msg : Message) × (h.parse_message raw ≡ some msg)
      × ((e : Message × List Request) × (try_resolve msg calls ≡ err e))

  answer-resolver :
      (req : HsmRequest) (calls calls' : List Request) (s s' : State V) (raw : List ℕ)
      → answer h req calls s ≡ done (err (resolver raw calls'), s')
      → (h.permissive ≡ false)
        × (s' ≡ s)
        × (raw ≡ req.raw)
        × (calls' ≡ calls)
        × IsUnresolved req.raw calls
  unfolding answer
  answer-resolver req calls calls' s s' raw e = by_message (h.parse_message req.raw) refl
    where
      by_resolved :
          (msg : Message)
          → h.parse_message req.raw ≡ some msg
          → (x : Result (Message × List Request) (Unit {0})) → try_resolve msg calls ≡ x
          → (h.permissive ≡ false)
            × (s' ≡ s)
            × (raw ≡ req.raw)
            × (calls' ≡ calls)
            × IsUnresolved req.raw calls
      by_resolved msg parsed (ok u) q = absurd (
          handle_resolved-not req calls (allow_all h calls s) s' raw calls'
            (ground (arith, parsed, q, e)))
      by_resolved msg parsed (err x) q = elim (Bool-cases h.permissive) [
        | inl permits ↦ absurd (
            handle_resolved-not req calls (allow_all h calls s) s' raw calls'
              (ground (arith, parsed, q, permits, e)))
        | inr strict ↦ (
          strict,
          ground (arith, parsed, q, strict, e),
          ground (arith, parsed, q, strict, e),
          ground (arith, parsed, q, strict, e),
          (msg, parsed, (x, q)),
        )
      ]

      by_message :
          (o : Option Message)
          → h.parse_message req.raw ≡ o
          → (h.permissive ≡ false)
            × (s' ≡ s)
            × (raw ≡ req.raw)
            × (calls' ≡ calls)
            × IsUnresolved req.raw calls
      by_message none parsed = absurd (ground (arith, parsed, e))
      by_message (some msg) parsed = by_resolved msg parsed (try_resolve msg calls) refl

  -- A request ends with the resolver's error only at a signer that is built without the feature
  -- `permissive`. Then the resolver refused the request's message with the calls of its context, which
  -- the error holds, and the signer's state is its own merged with the request's and nothing else: no
  -- allowlist was changed and no message handled.
  pub process_request-resolver :
      (req : HsmRequest) (s s' diff : State V) (raw : List ℕ) (calls : List Request)
      → from h.from_slice req.signer_state ≡ done diff
      → process_request h v req s ≡ done (err (resolver raw calls), s')
      → (h.permissive ≡ false)
        × (s' ≡ (merge s diff).0)
        × (raw ≡ req.raw)
        × (context_calls v req.requests ≡ done calls)
        × IsUnresolved req.raw calls
  unfolding process_request process_merged
  process_request-resolver req s s' diff raw calls parsed e =
      merged (merge s diff).0 (rw (parsed, and_then) at e)
    where
      merged :
          (t : State V)
          → process_merged h v req t ≡ done (err (resolver raw calls), s')
          → (h.permissive ≡ false)
            × (s' ≡ t)
            × (raw ≡ req.raw)
            × (context_calls v req.requests ≡ done calls)
            × IsUnresolved req.raw calls
      merged t q = elim (Bool-cases (is_sign_message req.raw)) [
        | inl refused ↦ absurd (ground (arith, refused, q))
        | inr other_type ↦
            let (found, decoded, last) =
              >>=-eq-done (context_calls v req.requests) (λ calls. answer h req calls t)
                (rw other_type at q) in
            let (strict, kept, same, same_calls, unresolved) =
              answer-resolver req found calls t s' raw last in
            (strict, kept, same, rw same_calls decoded, rw same_calls unresolved)
      ]
