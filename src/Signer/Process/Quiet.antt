-- ===== src/Signer/Process/Quiet.antt =====
-- Handling a request comes to a result where the signer library does.
use greenlight.Prelude.{
  ℕ, ◌≡◌, refl, Bool, true, false, Option, none, some, List, ◌==◌, length, [], ◌∷◌, if◌then◌else◌,
}
use greenlight.Prelude.Run.{Run, done, and_then}
use greenlight.Prelude.Outcome.{Result, ok, err}
use greenlight.Persist.Merge.{State}
use greenlight.Signer.Model.{
  Request, gl_config_call, send_pay_call, sign_message_call, fund_channel_call, lsp_invoice_call,
  invoice_call, pay_call, pre_approve_invoice_call, trampoline_pay_call, plain,
}
use greenlight.Signer.Resolve.{Message, try_resolve}
use greenlight.Signer.Auth.{authorize}
use greenlight.Signer.Process.{
  HsmContext, HsmRequest, HsmResponse, SignerError, other, auth, protocol, resolver, response_of,
  handled, handle_in_context, handle_approved, handle_resolved, allow_all,
  update_state_from_request, update_state_from_context, Handler, answer,
}

-- Handling a message and adding an invoice do not panic.
pub record IsQuiet {V I : Type 0} (h : Handler V I) : Type 0 where
  pub add_invoice : (inv : I) (s : State V) → (t : State V) × (h.add_invoice inv s ≡ done t)
  pub handle :
      (positive : Bool) (approvals : List I) (client : Option (List ℕ × ℕ)) (raw : List ℕ)
      (s : State V)
      → (r : Option (List ℕ) × State V) × (h.handle positive approvals client raw s ≡ done r)

module _ {V I : Type 0} (h : Handler V I) (quiet : IsQuiet h) where
  update_state_from_request_returns :
      (c : Request) (s : State V) → (t : State V) × (update_state_from_request h c s ≡ done t)
  unfolding update_state_from_request
  update_state_from_request_returns (send_pay_call none) s = (s, refl)
  update_state_from_request_returns (send_pay_call (some text)) s =
      by_invoice (h.parse_invoice text)
    where
      by_invoice :
          (o : Option I)
          → (t : State V) × (elim o as (λ x. Run (State V)) [
            | none ↦ done s
            | some inv ↦ h.add_invoice inv s
          ]
              ≡ done t)
      by_invoice none = (s, refl)
      by_invoice (some inv) = quiet.add_invoice inv s
  update_state_from_request_returns (sign_message_call m) s = (s, refl)
  update_state_from_request_returns (fund_channel_call id) s = (s, refl)
  update_state_from_request_returns lsp_invoice_call s = (s, refl)
  update_state_from_request_returns invoice_call s = (s, refl)
  update_state_from_request_returns (pay_call b) s = (s, refl)
  update_state_from_request_returns (pre_approve_invoice_call b) s = (s, refl)
  update_state_from_request_returns (trampoline_pay_call b) s = (s, refl)
  update_state_from_request_returns (plain m) s = (s, refl)
  update_state_from_request_returns (gl_config_call addr) s = (s, refl)

  update_state_from_context_returns :
      (calls : List Request) (s : State V)
      → (t : State V) × (update_state_from_context h calls s ≡ done t)
  unfolding update_state_from_context
  update_state_from_context_returns [] s = (s, refl)
  update_state_from_context_returns (c ∷ calls) s =
      let (s1, one) = update_state_from_request_returns c s in
      let (t, rest) = update_state_from_context_returns calls s1 in (t, rw (one, and_then) rest)

  handled_returns :
      (req : HsmRequest) (client : Option (List ℕ × ℕ)) (approvals : List I) (s : State V)
      → (result : Result SignerError HsmResponse × State V) × (handled h req
            (h.handle h.permissive approvals client req.raw s)
          ≡ done result)
  unfolding handled
  handled_returns req client approvals s =
      let (r, run) = quiet.handle h.permissive approvals client req.raw s in
      (response_of h req r, rw run refl)

  handle_in_context_returns :
      (req : HsmRequest) (approvals : List I) (s : State V)
      → (result : Result SignerError HsmResponse × State V) × (handle_in_context h req approvals s
          ≡ done result)
  unfolding handle_in_context
  handle_in_context_returns req approvals s = by_context req.context
    where
      by_size :
          (c : HsmContext) (b : Bool)
          → (result : Result SignerError HsmResponse × State V) × ((if b
                then handled h req
                    (h.handle h.permissive approvals (some (c.node_id, c.dbid)) req.raw s)
                else done (err other, s))
              ≡ done result)
      by_size c true = handled_returns req (some (c.node_id, c.dbid)) approvals s
      by_size c false = ((err other, s), refl)

      by_root :
          (c : HsmContext) (b : Bool)
          → (result : Result SignerError HsmResponse × State V) × ((if b
                then handled h req (h.handle h.permissive approvals none req.raw s)
                else if length c.node_id == 33
                then handled h req
                    (h.handle h.permissive approvals (some (c.node_id, c.dbid)) req.raw s)
                else done (err other, s))
              ≡ done result)
      by_root c true = handled_returns req none approvals s
      by_root c false = by_size c (length c.node_id == 33)

      by_context :
          (o : Option HsmContext)
          → (result : Result SignerError HsmResponse × State V) × (elim o
                as (λ x. Run (Result SignerError HsmResponse × State V)) [
                  | none ↦ handled h req (h.handle h.permissive approvals none req.raw s)
                  | some c ↦
                      if c.dbid == 0
                      then handled h req (h.handle h.permissive approvals none req.raw s)
                      else if length c.node_id == 33
                      then handled h req
                          (h.handle h.permissive approvals (some (c.node_id, c.dbid)) req.raw s)
                      else done (err other, s)
                ]
              ≡ done result)
      by_context none = handled_returns req none approvals s
      by_context (some c) = by_root c (c.dbid == 0)

  handle_approved_returns :
      (req : HsmRequest) (calls : List Request) (approvals : List I) (s : State V)
      → (result : Result SignerError HsmResponse × State V) × (handle_approved h req calls approvals
            s
          ≡ done result)
  unfolding handle_approved
  handle_approved_returns req calls approvals s = by_ready h.ready
    where
      by_ready :
          (b : Bool)
          → (result : Result SignerError HsmResponse × State V) × ((if b
                then and_then
                    (update_state_from_context h calls s)
                    (λ t. handle_in_context h req approvals t)
                else done (err other, s))
              ≡ done result)
      by_ready false = ((err other, s), refl)
      by_ready true =
          let (t, updated) = update_state_from_context_returns calls s in
          let (result, run) = handle_in_context_returns req approvals t in
          (result, rw (updated, and_then) run)

  handle_resolved_returns :
      (req : HsmRequest) (calls : List Request) (s : State V)
      → (result : Result SignerError HsmResponse × State V) × (handle_resolved h req calls s
          ≡ done result)
  unfolding handle_resolved
  handle_resolved_returns req calls s = by_approvals (authorize h.parse_invoice calls)
    where
      by_approvals :
          (r : Result (Unit {0}) (List I))
          → (result : Result SignerError HsmResponse × State V) × (elim r
                as (λ x. Run (Result SignerError HsmResponse × State V)) [
                  | err e ↦ done (err auth, s)
                  | ok approvals ↦ handle_approved h req calls approvals s
                ]
              ≡ done result)
      by_approvals (err e) = ((err auth, s), refl)
      by_approvals (ok approvals) = handle_approved_returns req calls approvals s

  pub answer_returns :
      (req : HsmRequest) (calls : List Request) (s : State V)
      → (result : Result SignerError HsmResponse × State V) × (answer h req calls s ≡ done result)
  unfolding answer
  answer_returns req calls s = by_message (h.parse_message req.raw)
    where
      by_build :
          (b : Bool)
          → (result : Result SignerError HsmResponse × State V) × ((if b
                then handle_resolved h req calls (allow_all h calls s)
                else done (err (resolver req.raw calls), s))
              ≡ done result)
      by_build true = handle_resolved_returns req calls (allow_all h calls s)
      by_build false = ((err (resolver req.raw calls), s), refl)

      by_resolved :
          (r : Result (Message × List Request) (Unit {0}))
          → (result : Result SignerError HsmResponse × State V) × (elim r
                as (λ x. Run (Result SignerError HsmResponse × State V)) [
                  | err e ↦
                      if h.permissive
                      then handle_resolved h req calls (allow_all h calls s)
                      else done (err (resolver req.raw calls), s)
                  | ok u ↦ handle_resolved h req calls (allow_all h calls s)
                ]
              ≡ done result)
      by_resolved (err e) = by_build h.permissive
      by_resolved (ok u) = handle_resolved_returns req calls (allow_all h calls s)

      by_message :
          (o : Option Message)
          → (result : Result SignerError HsmResponse × State V) × (elim o
                as (λ x. Run (Result SignerError HsmResponse × State V)) [
                  | none ↦ done (err protocol, s)
                  | some msg ↦ elim (try_resolve msg calls) [
                    | err e ↦
                        if h.permissive
                        then handle_resolved h req calls (allow_all h calls s)
                        else done (err (resolver req.raw calls), s)
                    | ok u ↦ handle_resolved h req calls (allow_all h calls s)
                  ]
                ]
              ≡ done result)
      by_message none = ((err protocol, s), refl)
      by_message (some msg) = by_resolved (try_resolve msg calls)
