-- ===== src/Signer/Process.antt =====
-- `process_request` of libs/gl-client/src/signer/mod.rs: what a signer does with one request of the
-- node. The signer library VLS is the record `Handler`, which also says whether the signer is built with
-- the feature `permissive`, as it is by default. Reports to the scheduler are left out.
pub mod Justified
pub mod Refused
pub mod Rejected
pub mod Allowlist
pub mod Quiet
pub mod Returns
mod Tests
use greenlight.Prelude.{
  ℕ, ◌+◌, ◌*◌, Bool, true, false, Option, none, some, List, [], ◌∷◌, ◌==◌, if◌then◌else◌, length,
}
use greenlight.Prelude.Run.{Run, done, panic, and_then}
use greenlight.Prelude.Outcome.{Result, ok, err}
use greenlight.Persist.Map.{Key}
use greenlight.Persist.Merge.{State, merge}
use greenlight.Persist.Wire.{SignerStateEntry, from, into}
use greenlight.Persist.Store.{Serde, update_node_allowlist}
use greenlight.Signer.Model.{
  PendingRequest, Request, gl_config_call, send_pay_call, Decoders, decode_request,
}
use greenlight.Signer.Resolve.{Message, try_resolve}
use greenlight.Signer.Auth.{authorize}
use greenlight.Signer.Rune.{Runes}
use greenlight.Signer.Check.{AuthError, check_request_auth}

-- `HsmRequestContext`
pub record HsmContext : Type 0 where
  pub node_id : List ℕ
  pub dbid : ℕ

pub record HsmRequest : Type 0 where
  pub request_id : ℕ
  pub context : Option HsmContext
  pub raw : List ℕ
  pub signer_state : List SignerStateEntry
  pub requests : List PendingRequest

-- The text of an error is not kept: `failed` stands for one that is not empty.
pub record HsmResponse : Type 0 where
  pub request_id : ℕ
  pub raw : List ℕ
  pub signer_state : List SignerStateEntry
  pub failed : Bool

-- The errors of `process_request`.
pub data SignerError : Type 0 where
  resolver : List ℕ → List Request → SignerError
  protocol : SignerError
  auth : SignerError
  other : SignerError

-- What VLS does: it parses messages and invoices, makes a handler, adds an invoice to the node's state,
-- and handles a message for the node, or for the peer and the channel of a client, which may fail and
-- may change the state. Both write through the signer's persister, which may panic. The first argument of
-- `handle` is the approver for what is not among the approvals: true for `PositiveApprover`, false for
-- `NegativeApprover`. `node_key` is the hex of the node's public key, if the id is one.
pub record Handler (V I : Type 0) : Type 0 where
  pub permissive : Bool
  pub parse_message : List ℕ → Option Message
  pub parse_invoice : List ℕ → Option I
  pub ready : Bool
  pub add_invoice : I → State V → Run (State V)
  pub handle :
      Bool → List I → Option (List ℕ × ℕ) → List ℕ → State V → Run (Option (List ℕ) × State V)
  pub node_key : Option Key
  pub to_vec : V → List ℕ
  pub from_slice : List ℕ → Option V
  pub allowlist : Serde V (List (List ℕ))

-- What authenticates the pending requests.
pub record Verifier (R : Type 0) : Type 0 where
  pub verify : List ℕ → List ℕ → List ℕ → Bool
  pub runes : Runes R
  pub now : Option ℕ
  pub decoders : Decoders

-- Type 23 is `sign-message`; a message of less than two bytes has no type.
unfoldable pub is_sign_message : List ℕ → Bool
is_sign_message (h ∷ l ∷ rest) = h * 256 + l == 23
is_sign_message (h ∷ []) = false
is_sign_message [] = false

abbrev pub keep_call : Option Request → List Request → List Request
keep_call none calls = calls
keep_call (some c) calls = c ∷ calls

-- The requests that passed, decoded; those that cannot be decoded are dropped.
unfoldable pub decode_passed :
    Decoders → List (Result AuthError PendingRequest) → Run (List Request)
decode_passed d [] = done []
decode_passed d (err e ∷ more) = decode_passed d more
decode_passed d (ok r ∷ more) =
    and_then (decode_request d r)
      (λ c. and_then (decode_passed d more) (λ calls. done (keep_call c calls)))

unfoldable pub context_calls : {R : Type 0} → Verifier R → List PendingRequest → Run (List Request)
context_calls v requests =
    decode_passed v.decoders (check_request_auth v.verify v.runes v.now requests)

module _ {V I : Type 0} (h : Handler V I) where
  -- The `close_to_addr` of a configuration becomes the allowlist of the node.
  unfoldable pub allow : List ℕ → State V → State V
  allow addr s = elim h.node_key [
    | none ↦ s
    | some key ↦ update_node_allowlist h.allowlist key (addr ∷ []) s
  ]

  unfoldable pub allow_all : List Request → State V → State V
  allow_all [] s = s
  allow_all (c ∷ calls) s =
      allow_all calls (elim c [ gl_config_call addr ↦ allow addr s | other_call ↦ s ])

  -- The invoice of a `sendpay`; one that cannot be parsed is ignored.
  unfoldable pub update_state_from_request : Request → State V → Run (State V)
  update_state_from_request c s = elim c [
    | send_pay_call bolt11 ↦ elim bolt11 [
      | none ↦ done s
      | some text ↦ elim (h.parse_invoice text) [ none ↦ done s | some inv ↦ h.add_invoice inv s ]
    ]
    | other_call ↦ done s
  ]

  unfoldable pub update_state_from_context : List Request → State V → Run (State V)
  update_state_from_context [] s = done s
  update_state_from_context (c ∷ calls) s =
      and_then (update_state_from_request c s) (λ t. update_state_from_context calls t)

  abbrev pub response_of :
      HsmRequest → Option (List ℕ) × State V → Result SignerError HsmResponse × State V
  response_of req (none, s) = (err other, s)
  response_of req (some raw, s) = (
    ok (record {
      request_id = req.request_id;
      raw = raw;
      signer_state = into h.to_vec s;
      failed = false;
    }),
    s,
  )

  unfoldable pub handled :
      HsmRequest → Run (Option (List ℕ) × State V) → Run (Result SignerError HsmResponse × State V)
  handled req run = and_then run (λ r. done (response_of req r))

  -- The node itself, or the peer of a client, whose id has 33 bytes.
  unfoldable pub handle_in_context :
      HsmRequest → List I → State V → Run (Result SignerError HsmResponse × State V)
  handle_in_context req approvals s = elim req.context [
    | none ↦ handled req (h.handle h.permissive approvals none req.raw s)
    | some c ↦
        if c.dbid == 0
        then handled req (h.handle h.permissive approvals none req.raw s)
        else if length c.node_id == 33
        then handled req (h.handle h.permissive approvals (some (c.node_id, c.dbid)) req.raw s)
        else done (err other, s)
  ]

  unfoldable pub handle_approved :
      HsmRequest → List Request → List I → State V → Run (Result SignerError HsmResponse × State V)
  handle_approved req calls approvals s =
      if h.ready
      then and_then (update_state_from_context calls s) (λ t. handle_in_context req approvals t)
      else done (err other, s)

  -- A request that is resolved.
  unfoldable pub handle_resolved :
      HsmRequest → List Request → State V → Run (Result SignerError HsmResponse × State V)
  handle_resolved req calls s = elim (authorize h.parse_invoice calls) [
    | err e ↦ done (err auth, s)
    | ok approvals ↦ handle_approved req calls approvals s
  ]

  -- A request with the calls of its context. A permissive signer goes on where the resolver refuses.
  unfoldable pub answer :
      HsmRequest → List Request → State V → Run (Result SignerError HsmResponse × State V)
  answer req calls s = elim (h.parse_message req.raw) [
    | none ↦ done (err protocol, s)
    | some msg ↦ elim (try_resolve msg calls) [
      | err e ↦
          if h.permissive
          then handle_resolved req calls (allow_all calls s)
          else done (err (resolver req.raw calls), s)
      | ok u ↦ handle_resolved req calls (allow_all calls s)
    ]
  ]

  unfoldable pub process_merged :
      {R : Type 0}
      → Verifier R
      → HsmRequest
      → State V
      → Run (Result SignerError HsmResponse × State V)
  process_merged v req s =
      if is_sign_message req.raw
      then done (err other, s)
      else and_then (context_calls v req.requests) (λ calls. answer req calls s)

  -- The result, and the state afterwards: what was merged stays merged after an error.
  unfoldable pub process_request :
      {R : Type 0}
      → Verifier R
      → HsmRequest
      → State V
      → Run (Result SignerError HsmResponse × State V)
  process_request v req s =
      and_then (from h.from_slice req.signer_state) (λ diff. process_merged v req (merge s diff).0)
