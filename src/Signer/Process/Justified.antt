-- ===== src/Signer/Process/Justified.antt =====
-- What the signer preapproves is justified by a signed call of the user.
use greenlight.Prelude.{
  ℕ, ◌≡◌, ◌⊎◌, refl, inl, inr, Bool, true, false, Option, none, some, List, [], ◌∷◌, Any, arith,
  Bool-cases,
}
use greenlight.Prelude.Run.{Run, done, >>=-eq-done}
use greenlight.Prelude.Outcome.{Result, ok, err, map_err, >>=-eq-ok}
use greenlight.Persist.Merge.{State, merge}
use greenlight.Persist.Wire.{from}
use greenlight.Signer.Model.{PendingRequest, Request, decode_request}
use greenlight.Signer.Resolve.{Message, preapprove_invoice, try_resolve}
use greenlight.Signer.Resolve.Matches.{Pays, try_resolve-Pays}
use greenlight.Signer.Rune.{verify_rune}
use greenlight.Signer.Check.{
  AuthError, bad_rune, is_complete, signed_data, check_one, check_request_auth, signature_check,
}
use greenlight.Signer.Process.{
  HsmRequest, HsmResponse, Handler, Verifier, is_sign_message, decode_passed, keep_call,
  context_calls, answer, process_merged, process_request,
}

-- All fields are there, the signature is one of the public key over the payload and the timestamp,
-- and the rune allows this public key the call.
abbrev pub IsAuthentic : {R : Type 0} → Verifier R → PendingRequest → Type 0
IsAuthentic v r =
    (is_complete r ≡ true)
    × (v.verify r.pubkey (signed_data r) r.signature ≡ true)
    × (verify_rune v.runes v.now r ≡ ok tt)

-- The request is authentic and decodes to a call with the property.
abbrev pub Asks : {R : Type 0} → Verifier R → (Request → Type 0) → PendingRequest → Type 0
Asks v P r = IsAuthentic v r × ((c : Request) × (decode_request v.decoders r ≡ done (some c)) × P c)

signature_check-ok : (b : Bool) → signature_check b ≡ ok tt → b ≡ true
signature_check-ok true h = refl
signature_check-ok false h = cc

module _ {R : Type 0} (v : Verifier R) where
  pub check_one-ok :
      (r r' : PendingRequest)
      → check_one v.verify v.runes v.now r ≡ ok r'
      → (r' ≡ r)
        × (v.verify r.pubkey (signed_data r) r.signature ≡ true)
        × (verify_rune v.runes v.now r ≡ ok tt)
  unfolding check_one
  check_one-ok r r' h =
      let signature = v.verify r.pubkey (signed_data r) r.signature in
      let (u, signed, h') = >>=-eq-ok (signature_check signature) _ h in
      let (w, allowed, last) = >>=-eq-ok (map_err bad_rune (verify_rune v.runes v.now r)) _ h' in
      (ground arith, signature_check-ok signature signed, ground arith)

  -- One request that passed, and the calls of those behind it.
  decode_passed-Any :
      (P : Request → Type 0) (r : PendingRequest) (reqs : List PendingRequest)
      (more : List (Result AuthError PendingRequest)) (calls : List Request)
      → IsAuthentic v r
      → decode_passed v.decoders (ok r ∷ more) ≡ done calls
      → Any P calls
      → ((later : List Request)
          → decode_passed v.decoders more ≡ done later
          → Any P later
          → Any (Asks v P) reqs)
      → Any (Asks v P) (r ∷ reqs)
  unfolding decode_passed
  decode_passed-Any P r reqs more calls auth h a ih =
      let (c, decoded, h') = >>=-eq-done (decode_request v.decoders r) _ h in
      let (later, rest, last) = >>=-eq-done (decode_passed v.decoders more) _ h' in
      kept c decoded later rest last
    where
      kept :
          (c : Option Request)
          → decode_request v.decoders r ≡ done c
          → (later : List Request) → decode_passed v.decoders more ≡ done later
          → ◌≡◌ {A = Run (List Request)} (done (keep_call c later)) (done calls)
          → Any (Asks v P) (r ∷ reqs)
      kept none decoded later rest last =
          let same : later ≡ calls = ground arith in inr (ih later rest (rw same a))
      kept (some c) decoded later rest last = split (rw (← (same last)) at a)
        where
          same : ◌≡◌ {A = Run (List Request)} (done (c ∷ later)) (done calls) → c ∷ later ≡ calls
          same q = ground arith

          split : P c ⊎ Any P later → Any (Asks v P) (r ∷ reqs)
          split (inl p) = inl (auth, (c, decoded, p))
          split (inr p) = inr (ih later rest p)

  checked-Any :
      (P : Request → Type 0) (r : PendingRequest) (reqs : List PendingRequest)
      (more : List (Result AuthError PendingRequest)) (calls : List Request)
      → is_complete r ≡ true
      → (x : Result AuthError PendingRequest) → check_one v.verify v.runes v.now r ≡ x
      → decode_passed v.decoders (x ∷ more) ≡ done calls
      → Any P calls
      → ((later : List Request)
          → decode_passed v.decoders more ≡ done later
          → Any P later
          → Any (Asks v P) reqs)
      → Any (Asks v P) (r ∷ reqs)
  checked-Any P r reqs more calls complete (err e) x h a ih =
      inr (ih calls (unfold decode_passed in h) a)
  checked-Any P r reqs more calls complete (ok r') x h a ih =
      let (same, signed, allowed) = check_one-ok r r' x in
      decode_passed-Any P r reqs more calls (complete, signed, allowed) (rw same at h) a ih

  check_request_auth-Any :
      (P : Request → Type 0) (reqs : List PendingRequest) (calls : List Request)
      → decode_passed v.decoders (check_request_auth v.verify v.runes v.now reqs) ≡ done calls
      → Any P calls
      → Any (Asks v P) reqs
  unfolding check_request_auth
  check_request_auth-Any P [] calls h a = unfold decode_passed in no_calls h a
    where
      no_calls : ◌≡◌ {A = Run (List Request)} (done []) (done calls) → Any P calls → ⊥
      no_calls q b = let none_left : [] ≡ calls = ground arith in rw (← none_left) at b
  check_request_auth-Any P (r ∷ reqs) calls h a = elim (Bool-cases (is_complete r)) [
    | inr dropped ↦ inr (check_request_auth-Any P reqs calls (rw dropped at h) a)
    | inl complete ↦
        checked-Any P r reqs (check_request_auth v.verify v.runes v.now reqs) calls complete
          (check_one v.verify v.runes v.now r) refl (rw complete at h) a
          (λ later e b. check_request_auth-Any P reqs later e b)
  ]

  -- Whatever decoded call has the property, an authentic request of the context decodes to one.
  context_calls-Any :
      (P : Request → Type 0) (reqs : List PendingRequest) (calls : List Request)
      → context_calls v reqs ≡ done calls
      → Any P calls
      → Any (Asks v P) reqs
  unfolding context_calls
  context_calls-Any P reqs calls h a = check_request_auth-Any P reqs calls h a

module _ {V I R : Type 0} (h : Handler V I) (v : Verifier R) where
  answer-preapprove :
      (req : HsmRequest) (calls : List Request) (s s' : State V) (invstring : List ℕ)
      (resp : HsmResponse)
      → h.permissive ≡ false
      → h.parse_message req.raw ≡ some (preapprove_invoice invstring)
      → answer h req calls s ≡ done (ok resp, s')
      → Any (Pays invstring) calls
  unfolding answer
  answer-preapprove req calls s s' invstring resp strict msg e =
      (try_resolve-Pays invstring calls).0
        (resolved (try_resolve (preapprove_invoice invstring) calls) refl)
    where
      resolved :
          (x : Result (Message × List Request) (Unit {0}))
          → try_resolve (preapprove_invoice invstring) calls ≡ x
          → try_resolve (preapprove_invoice invstring) calls ≡ ok tt
      resolved (ok u) q = q
      resolved (err w) q = absurd (ground (arith, strict, msg, q, e))

  -- If a signer that is built without the feature `permissive` answers a request to preapprove an invoice, the request came with a pending call
  -- that names this invoice as a payment, a preapproval or a trampoline payment, whose signature is
  -- one of its public key over its payload and timestamp, and whose rune allows this public key the
  -- call.
  pub process_request-preapprove :
      (req : HsmRequest) (s s' : State V) (invstring : List ℕ) (resp : HsmResponse)
      → h.permissive ≡ false
      → h.parse_message req.raw ≡ some (preapprove_invoice invstring)
      → process_request h v req s ≡ done (ok resp, s')
      → Any (Asks v (Pays invstring)) req.requests
  unfolding process_request process_merged
  process_request-preapprove req s s' invstring resp strict msg e =
      let (diff, parsed, e') = >>=-eq-done (from h.from_slice req.signer_state) _ e in
      merged (merge s diff).0 e'
    where
      merged :
          (t : State V)
          → process_merged h v req t ≡ done (ok resp, s')
          → Any (Asks v (Pays invstring)) req.requests
      merged t q = elim (Bool-cases (is_sign_message req.raw)) [
        | inl refused ↦ absurd (ground (arith, refused, q))
        | inr other_type ↦
            let (calls, decoded, last) =
              >>=-eq-done (context_calls v req.requests) (λ calls. answer h req calls t)
                (rw other_type at q) in
            context_calls-Any v (Pays invstring) req.requests calls decoded
              (answer-preapprove req calls t s' invstring resp strict msg last)
      ]
