-- ===== src/Signer/Schedule/Loops.antt =====
-- Which pairings the loop against the scheduler approves.
use greenlight.Prelude.{ℕ, ◌≡◌, refl, Bool, true, Option, some, List, [], ◌∷◌, All, Any, inl, inr}
use greenlight.Prelude.Outcome.{Result, ok, err}
use greenlight.Signer.Rune.{Runes, verify_rune}
use greenlight.Signer.Pairing.{
  ApprovePairingResponse, PairingError, pairing_data, pairing_request, process_pairing_approval,
}
use greenlight.Signer.Pairing.Signature.{process_pairing_approval_lem}
use greenlight.Signer.Schedule.{
  SchedulerEvent, approve_pairing, empty_request, closed, stream_error, SignerResponse,
  answered_pairing, run_once_scheduler,
}

module _ {R : Type 0} (verify : List ℕ → List ℕ → List ℕ → Bool) (decode : List ℕ → Option (List ℕ))
    (rs : Runes R) (now : Option ℕ) (node_id : List ℕ) where
  -- The event asks for a pairing under the id of the response, signed by the key it names, with a rune
  -- that allows the approval.
  abbrev pub Justifies : SignerResponse → SchedulerEvent → Type 0
  Justifies response (approve_pairing id req) =
      (response.request_id ≡ id)
      × (verify req.pubkey (pairing_data node_id req) req.sig ≡ true)
      × ((rune : List ℕ) × (decode req.rune ≡ some rune)
          × (verify_rune rs now (pairing_request req rune) ≡ ok tt))
  Justifies response empty_request = ⊥
  Justifies response closed = ⊥
  Justifies response stream_error = ⊥

  All-later :
      (responses : List SignerResponse) (e : SchedulerEvent) (events : List SchedulerEvent)
      → All (λ r. Any (Justifies r) events) responses
      → All (λ r. Any (Justifies r) (e ∷ events)) responses
  All-later [] e events h = tt
  All-later (r ∷ responses) e events (j, h) = (inr j, All-later responses e events h)

  -- Every response that the loop sends answers a request of the stream that was signed by the key it
  -- names, with a rune that allows the approval.
  pub run_once_scheduler_justified :
      (events : List SchedulerEvent)
      → All
          (λ r. Any (Justifies r) events)
          (run_once_scheduler verify decode rs now node_id events).1
  unfolding run_once_scheduler
  run_once_scheduler_justified [] = tt
  run_once_scheduler_justified (closed ∷ events) = tt
  run_once_scheduler_justified (stream_error ∷ events) = tt
  run_once_scheduler_justified (empty_request ∷ events) =
      All-later (run_once_scheduler verify decode rs now node_id events).1 empty_request events
        (run_once_scheduler_justified events)
  run_once_scheduler_justified (approve_pairing id req ∷ events) =
      approved (process_pairing_approval verify decode rs now node_id req) refl (
        All-later (run_once_scheduler verify decode rs now node_id events).1
          (approve_pairing id req) events (run_once_scheduler_justified events))
    where
      approved :
          (r : Result PairingError ApprovePairingResponse)
          → process_pairing_approval verify decode rs now node_id req ≡ r
          → All
              (λ r. Any (Justifies r) (approve_pairing id req ∷ events))
              (run_once_scheduler verify decode rs now node_id events).1
          → All
              (λ r. Any (Justifies r) (approve_pairing id req ∷ events))
              (answered_pairing id r (run_once_scheduler verify decode rs now node_id events)).1
      approved (err e) q later = later
      approved (ok response) q later =
          let (signed, allowed, restricted, made, device, node) =
            process_pairing_approval_lem verify decode rs now node_id req response q in
          (inl (refl, signed, allowed), later)
