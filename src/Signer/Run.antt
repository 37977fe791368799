-- ===== src/Signer/Run.antt =====
-- `run_once` of libs/gl-client/src/signer/mod.rs: the loop over the requests that a node streams. The
-- connection is the list of its events, and the reports to the scheduler are left out.
pub mod Answers
use greenlight.Prelude.{ℕ, Bool, true, false, List, [], ◌∷◌, if◌then◌else◌}
use greenlight.Prelude.Run.{Run, done, and_then}
use greenlight.Prelude.Outcome.{Result, ok, err}
use greenlight.Persist.Merge.{State}
use greenlight.Signer.Process.{
  HsmRequest, HsmResponse, SignerError, Handler, Verifier, process_request,
}

-- A request, and whether its response could be sent; the end of the stream; a broken stream.
pub data Event : Type 0 where
  message : HsmRequest → Bool → Event
  ended : Event
  broken : Event

-- How the loop ended, if it did: `waiting` for more events, with `Ok` or with `NodeDisconnect`.
pub data Exit : Type 0 where
  waiting : Exit
  finished : Exit
  disconnected : Exit

-- An error is reported to the node with the id of the request.
unfoldable pub to_response : HsmRequest → Result SignerError HsmResponse → HsmResponse
to_response req (ok response) = response
to_response req (err e) = record {
  request_id = req.request_id;
  raw = [];
  signer_state = [];
  failed = true;
}

-- The responses that were sent, or tried, in their order, and the state at the end.
abbrev pub Trace : Type 0 → Type 0
Trace V = Exit × List HsmResponse × State V

abbrev pub answered_first : {V : Type 0} → HsmResponse → Trace V → Trace V
answered_first response (exit, responses, s) = (exit, response ∷ responses, s)

module _ {V I R : Type 0} (h : Handler V I) (v : Verifier R) where
  unfoldable pub run_once : List Event → State V → Run (Trace V)
  run_once [] s = done (waiting, [], s)
  run_once (ended ∷ events) s = done (finished, [], s)
  run_once (broken ∷ events) s = done (disconnected, [], s)
  run_once (message req sent ∷ events) s = and_then (process_request h v req s) (λ r.
      let response = to_response req r.0 in
      let rest = and_then (run_once events r.1) (λ t. done (answered_first response t)) in
      if sent then rest else done (disconnected, response ∷ [], r.1))
