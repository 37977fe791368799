-- ===== src/Signer/Run/Answers.antt =====
-- The loop answers every request once, and in order.
use greenlight.Prelude.{ℕ, ◌≡◌, refl, true, false, List, [], ◌∷◌, map, arith}
use greenlight.Prelude.Run.{done, >>=-eq-done}
use greenlight.Prelude.Outcome.{Result, ok, err}
use greenlight.Persist.Merge.{State}
use greenlight.Signer.Process.{
  HsmRequest, HsmResponse, SignerError, Handler, Verifier, process_request,
}
use greenlight.Signer.Process.Refused.{process_request-Carries}
use greenlight.Signer.Run.{Event, message, ended, broken, Exit, to_response, run_once}

-- The ids of the requests up to the end of the stream, or to the first response that is not sent.
abbrev pub request_ids : List Event → List ℕ
request_ids [] = []
request_ids (ended ∷ events) = []
request_ids (broken ∷ events) = []
request_ids (message req true ∷ events) = req.request_id ∷ request_ids events
request_ids (message req false ∷ events) = req.request_id ∷ []

module _ {V I R : Type 0} (h : Handler V I) (v : Verifier R) where
  to_response_id :
      (req : HsmRequest) (s s' : State V) (r : Result SignerError HsmResponse)
      → process_request h v req s ≡ done (r, s')
      → (to_response req r).request_id ≡ req.request_id
  unfolding to_response
  to_response_id req s s' (ok resp) e = (process_request-Carries h v req s s' resp e).0
  to_response_id req s s' (err x) e = refl

  -- If no request makes the signer panic, the responses have the ids of the requests, one for each and
  -- in their order, until a response cannot be sent or the stream ends.
  pub run_once_answers :
      (events : List Event) (s s' : State V) (exit : Exit) (responses : List HsmResponse)
      → run_once h v events s ≡ done (exit, responses, s')
      → map (λ r. r.request_id) responses ≡ request_ids events
  unfolding run_once
  run_once_answers [] s s' exit responses e =
      let none_sent : responses ≡ [] = ground arith in rw none_sent refl
  run_once_answers (ended ∷ events) s s' exit responses e =
      let none_sent : responses ≡ [] = ground arith in rw none_sent refl
  run_once_answers (broken ∷ events) s s' exit responses e =
      let none_sent : responses ≡ [] = ground arith in rw none_sent refl
  run_once_answers (message req true ∷ events) s s' exit responses e =
      let ((r, s1), processed, e') = >>=-eq-done (process_request h v req s) _ e in
      let ((exit1, later, s2), rest, last) = >>=-eq-done (run_once h v events s1) _ e' in
      let all : responses ≡ to_response req r ∷ later = ground arith in
      let first = to_response_id req s s1 r processed in
      let others = run_once_answers events s1 s2 exit1 later rest in rw all (cc (first, others))
  run_once_answers (message req false ∷ events) s s' exit responses e =
      let ((r, s1), processed, last) = >>=-eq-done (process_request h v req s) _ e in
      let all : responses ≡ to_response req r ∷ [] = ground arith in
      let first = to_response_id req s s1 r processed in rw all (cc first)
