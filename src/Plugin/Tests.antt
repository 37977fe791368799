-- ===== src/Plugin/Tests.antt =====
-- A request that is staged and answered, and calls that come and go.
use greenlight.Prelude.{ℕ, ◌+◌, ◌≤◌, refl, true, none, List, [], ◌∷◌, codes}
use greenlight.Plugin.Stager.{Stage, new, send, respond}
use greenlight.Plugin.Stager.Once.{Step, Reach, waiting, answered, Reach-answered}
use greenlight.Plugin.Context
use greenlight.Plugin.Context.{Context, snapshot, add_request, remove_request}

abbrev staged : Stage
staged = (send (record { request_id = 7; raw = 0 ∷ 5 ∷ [] }) new).0

abbrev answered_once : Stage
answered_once = (respond true (record { request_id = 7; raw = [] }) staged).0

reached : Reach answered_once
reached = Reach.next (Reach.next Reach.start (Step.sent _ refl)) (Step.responded true _ refl)

Reach-answered_example :
    (answered 0 answered_once.answers ≤ 1)
    × (waiting 0 answered_once.requests + answered 0 answered_once.answers ≤ 1)
Reach-answered_example = Reach-answered answered_once 0 reached

abbrev call : List ℕ → Context.Request
call signature = record {
  pubkey = [];
  signature = signature;
  rune = [];
  payload = [];
  uri = codes "/cln.Node/Pay";
  timestamp = none;
}
