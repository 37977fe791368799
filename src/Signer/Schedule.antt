-- ===== src/Signer/Schedule.antt =====
-- The loops of libs/gl-client/src/signer/mod.rs around `run_once`: `init_scheduler`,
-- `run_forever_inner` and `run_once_scheduler`. What the scheduler answers is a list, at whose end the
-- loop waits.
pub mod Loops
use greenlight.Prelude.{ℕ, Bool, true, false, Option, none, some, List, [], ◌∷◌, if◌then◌else◌}
use greenlight.Prelude.Run.{Run, done, and_then}
use greenlight.Prelude.Outcome.{Result, ok, err, map_err}
use greenlight.Persist.Merge.{State}
use greenlight.Signer.Process.{HsmResponse, Handler, Verifier}
use greenlight.Signer.Run.{Event, Trace, run_once}
use greenlight.Signer.Rune.{Runes}
use greenlight.Signer.Check.{is_empty}
use greenlight.Signer.Pairing.{
  ApprovePairingRequest, ApprovePairingResponse, PairingError, process_pairing_approval,
}

-- The answer to `maybe_upgrade`.
pub data Upgrade : Type 0 where
  unavailable : Upgrade
  failed : Upgrade
  upgraded : Upgrade

pub data Init : Type 0 where
  retrying : Init
  upgrade_error : Init
  scheduler : Init

unfoldable pub init_scheduler : List Upgrade → Init
init_scheduler [] = retrying
init_scheduler (unavailable ∷ answers) = init_scheduler answers
init_scheduler (failed ∷ answers) = upgrade_error
init_scheduler (upgraded ∷ answers) = scheduler

-- The answer to `get_node_info`: an error, or the URI of the node, with what the node then streams if
-- the URI can be parsed.
pub data NodeInfo : Type 0 where
  no_info : NodeInfo
  info : List ℕ → Option (List Event) → NodeInfo

-- How the inner loop stands: it waits, or it stopped at a URI that cannot be parsed.
pub data Inner : Type 0 where
  running : Inner
  bad_uri : Inner

abbrev pub then_run :
    {V : Type 0} → Trace V → Inner × List (Trace V) × State V → Inner × List (Trace V) × State V
then_run t (i, ts, s) = (i, t ∷ ts, s)

module _ {V I R : Type 0} (h : Handler V I) (v : Verifier R) where
  -- The runs against the node, and the state at the end, which one run hands to the next.
  unfoldable pub run_forever_inner :
      List NodeInfo → State V → Run (Inner × List (Trace V) × State V)
  run_forever_inner [] s = done (running, [], s)
  run_forever_inner (no_info ∷ infos) s = run_forever_inner infos s
  run_forever_inner (info uri node ∷ infos) s =
      if is_empty uri then run_forever_inner infos s else elim node [
        | none ↦ done (bad_uri, [], s)
        | some events ↦
            and_then (run_once h v events s)
              (λ t. and_then (run_forever_inner infos t.2) (λ later. done (then_run t later)))
      ]

-- What the scheduler streams.
pub data SchedulerEvent : Type 0 where
  approve_pairing : ℕ → ApprovePairingRequest → SchedulerEvent
  empty_request : SchedulerEvent
  closed : SchedulerEvent
  stream_error : SchedulerEvent

pub record SignerResponse : Type 0 where
  pub request_id : ℕ
  pub response : ApprovePairingResponse

-- A pairing that is not approved is only logged.
abbrev pub answered_pairing :
    ℕ
    → Result PairingError ApprovePairingResponse
    → Bool × List SignerResponse
    → Bool × List SignerResponse
answered_pairing id (err e) rest = rest
answered_pairing id (ok approved) (waits, responses) =
    (waits, (record { request_id = id; response = approved }) ∷ responses)

module _ {R : Type 0} (verify : List ℕ → List ℕ → List ℕ → Bool) (decode : List ℕ → Option (List ℕ))
    (rs : Runes R) (now : Option ℕ) (node_id : List ℕ) where
  -- The flag tells whether the loop still waits. A response that is sent arrives.
  unfoldable pub run_once_scheduler : List SchedulerEvent → Bool × List SignerResponse
  run_once_scheduler [] = (true, [])
  run_once_scheduler (closed ∷ events) = (false, [])
  run_once_scheduler (stream_error ∷ events) = (false, [])
  run_once_scheduler (empty_request ∷ events) = run_once_scheduler events
  run_once_scheduler (approve_pairing id req ∷ events) =
      let rest = run_once_scheduler events in
      answered_pairing id (process_pairing_approval verify decode rs now node_id req) rest
