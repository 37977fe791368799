-- ===== src/Proxy/Staging.antt =====
-- `StagingHsmServer` of libs/gl-plugin/src/hsm.rs, which answers some requests of the proxy itself and
-- stages the others for a signer (`Plugin.Stager`). The wait for the signer's answer is `recv`.
pub mod Answers
use greenlight.Prelude.{
  ℕ, ◌+◌, ◌*◌, ◌==◌, Bool, true, false, Option, none, some, List, [], ◌∷◌, if◌then◌else◌, bytes_eq,
}
use greenlight.Prelude.Run.{Run, done, fail, panic, ◌>>=◌}
use greenlight.Plugin.Stager.{HsmRequest, HsmResponse, Request, Stage, send}

pub record StartupMessage : Type 0 where
  pub request : List ℕ
  pub response : List ℕ

-- Of the node's information and configuration what is used here.
pub record StagingHsmServer : Type 0 where
  pub startupmsgs : List StartupMessage
  pub initmsg : List ℕ

unfoldable pub find_response : List StartupMessage → List ℕ → Option (List ℕ)
find_response [] msg = none
find_response (m ∷ ms) msg =
    let rest = find_response ms msg in if bytes_eq m.request msg then some m.response else rest

abbrev pub find_canned_response : StagingHsmServer → List ℕ → Option (List ℕ)
find_canned_response s msg = find_response s.startupmsgs msg

-- `HsmRequest::get_type`, which panics on less than two bytes.
unfoldable pub get_type : List ℕ → Run ℕ
get_type [] = panic
get_type (h ∷ []) = panic
get_type (h ∷ l ∷ rest) = done (h * 256 + l)

-- A request is answered at once, or staged and then awaited.
pub data Handled : Type 0 where
  answered : HsmResponse → Handled
  staged : Stage → Request → Handled

abbrev pub answer_with : HsmRequest → List ℕ → Handled
answer_with req raw = answered (record { request_id = req.request_id; raw = raw })

unfoldable pub by_type : StagingHsmServer → HsmRequest → Stage → ℕ → Handled
by_type server req stage typ =
    if typ == 11
    then answer_with req server.initmsg
    else if typ == 33
    then answer_with req (0 ∷ 133 ∷ 0 ∷ [])
    else staged (send req stage).0 (send req stage).1

unfoldable pub handle_canned : StagingHsmServer → HsmRequest → Stage → Option (List ℕ) → Run Handled
handle_canned server req stage (some response) = done (answer_with req response)
handle_canned server req stage none = do typ ← get_type req.raw; done (by_type server req stage typ)

unfoldable pub handle : StagingHsmServer → HsmRequest → Stage → Run Handled
handle server req stage = handle_canned server req stage (find_canned_response server req.raw)

-- `request`: the response, and the stage. `recv` is what the signer answers to a staged request; it
-- fails if the channel is closed.
unfoldable pub request :
    StagingHsmServer → (Request → Run HsmResponse) → HsmRequest → Stage → Run (HsmResponse × Stage)
request server recv req stage = handle server req stage >>= λ handled. elim handled [
  | answered response ↦ done (response, stage)
  | staged later r ↦ recv r >>= λ response. done (response, later)
]
