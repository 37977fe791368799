-- ===== src/Proxy/Staging/Answers.antt =====
-- Which requests need a signer.
use greenlight.Prelude.{
  ℕ, ◌≡◌, ◌≢◌, ◌⊎◌, refl, Option, none, some, List, [], ◌∷◌, inl, inr, Any, All, arith, Bool-cases,
  ◌==◌, ◌∙◌, ap, sym, bytes_eq, bytes_eq_refl, bytes_eq→eq,
}
use greenlight.Prelude.Run.{done, done_injective, >>=-eq-done}
use greenlight.Plugin.Stager.{HsmRequest, Stage, send}
use greenlight.Proxy.Staging.{
  StagingHsmServer, StartupMessage, find_response, find_canned_response, get_type, by_type, Handled,
  answered, staged, handle, handle_canned,
}

-- No startup message is for the request.
abbrev pub IsNew : List ℕ → List StartupMessage → Type 0
IsNew raw ms = All (λ m. m.request ≢ raw) ms

abbrev pub HasType : List ℕ → ℕ → Type 0
HasType raw typ = get_type raw ≡ done typ

-- What a request comes to.
abbrev pub Decided : StagingHsmServer → HsmRequest → Stage → Handled → Type 0
Decided server req stage (answered response) =
    (response.request_id ≡ req.request_id)
    × (Any (λ m. (m.request ≡ req.raw) × (m.response ≡ response.raw)) server.startupmsgs
        ⊎ (IsNew req.raw server.startupmsgs
            × ((HasType req.raw 11 × (response.raw ≡ server.initmsg))
                ⊎ (HasType req.raw 33 × (response.raw ≡ 0 ∷ 133 ∷ 0 ∷ [])))))
Decided server req stage (staged later r) =
    IsNew req.raw server.startupmsgs
    × ((typ : ℕ) × HasType req.raw typ × (typ ≢ 11) × (typ ≢ 33))
    × ((later, r) ≡ send req stage)

find_response-none :
    (ms : List StartupMessage) (raw : List ℕ) → find_response ms raw ≡ none → IsNew raw ms
unfolding find_response
find_response-none [] raw h = tt
find_response-none (m ∷ ms) raw h = elim (Bool-cases (bytes_eq m.request raw)) [
  | inl same ↦ absurd (ground (arith, same, h))
  | inr other ↦ (
    λ equal. absurd (ground (arith, rw equal at other, bytes_eq_refl raw)),
    find_response-none ms raw (ground (arith, other, h)),
  )
]

find_response-some :
    (ms : List StartupMessage) (raw response : List ℕ)
    → find_response ms raw ≡ some response
    → Any (λ m. (m.request ≡ raw) × (m.response ≡ response)) ms
unfolding find_response
find_response-some [] raw response h = cc h
find_response-some (m ∷ ms) raw response h = elim (Bool-cases (bytes_eq m.request raw)) [
  | inl same ↦ inl (bytes_eq→eq m.request raw same, ground (arith, same, h))
  | inr other ↦ inr (find_response-some ms raw response (ground (arith, other, h)))
]

by_type_lem :
    (server : StagingHsmServer) (req : HsmRequest) (stage : Stage) (typ : ℕ) (handled : Handled)
    → HasType req.raw typ
    → IsNew req.raw server.startupmsgs
    → by_type server req stage typ ≡ handled
    → Decided server req stage handled
unfolding by_type
by_type_lem server req stage typ handled typed new h = elim (Bool-cases (typ == 11)) [
  | inl init ↦
      let eleven : typ ≡ 11 = ground (arith, init) in
      rw (← h, init) (refl, inr (new, inl (rw (← eleven) typed, refl)))
  | inr not_init ↦ elim (Bool-cases (typ == 33)) [
    | inl preapprove ↦
        let known : typ ≡ 33 = ground (arith, preapprove) in
        rw (← h, not_init, preapprove) (refl, inr (new, inr (rw (← known) typed, refl)))
    | inr later ↦
        rw (← h, not_init, later)
          (new, (typ, typed, ground (arith, not_init), ground (arith, later)), refl)
  ]
]

handle_canned_lem :
    (server : StagingHsmServer) (req : HsmRequest) (stage : Stage) (canned : Option (List ℕ))
    (handled : Handled)
    → find_canned_response server req.raw ≡ canned
    → handle_canned server req stage canned ≡ done handled
    → Decided server req stage handled
unfolding handle_canned
handle_canned_lem server req stage (some response) (answered a) e h = (
  ground (arith, h),
  inl (find_response-some server.startupmsgs req.raw a.raw (e ∙ ap some (ground (arith, h)))),
)
handle_canned_lem server req stage (some response) (staged later r) e h = absurd (ground (arith, h))
handle_canned_lem server req stage none handled e h =
    let (typ, typed, h') =
      >>=-eq-done (get_type req.raw) (λ typ. done (by_type server req stage typ)) h in
    by_type_lem server req stage typ handled typed (find_response-none server.startupmsgs req.raw e)
      (done_injective handled _ (sym h'))

-- A request for which there is a startup message is answered with the response of such a message. Another
-- one is answered with the init message if it has type 11, and with an approval if it has type 33. All
-- others are staged as `send` does, and every answer has the id of its request.
pub handle_lem :
    (server : StagingHsmServer) (req : HsmRequest) (stage : Stage) (handled : Handled)
    → handle server req stage ≡ done handled
    → Decided server req stage handled
unfolding handle
handle_lem server req stage handled h =
    handle_canned_lem server req stage (find_canned_response server req.raw) handled refl h
