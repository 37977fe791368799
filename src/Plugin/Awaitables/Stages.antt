-- ===== src/Plugin/Awaitables/Stages.antt =====
-- The stages of the wait, in their order.
use greenlight.Prelude.{
  ℕ, ◌≡◌, ◌≢◌, ◌⊎◌, refl, ap, Bool, true, false, none, List, [], ◌∷◌, arith, Any, inl, inr,
}
use greenlight.Prelude.Outcome.{Result, ok, err}
use greenlight.Plugin.Awaitables.{
  Error, Poll, ready, pending, AwaitableChannel, new, Answers, Polled, is_established,
  poll_spendable, poll_route, poll_status, poll_connection, poll_version, poll, poll_all,
}

-- A later stage is only passed after the earlier ones.
abbrev pub InOrder : AwaitableChannel → Type 0
InOrder c =
    (c.peer_connected ≡ true → c.version ≢ none)
    × (c.channel_ready ≡ true → c.peer_connected ≡ true)
    × (c.route_found ≡ true → c.channel_ready ≡ true)

-- The version is known, the peer is connected, the channel is established and a route was found.
abbrev pub Passed : AwaitableChannel → Type 0
Passed c =
    (c.version ≢ none)
    × (c.peer_connected ≡ true)
    × (c.channel_ready ≡ true)
    × (c.route_found ≡ true)

poll-InOrder : (a : Answers) (c : AwaitableChannel) → InOrder c → InOrder (poll a c).1
unfolding poll poll_version poll_connection poll_status poll_route poll_spendable
poll-InOrder a c h = ground (arith, h)

-- After any polls of a new channel, a later stage is only passed after the earlier ones.
pub poll_all-InOrder :
    (answers : List Answers) (c : AwaitableChannel) → InOrder c → InOrder (poll_all answers c).1
unfolding poll_all
poll_all-InOrder [] c h = h
poll_all-InOrder (a ∷ answers) c h =
    by_result (poll a c).0 (poll_all-InOrder answers (poll a c).1 (poll-InOrder a c h))
  where
    by_result :
        (r : Poll (Result Error ℕ))
        → InOrder (poll_all answers (poll a c).1).1
        → InOrder
            (elim r as (λ x. Polled) [
              | ready x ↦ (ready x, (poll a c).1)
              | pending ↦ poll_all answers (poll a c).1
            ]).1
    by_result (ready x) later = poll-InOrder a c h
    by_result pending later = later

poll_amount :
    (a : Answers) (c c' : AwaitableChannel) (amount : ℕ)
    → poll a c ≡ (ready (ok amount), c')
    → Passed c' × (a.spendable ≡ ready (ok amount))
unfolding poll poll_version poll_connection poll_status poll_route poll_spendable
poll_amount a c c' amount h = ground (arith, h)

-- If some poll of a channel gives an amount, then all stages are passed, and the amount is what the
-- channel could spend in one of the polls.
poll_all-Passed :
    (answers : List Answers) (c c' : AwaitableChannel) (amount : ℕ)
    → poll_all answers c ≡ (ready (ok amount), c')
    → Passed c' × Any (λ a. a.spendable ≡ ready (ok amount)) answers
unfolding poll_all
poll_all-Passed [] c c' amount h = absurd (ground (arith, h))
poll_all-Passed (a ∷ answers) c c' amount h =
    by_result (poll a c).0 refl h (poll_all-Passed answers (poll a c).1 c' amount)
  where
    by_result :
        (r : Poll (Result Error ℕ))
        → (poll a c).0 ≡ r
        → (elim r as (λ x. Polled) [
          | ready x ↦ (ready x, (poll a c).1)
          | pending ↦ poll_all answers (poll a c).1
        ])
          ≡ (ready (ok amount), c')
        → (poll_all answers (poll a c).1 ≡ (ready (ok amount), c')
            → Passed c' × Any (λ a. a.spendable ≡ ready (ok amount)) answers)
        → Passed c' × Any (λ a. a.spendable ≡ ready (ok amount)) (a ∷ answers)
    by_result pending e h ih = let (passed, later) = ih h in (passed, inr later)
    by_result (ready x) e h ih =
        let (passed, amount_now) = poll_amount a c c' amount (ground (arith, e, h)) in
        (passed, inl amount_now)

-- A future that is ready with a value.
abbrev pub arrived : {A : Type 0} → Poll (Result Error A) → Bool
arrived (ready (ok a)) = true
arrived (ready (err e)) = false
arrived pending = false

-- The status of an established channel.
abbrev pub shows_established : Poll (Result Error (List (List ℕ))) → Bool
shows_established (ready (ok lines)) = is_established lines
shows_established (ready (err e)) = false
shows_established pending = false

-- What holds after some polls held before them, or one of them brought it about.
poll_all-traced :
    (F : AwaitableChannel → Type 0) (E : Answers → Type 0)
    → ((a : Answers) (c : AwaitableChannel) → F (poll a c).1 → F c ⊎ E a)
    → (answers : List Answers) (c : AwaitableChannel) → F (poll_all answers c).1
    → F c ⊎ Any E answers
unfolding poll_all
poll_all-traced F E step [] c h = inl h
poll_all-traced F E step (a ∷ answers) c h =
    by_result (poll a c).0 h (poll_all-traced F E step answers (poll a c).1)
  where
    first : F (poll a c).1 → F c ⊎ Any E (a ∷ answers)
    first g = elim (step a c g) [ inl before ↦ inl before | inr now ↦ inr (inl now) ]

    by_result :
        (r : Poll (Result Error ℕ))
        → F
            (elim r as (λ x. Polled) [
              | ready x ↦ (ready x, (poll a c).1)
              | pending ↦ poll_all answers (poll a c).1
            ]).1
        → (F (poll_all answers (poll a c).1).1 → F (poll a c).1 ⊎ Any E answers)
        → F c ⊎ Any E (a ∷ answers)
    by_result (ready x) g ih = first g
    by_result pending g ih = elim (ih g) [ inl before ↦ first before | inr later ↦ inr (inr later) ]

poll-version :
    (a : Answers) (c : AwaitableChannel)
    → (poll a c).1.version ≢ none
    → (c.version ≢ none) ⊎ (arrived a.version ≡ true)
unfolding poll poll_version poll_connection poll_status poll_route poll_spendable
poll-version a c h = ground (arith, h)

poll-connection :
    (a : Answers) (c : AwaitableChannel)
    → (poll a c).1.peer_connected ≡ true
    → (c.peer_connected ≡ true) ⊎ (arrived a.connection ≡ true)
unfolding poll poll_version poll_connection poll_status poll_route poll_spendable
poll-connection a c h = ground (arith, h)

poll-status :
    (a : Answers) (c : AwaitableChannel)
    → (poll a c).1.channel_ready ≡ true
    → (c.channel_ready ≡ true) ⊎ (shows_established a.status ≡ true)
unfolding poll poll_version poll_connection poll_status poll_route poll_spendable
poll-status a c h = ground (arith, h)

poll-route :
    (a : Answers) (c : AwaitableChannel)
    → (poll a c).1.route_found ≡ true
    → (c.route_found ≡ true) ⊎ (arrived a.route ≡ true)
unfolding poll poll_version poll_connection poll_status poll_route poll_spendable
poll-route a c h = ground (arith, h)

-- If some poll of a new channel gives an amount, then among the polls up to the last there is one in which
-- core-lightning gave its version, one in which the peer was connected, one in which the status was
-- that of an established channel, one in which a route was found, and one in which the channel could
-- spend that amount.
pub poll_all_amount :
    (answers : List Answers) (c' : AwaitableChannel) (amount : ℕ)
    → poll_all answers new ≡ (ready (ok amount), c')
    → Any (λ a. arrived a.version ≡ true) answers
      × Any (λ a. arrived a.connection ≡ true) answers
      × Any (λ a. shows_established a.status ≡ true) answers
      × Any (λ a. arrived a.route ≡ true) answers
      × Any (λ a. a.spendable ≡ ready (ok amount)) answers
poll_all_amount answers c' amount h =
    let ((versioned, connected, established, routed), spendable) =
      poll_all-Passed answers new c' amount h in
    let end : (poll_all answers new).1 ≡ c' = ap (λ p. p.1) h in
    (
      version_seen (rw end versioned),
      connection_seen (rw end connected),
      status_seen (rw end established),
      route_seen (rw end routed),
      spendable,
    )
  where
    version_seen :
        (poll_all answers new).1.version ≢ none → Any (λ a. arrived a.version ≡ true) answers
    version_seen g =
        elim (poll_all-traced (λ c. c.version ≢ none) (λ a. arrived a.version ≡ true) poll-version
          answers new g) [ inl before ↦ absurd (before refl) | inr seen ↦ seen ]

    connection_seen :
        (poll_all answers new).1.peer_connected ≡ true
        → Any (λ a. arrived a.connection ≡ true) answers
    connection_seen g =
        elim (poll_all-traced (λ c. c.peer_connected ≡ true) (λ a. arrived a.connection ≡ true)
          poll-connection answers new g) [ inl before ↦ cc before | inr seen ↦ seen ]

    status_seen :
        (poll_all answers new).1.channel_ready ≡ true
        → Any (λ a. shows_established a.status ≡ true) answers
    status_seen g =
        elim (poll_all-traced (λ c. c.channel_ready ≡ true) (λ a. shows_established a.status ≡ true)
          poll-status answers new g) [ inl before ↦ cc before | inr seen ↦ seen ]

    route_seen :
        (poll_all answers new).1.route_found ≡ true → Any (λ a. arrived a.route ≡ true) answers
    route_seen g =
        elim (poll_all-traced (λ c. c.route_found ≡ true) (λ a. arrived a.route ≡ true) poll-route
          answers new g) [ inl before ↦ cc before | inr seen ↦ seen ]

-- A poll gives the amount at once where every future answers well, the channel is established, and no
-- delay after a failed check is running.
pub poll_answered :
    (a : Answers) (c : AwaitableChannel) (v : List ℕ) (lines : List (List ℕ)) (amount : ℕ)
    → c.last_check ≡ none
    → a.version ≡ ready (ok v)
    → a.connection ≡ ready (ok tt)
    → a.status ≡ ready (ok lines)
    → is_established lines ≡ true
    → a.route ≡ ready (ok tt)
    → a.spendable ≡ ready (ok amount)
    → (poll a c).0 ≡ ready (ok amount)
unfolding poll poll_version poll_connection poll_status poll_route poll_spendable
poll_answered a c v lines amount h1 h2 h3 h4 h5 h6 h7 = ground (arith, h1, h2, h3, h4, h5, h6, h7)
