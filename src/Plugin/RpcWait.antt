-- ===== src/Plugin/RpcWait.antt =====
-- `RpcWaitService` of libs/gl-plugin/src/node/rpcwait.rs: a call waits for core-lightning's socket, at most
-- until a deadline. The clock is a parameter: when a sleep of 500 milliseconds ends, and when the
-- socket is there.
mod Tests
use greenlight.Prelude.{
  ℕ, zero, suc, ◌+◌, ◌-◌, ◌*◌, ◌≤◌, ◌<◌, ◌≡◌, ◌⊎◌, refl, Bool, true, false, Option, none, some, ltb,
  arith, if◌then◌else◌, Bool-cases, inl, inr, ltb→lt,
}

module _ (sleep : ℕ → ℕ) (exists_at : ℕ → Bool) where
  -- The loop, with the time when it ends; on fuel.
  unfoldable pub wait : ℕ → ℕ → ℕ → Option ℕ
  wait zero deadline now = none
  wait (suc fuel) deadline now =
      let later = wait fuel deadline (sleep now) in
      if ltb deadline now then some now else if exists_at now then some now else later

  -- The time when the call is handed on; the deadline is after five seconds.
  unfoldable pub call : ℕ → ℕ → Option ℕ
  unfolding wait
  call fuel start = wait fuel (start + 5000) start

  wait_ends :
      (fuel deadline now : ℕ)
      → ((t : ℕ) → t + 500 ≤ sleep t)
      → deadline < now + 500 * fuel
      → (t : ℕ) × (wait (suc fuel) deadline now ≡ some t)
        × (now ≤ t)
        × ((exists_at t ≡ true) ⊎ (deadline < t))
  unfolding wait
  wait_ends zero deadline now slow enough =
      let past : ltb deadline now ≡ true = ground arith in
      (now, rw past refl, omega arith, inr (omega arith))
  wait_ends (suc fuel) deadline now slow enough = elim (Bool-cases (ltb deadline now)) [
    | inl past ↦ (now, rw past refl, omega arith, inr (ltb→lt deadline now past))
    | inr early ↦ elim (Bool-cases (exists_at now)) [
      | inl there ↦ (now, rw (early, there) refl, omega arith, inl there)
      | inr missing ↦
          let (t, ends, later, why) =
            wait_ends fuel deadline (sleep now) slow (omega (arith, slow now)) in
          (t, rw (early, missing) ends, omega (arith, slow now), why)
    ]
  ]

  -- A call is handed on after at most eleven sleeps, when the socket is there or five seconds have
  -- passed, if no sleep is shorter than it should be.
  pub call_ends :
      (start : ℕ)
      → ((t : ℕ) → t + 500 ≤ sleep t)
      → (t : ℕ) × (call 12 start ≡ some t)
        × (start ≤ t)
        × ((exists_at t ≡ true) ⊎ (start + 5000 < t))
  unfolding call
  call_ends start slow = wait_ends 11 (start + 5000) start slow (omega arith)
