-- ===== src/Plugin/Awaitables/Tests.antt =====
-- A channel that is not established at first, and then is.
use greenlight.Prelude.{ℕ, ◌≡◌, refl, true, some, List, [], ◌∷◌, codes, Any, contains, starts_with}
use greenlight.Prelude.Outcome.{ok}
use greenlight.Plugin.Awaitables.{
  ready, AwaitableChannel, new, Answers, is_established, poll_spendable, poll_route, poll_status,
  poll_connection, poll_version, poll, poll_all,
}
use greenlight.Plugin.Awaitables.Stages.{arrived, shows_established, poll_all_amount}

abbrev lines : List (List ℕ)
lines = codes "CHANNELD_NORMAL:Channel ready for use." ∷ []

abbrev good : Answers
good = record {
  now = 1000;
  later = 1001;
  version = ready (ok (codes "v24.02"));
  connection = ready (ok tt);
  status = ready (ok lines);
  route = ready (ok tt);
  spendable = ready (ok 7);
}

abbrev early : Answers
early = record good { now = 100; later = 101; status = ready (ok []) }

abbrev waiting : Answers
waiting = record good { now = 300 }

abbrev operable : AwaitableChannel
operable = record {
  version = some (codes "v24.02");
  peer_connected = true;
  channel_ready = true;
  route_found = true;
  last_check = some 101;
  rpc_call_delay = 250;
  get_version = true;
  ensure_peer_connection = true;
  billboard = true;
  get_route = true;
  spendable_msat = true;
}

-- The second poll falls into the delay.
operable_run : poll_all (early ∷ waiting ∷ good ∷ []) new ≡ (ready (ok 7), operable)
unfolding poll_all poll poll_version poll_connection poll_status poll_route poll_spendable
    is_established contains starts_with
operable_run = refl

poll_all_amount_example :
    Any (λ a. arrived a.version ≡ true) (early ∷ waiting ∷ good ∷ [])
    × Any (λ a. arrived a.connection ≡ true) (early ∷ waiting ∷ good ∷ [])
    × Any (λ a. shows_established a.status ≡ true) (early ∷ waiting ∷ good ∷ [])
    × Any (λ a. arrived a.route ≡ true) (early ∷ waiting ∷ good ∷ [])
    × Any (λ a. a.spendable ≡ ready (ok 7)) (early ∷ waiting ∷ good ∷ [])
poll_all_amount_example = poll_all_amount (early ∷ waiting ∷ good ∷ []) operable 7 operable_run

lines_established : is_established lines ≡ true
unfolding is_established contains starts_with
lines_established = refl
