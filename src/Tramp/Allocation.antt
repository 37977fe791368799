-- ===== src/Tramp/Allocation.antt =====
-- How a payment is split over the channels to the trampoline node: `find_allocation` and the two
-- orders in which it is tried, in libs/gl-plugin/src/tramp.rs.
pub mod Round
pub mod Picks
pub mod Retry
pub mod Bounds
pub mod Capacity
pub mod Overpay
pub mod Exact
use greenlight.Prelude.{
  ℕ, ◌+◌, ◌-◌, ◌≤◌, ◌≡◌, Bool, Option, none, some, List, [], ◌∷◌, ◌++◌, ◌||◌, min, ltb, leb, ◌==◌,
  if◌then◌else◌,
}

-- The id is only copied.
pub record Channel : Type 0 where
  pub short_channel_id : ℕ
  pub spendable_msat : ℕ
  pub min_htlc_out_msat : ℕ

pub record ChannelContribution : Type 0 where
  pub channel : Channel
  pub contrib_msat : ℕ

pub data AllocResult : Type 0 where
  success : AllocResult
  impossible : AllocResult
  need_space : ℕ → AllocResult

abbrev pub Allocations : Type 0
Allocations = List ChannelContribution

abbrev pub push : Allocations → Channel → ℕ → Allocations
push allocations ch amount = allocations ++ record { channel = ch; contrib_msat = amount } ∷ []

-- `Vec::pop`, which does nothing on an empty vector.
unfoldable pub pop : Allocations → Allocations
pop [] = []
pop (a ∷ []) = []
pop (a ∷ b ∷ rest) = a ∷ pop (b ∷ rest)

-- `try_allocate` on the channels behind the current one.
abbrev pub Later : Type 0
Later = ℕ → Allocations → AllocResult × Allocations

abbrev pub is_unusable : Channel → Bool
is_unusable ch = ltb ch.spendable_msat ch.min_htlc_out_msat || ch.spendable_msat == 0

-- A channel whose minimum is above the target is skipped.
abbrev after_skip : ℕ → AllocResult × Allocations → AllocResult × Allocations
after_skip lacking (success, al) = (success, al)
after_skip lacking (impossible, al) = (need_space lacking, al)
after_skip lacking (need_space n, al) = (need_space lacking, al)

-- The second attempt, with less from the current channel, and the third, without it.
abbrev after_adjust : Later → ℕ → AllocResult × Allocations → AllocResult × Allocations
after_adjust later target (success, al) = (success, al)
after_adjust later target (impossible, al) = later target (pop al)
after_adjust later target (need_space n, al) = later target (pop al)

-- What follows the first attempt, with `upper` from the current channel.
abbrev after_first :
    Channel → Later → ℕ → ℕ → ℕ → AllocResult × Allocations → AllocResult × Allocations
after_first ch later target lower upper (success, al) = (success, al)
after_first ch later target lower upper (impossible, al) = (impossible, al)
after_first ch later target lower upper (need_space shortfall, al) =
    let free = upper - lower in
    let adjusted_amount = upper - shortfall in
    if leb shortfall free
    then after_adjust later target
        (later (target - adjusted_amount) (push (pop al) ch adjusted_amount))
    else (need_space (shortfall - free), pop al)

unfoldable pub try_channel : Channel → Later → Later
try_channel ch later target al =
    let lower = ch.min_htlc_out_msat in
    let upper = min ch.spendable_msat target in
    if target == 0
    then (success, al)
    else if is_unusable ch
    then later target al
    else if ltb target lower
    then after_skip (lower - target) (later target al)
    else after_first ch later target lower upper (later (target - upper) (push al ch upper))

unfoldable pub try_allocate : List Channel → Later
try_allocate [] target al = if target == 0 then (success, al) else (impossible, al)
try_allocate (ch ∷ rest) target al = try_channel ch (try_allocate rest) target al

abbrev pub succeeded : AllocResult × Allocations → Option Allocations
succeeded (success, al) = some al
succeeded (impossible, al) = none
succeeded (need_space n, al) = none

unfoldable pub find_allocation : List Channel → ℕ → Option Allocations
find_allocation channels target =
    if target == 0 then none else succeeded (try_allocate channels target [])
