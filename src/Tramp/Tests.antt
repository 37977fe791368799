-- ===== src/Tramp/Tests.antt =====
-- Allocations over a few channels.
use greenlight.Prelude.{ℕ, ◌≡◌, refl, some, List, [], ◌∷◌}
use mathlib.Core.List.{Perm}
use greenlight.Tramp.Allocation.{
  Channel, Allocations, need_space, try_allocate, try_channel, find_allocation, pop,
}
use greenlight.Tramp.Allocation.Picks.{contribution, total, Picks}
use greenlight.Tramp.Order.{find_allocation_ascending_order, sort_by, insert_by}
use greenlight.Tramp.Order.Ascending.{find_allocation_ascending_order-picks}

abbrev channel : ℕ → ℕ → Channel
channel spendable minimum = record {
  short_channel_id = 0;
  spendable_msat = spendable;
  min_htlc_out_msat = minimum;
}

abbrev shuffled : List Channel
shuffled = channel 5 1 ∷ channel 3 2 ∷ []

abbrev parts : Allocations
parts = contribution (channel 3 2) 3 ∷ contribution (channel 5 1) 4 ∷ []

ascending_run : (find_allocation_ascending_order shuffled 7).0 ≡ some parts
unfolding find_allocation_ascending_order find_allocation try_allocate try_channel sort_by insert_by
ascending_run = refl

find_allocation_ascending_order-picks_example :
    (total parts ≡ 7)
    × Picks (find_allocation_ascending_order shuffled 7).1 parts
    × Perm (find_allocation_ascending_order shuffled 7).1 shuffled
find_allocation_ascending_order-picks_example =
    find_allocation_ascending_order-picks shuffled 7 parts ascending_run

-- The first channel takes 5 of 6, and one is left for the second one, which wants 2.
abbrev greedy : List Channel
greedy = channel 5 1 ∷ channel 4 2 ∷ []

greedy_run :
    find_allocation greedy 6
    ≡ some (contribution (channel 5 1) 4 ∷ contribution (channel 4 2) 2 ∷ [])
unfolding find_allocation try_allocate try_channel pop
greedy_run = refl

need_run : (try_allocate (channel 4 2 ∷ []) 1 []).0 ≡ need_space 1
unfolding try_allocate try_channel
need_run = refl
