-- ===== src/Tramp/Order/Ascending.antt =====
-- The allocation in ascending order, the one that `trampolinepay` tries first.
use greenlight.Prelude.{ℕ, ◌≡◌, some, List}
use mathlib.Core.List.{Perm}
use greenlight.Tramp.Allocation.{Channel, Allocations}
use greenlight.Tramp.Allocation.Picks.{Picks, total}
use greenlight.Tramp.Allocation.Exact.{find_allocation-picks}
use greenlight.Tramp.Order.{by_ascending, sort_by, find_allocation_ascending_order}
use greenlight.Tramp.Order.Sorted.{sort_by-Ascending, sort_by-perm}

-- An allocation in ascending order adds up to exactly the target, and picks from a permutation of
-- the given channels, at most once from each and within its bounds.
pub find_allocation_ascending_order-picks :
    (channels : List Channel) (target : ℕ) (al : Allocations)
    → (find_allocation_ascending_order channels target).0 ≡ some al
    → (total al ≡ target)
      × Picks (find_allocation_ascending_order channels target).1 al
      × Perm (find_allocation_ascending_order channels target).1 channels
unfolding find_allocation_ascending_order
find_allocation_ascending_order-picks channels target al h =
    let (picks, sum) =
      find_allocation-picks (sort_by by_ascending channels) target al (sort_by-Ascending channels)
        h in
    (sum, picks, sort_by-perm by_ascending channels)
