-- ===== src/Tramp/Order.antt =====
-- The two orders in which `find_allocation` is tried, libs/gl-plugin/src/tramp.rs. `sort_by` is a
-- stable sort, here by insertion.
pub mod Sorted
pub mod Ascending
use greenlight.Prelude.{ℕ, Option, List, [], ◌∷◌, Bool, true, false, compare, Ordering}
use greenlight.Tramp.Allocation.{Channel, Allocations, find_allocation}

-- `a.cmp(b).then_with(..)`
abbrev pub then_with : Ordering → Ordering → Ordering
then_with Ordering.lt o = Ordering.lt
then_with Ordering.eq o = o
then_with Ordering.gt o = Ordering.gt

abbrev pub by_ascending : Channel → Channel → Ordering
by_ascending a b =
    then_with (compare a.spendable_msat b.spendable_msat)
      (compare a.min_htlc_out_msat b.min_htlc_out_msat)

abbrev pub by_descending : Channel → Channel → Ordering
by_descending a b =
    then_with (compare b.spendable_msat a.spendable_msat)
      (compare a.min_htlc_out_msat b.min_htlc_out_msat)

-- An element goes in front of those that do not come before it, so equal ones keep their order.
unfoldable pub insert_by : (Channel → Channel → Ordering) → Channel → List Channel → List Channel
insert_by order ch [] = ch ∷ []
insert_by order ch (d ∷ rest) = elim (order ch d) [
  | Ordering.gt ↦ d ∷ insert_by order ch rest
  | _ ↦ ch ∷ d ∷ rest
]

unfoldable pub sort_by : (Channel → Channel → Ordering) → List Channel → List Channel
unfolding insert_by
sort_by order [] = []
sort_by order (ch ∷ rest) = insert_by order ch (sort_by order rest)

-- Each returns the allocation and the slice as it leaves it.
unfoldable pub find_allocation_descending_order :
    List Channel → ℕ → Option Allocations × List Channel
unfolding sort_by
find_allocation_descending_order channels target =
    let sorted = sort_by by_descending channels in (find_allocation sorted target, sorted)

unfoldable pub find_allocation_ascending_order :
    List Channel → ℕ → Option Allocations × List Channel
unfolding sort_by
find_allocation_ascending_order channels target =
    let sorted = sort_by by_ascending channels in (find_allocation sorted target, sorted)
