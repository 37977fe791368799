-- ===== src/Persist/Merge/Tests.antt =====
-- Runs of `merge` and `diff` on two signers' states with the keys a, b and c.
use greenlight.Prelude.{ℕ, ◌≡◌, inl, refl, map, none, some, [], ◌∷◌, arith, Ordering}
use greenlight.Persist.Map.{Key, lookup, insert, cmp}
use greenlight.Persist.Merge.{
  State, merge, merge_loop, merge_entry, diff, change_of, is_newer, keep_newer,
}
use greenlight.Persist.Merge.Spec.{join, IsValid, lookup-merge}
use greenlight.Persist.Merge.Algebra.{Agree, merge_comm}
use greenlight.Persist.Merge.Changes.{merge-diff, update_of}

abbrev a : Key
a = b'a' ∷ []

abbrev b : Key
b = b'b' ∷ []

abbrev c : Key
c = b'c' ∷ []

-- The local state has a newer `a` and an older `b`, and the other one a `c`.
abbrev local : State ℕ
local = record { values = (a, (3, 30)) ∷ (b, (1, 10)) ∷ [] }

abbrev remote : State ℕ
remote = record { values = (a, (2, 20)) ∷ (b, (4, 40)) ∷ (c, (0, 7)) ∷ [] }

abbrev third : State ℕ
third = record { values = (c, (9, 8)) ∷ [] }

remote-IsValid : IsValid remote
unfolding cmp
remote-IsValid = ((refl, (refl, tt)), ((refl, tt), (tt, tt)))

third-IsValid : IsValid third
third-IsValid = (tt, tt)

merge_run : merge local remote ≡ (
  record { values = (a, (3, 30)) ∷ (b, (4, 40)) ∷ (c, (0, 7)) ∷ [] },
  (b, some 1, 4) ∷ (c, none, 0) ∷ [],
)
unfolding merge merge_loop merge_entry lookup insert cmp
merge_run = refl

diff_run :
    diff local remote
    ≡ record { key = b; old = some (1, 10); new = (4, 40) }
      ∷ record { key = c; old = none; new = (0, 7) }
      ∷ []
unfolding diff change_of is_newer keep_newer lookup cmp
diff_run = refl

lookup-merge_example :
    lookup b (merge local remote).0.values ≡ join (lookup b local.values) (lookup b remote.values)
lookup-merge_example = lookup-merge b local remote remote-IsValid

abbrev old_a : State ℕ
old_a = record { values = (a, (2, 20)) ∷ [] }

-- All versions of `old_a` and `third` differ.
Agree-orderings :
    (o p : Ordering)
    → Agree {V = ℕ}
        (elim o [ Ordering.eq ↦ some (2, 20) | _ ↦ none ])
        (elim p [ Ordering.eq ↦ some (9, 8) | _ ↦ none ])
Agree-orderings Ordering.lt p = tt
Agree-orderings Ordering.gt p = tt
Agree-orderings Ordering.eq Ordering.lt = tt
Agree-orderings Ordering.eq Ordering.gt = tt
Agree-orderings Ordering.eq Ordering.eq = inl (omega arith)

old_third-Agree : (k : Key) → Agree (lookup k old_a.values) (lookup k third.values)
unfolding lookup
old_third-Agree k = Agree-orderings (cmp k a) (cmp k c)

merge_comm_example : (merge old_a third).0 ≡ (merge third old_a).0
merge_comm_example = merge_comm old_a third (tt, tt) third-IsValid old_third-Agree

merge-diff_example : (merge local remote).1 ≡ map update_of (diff local remote)
merge-diff_example = merge-diff local remote remote-IsValid
