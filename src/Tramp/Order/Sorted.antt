-- ===== src/Tramp/Order/Sorted.antt =====
-- `sort_by` sorts, and keeps the channels.
use greenlight.Prelude.{ℕ, ◌≤◌, List, [], ◌∷◌, All, arith, Ordering}
use mathlib.Core.List.{Perm}
use mathlib.Core.List.Perm
use greenlight.Tramp.Allocation.{Channel}
use greenlight.Tramp.Order.{by_ascending, insert_by, sort_by}

-- Each channel can spend at most what any later one can.
abbrev pub Ascending : List Channel → Type 0
Ascending [] = Unit {0}
Ascending (ch ∷ chs) = All (λ d. ch.spendable_msat ≤ d.spendable_msat) chs × Ascending chs

pub All-le :
    (m n : ℕ) (chs : List Channel)
    → m ≤ n
    → All (λ d. n ≤ d.spendable_msat) chs
    → All (λ d. m ≤ d.spendable_msat) chs
All-le m n [] le h = tt
All-le m n (ch ∷ chs) le h = (omega arith, All-le m n chs le h.1)

All-insert_by :
    (m : ℕ) (ch : Channel) (chs : List Channel)
    → m ≤ ch.spendable_msat
    → All (λ d. m ≤ d.spendable_msat) chs
    → All (λ d. m ≤ d.spendable_msat) (insert_by by_ascending ch chs)
unfolding insert_by
All-insert_by m ch [] le h = (le, tt)
All-insert_by m ch (d ∷ chs) le h = ground (arith, All-insert_by m ch chs)

insert_by-Ascending :
    (ch : Channel) (chs : List Channel) → Ascending chs → Ascending (insert_by by_ascending ch chs)
unfolding insert_by
insert_by-Ascending ch [] s = (tt, tt)
insert_by-Ascending ch (d ∷ chs) s = ground (
  arith,
  insert_by-Ascending ch chs,
  All-insert_by d.spendable_msat ch chs,
  All-le ch.spendable_msat d.spendable_msat chs,
)

pub sort_by-Ascending : (chs : List Channel) → Ascending (sort_by by_ascending chs)
unfolding sort_by
sort_by-Ascending [] = tt
sort_by-Ascending (ch ∷ chs) = insert_by-Ascending ch _ (sort_by-Ascending chs)

insert_by-perm :
    (order : Channel → Channel → Ordering) (ch : Channel) (chs : List Channel)
    → Perm (insert_by order ch chs) (ch ∷ chs)
unfolding insert_by
insert_by-perm order ch [] = Perm.refl (ch ∷ [])
insert_by-perm order ch (d ∷ chs) = insert_case (order ch d) (insert_by-perm order ch chs)
  where
    insert_case :
        (o : Ordering)
        → Perm (insert_by order ch chs) (ch ∷ chs)
        → Perm
            (elim o [ Ordering.gt ↦ d ∷ insert_by order ch chs | _ ↦ ch ∷ d ∷ chs ])
            (ch ∷ d ∷ chs)
    insert_case Ordering.lt ih = Perm.refl (ch ∷ d ∷ chs)
    insert_case Ordering.eq ih = Perm.refl (ch ∷ d ∷ chs)
    insert_case Ordering.gt ih = Perm.trans (Perm.cons d ih) (Perm.swap ch d chs)

pub sort_by-perm :
    (order : Channel → Channel → Ordering) (chs : List Channel) → Perm (sort_by order chs) chs
unfolding sort_by
sort_by-perm order [] = Perm.refl []
sort_by-perm order (ch ∷ chs) =
    Perm.trans (insert_by-perm order ch (sort_by order chs)) (Perm.cons ch (sort_by-perm order chs))
