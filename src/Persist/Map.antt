-- ===== src/Persist/Map.antt =====
-- Rust's `BTreeMap<String, T>`, as far as libs/gl-client/src/persist.rs uses it: an association list
-- in ascending order of its keys, which are the bytes of the strings.
pub mod Order
pub mod Laws
use greenlight.Prelude.{ℕ, ◌≡◌, Option, none, some, List, [], ◌∷◌, ◌++◌, compare, Ordering}

abbrev pub Key : Type 0
Key = List ℕ

-- Strings compare byte by byte, a proper prefix before the longer string.
abbrev then_with : Ordering → Ordering → Ordering
then_with Ordering.lt o = Ordering.lt
then_with Ordering.eq o = o
then_with Ordering.gt o = Ordering.gt

unfoldable pub cmp : Key → Key → Ordering
cmp [] [] = Ordering.eq
cmp [] (y ∷ ys) = Ordering.lt
cmp (x ∷ xs) [] = Ordering.gt
cmp (x ∷ xs) (y ∷ ys) = then_with (compare x y) (cmp xs ys)

abbrev pub BTreeMap {ℓ} : Type ℓ → Type ℓ
BTreeMap V = List (Key × V)

module _ {ℓ} {V : Type ℓ} where
  unfoldable pub lookup : Key → BTreeMap V → Option V
  lookup k [] = none
  lookup k ((j, v) ∷ m) = elim (cmp k j) [ Ordering.eq ↦ some v | _ ↦ lookup k m ]

  unfoldable pub insert : Key → V → BTreeMap V → BTreeMap V
  insert k v [] = (k, v) ∷ []
  insert k v ((j, w) ∷ m) = elim (cmp k j) [
    | Ordering.lt ↦ (k, v) ∷ (j, w) ∷ m
    | Ordering.eq ↦ (k, v) ∷ m
    | Ordering.gt ↦ (j, w) ∷ insert k v m
  ]

  unfoldable pub remove : Key → BTreeMap V → BTreeMap V
  remove k [] = []
  remove k ((j, w) ∷ m) = elim (cmp k j) [ Ordering.eq ↦ m | _ ↦ (j, w) ∷ remove k m ]

  -- Every key lies behind `k`.
  abbrev pub Above : Key → BTreeMap V → Type 0
  Above k [] = Unit {0}
  Above k ((j, v) ∷ m) = (cmp k j ≡ Ordering.lt) × Above k m

  -- The keys ascend, so that no key stands twice.
  abbrev pub IsSorted : BTreeMap V → Type 0
  IsSorted [] = Unit {0}
  IsSorted ((k, v) ∷ m) = Above k m × IsSorted m
