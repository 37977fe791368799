-- ===== src/Persist/Merge/Spec.antt =====
-- What `merge` promises for each key: the newer entry wins, and the local one on equal versions.
use greenlight.Prelude.{◌≡◌, Option, none, some, List, [], ◌∷◌, Ordering, arith, ltb, if◌then◌else◌}
use greenlight.Persist.Map.{Key, BTreeMap, cmp, lookup, IsSorted}
use greenlight.Persist.Map.Order.{cmp-eq}
use greenlight.Persist.Map.Laws.{lookup-insert, lookup-Above, insert-IsSorted}
use greenlight.Persist.Merge.{Entry, State, Update, merge_entry, merge_loop, merge}

module _ {V : Type 0} where
  -- The local and the remote entry of one key, joined.
  abbrev pub join : Option (Entry V) → Option (Entry V) → Option (Entry V)
  join none new = new
  join (some old) none = some old
  join (some old) (some new) = if ltb old.0 new.0 then some new else some old

  abbrev pub IsValid : State V → Type 0
  IsValid s = IsSorted s.values

  pub lookup-merge_entry :
      (k j : Key) (e : Entry V) (m : BTreeMap (Entry V)) (res : List Update)
      → lookup k (merge_entry j e (m, res)).0
        ≡ elim (cmp k j) [ Ordering.eq ↦ join (lookup k m) (some e) | _ ↦ lookup k m ]
  unfolding merge_entry
  lookup-merge_entry k j e m res = ground (arith, lookup-insert j k e m, cmp-eq k j)

  merge_entry-IsSorted :
      (j : Key) (e : Entry V) (m : BTreeMap (Entry V)) (res : List Update)
      → IsSorted m
      → IsSorted (merge_entry j e (m, res)).0
  unfolding merge_entry
  merge_entry-IsSorted j e m res s = ground (arith, insert-IsSorted j e m)

  lookup-merge_loop :
      (k : Key) (o : BTreeMap (Entry V)) (m : BTreeMap (Entry V)) (res : List Update)
      → IsSorted o
      → lookup k (merge_loop o (m, res)).0 ≡ join (lookup k m) (lookup k o)
  unfolding merge_loop lookup
  lookup-merge_loop k [] m res s = ground arith
  lookup-merge_loop k ((j, e) ∷ o) m res s =
      let (m', res') = merge_entry j e (m, res) in
      ground (
        arith,
        lookup-merge_loop k o m' res',
        lookup-merge_entry k j e m res,
        lookup-Above j o,
        cmp-eq k j,
      )

  merge_loop-IsSorted :
      (o m : BTreeMap (Entry V)) (res : List Update)
      → IsSorted m
      → IsSorted (merge_loop o (m, res)).0
  unfolding merge_loop
  merge_loop-IsSorted [] m res s = s
  merge_loop-IsSorted ((j, e) ∷ o) m res s =
      let (m', res') = merge_entry j e (m, res) in
      merge_loop-IsSorted o m' res' (merge_entry-IsSorted j e m res s)

  -- Whatever the other state, merging into a valid state leaves a valid state.
  pub merge-IsValid : (s o : State V) → IsValid s → IsValid (merge s o).0
  unfolding merge
  merge-IsValid s o v = merge_loop-IsSorted o.values s.values [] v

  -- Merging a valid state joins, under each key, the local entry with the remote one: a key of one
  -- side is kept, of two versions the higher one wins, and of equal ones the local entry.
  pub lookup-merge :
      (k : Key) (s o : State V)
      → IsValid o
      → lookup k (merge s o).0.values ≡ join (lookup k s.values) (lookup k o.values)
  unfolding merge
  lookup-merge k s o v = lookup-merge_loop k o.values s.values [] v
