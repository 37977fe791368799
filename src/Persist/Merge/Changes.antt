-- ===== src/Persist/Merge/Changes.antt =====
-- `diff` of libs/gl-client/src/persist.rs foretells what `merge` does.
use greenlight.Prelude.{ℕ, ◌≡◌, refl, sym, ◌∙◌, Option, none, some, List, [], ◌∷◌, ◌++◌, map, arith}
use mathlib.Core.List.{append-nil, append_assoc}
use greenlight.Persist.Map.{Key, BTreeMap, lookup, IsSorted}
use greenlight.Persist.Map.Order.{cmp-eq}
use greenlight.Persist.Map.Laws.{lookup_head, lookup-Above}
use greenlight.Persist.Merge.{
  Entry, State, StateChange, Update, merge_entry, merge_loop, merge, is_newer, keep_newer,
  change_of, diff,
}
use greenlight.Persist.Merge.Spec.{IsValid, lookup-merge_entry}

module _ {V : Type 0} where
  -- How `merge` reports a change.
  abbrev pub old_version : Option (Entry V) → Option ℕ
  old_version none = none
  old_version (some e) = some e.0

  abbrev pub update_of : StateChange V → Update
  update_of c = (c.key, old_version c.old, c.new.0)

  abbrev updates : BTreeMap (Entry V) → BTreeMap (Entry V) → List Update
  updates m o = map update_of (keep_newer (map (change_of (record { values = m })) o))

  -- The report of one round is that of the change.
  merge_entry_report :
      (j : Key) (e : Entry V) (m l o : BTreeMap (Entry V)) (res : List Update)
      → lookup j m ≡ lookup j l
      → (merge_entry j e (m, res)).1 ++ updates l o ≡ res ++ updates l ((j, e) ∷ o)
  unfolding merge_entry keep_newer is_newer change_of
  merge_entry_report j e m l o res h =
      ground (arith, append_assoc res ((j, old_version (lookup j m), e.0) ∷ []) (updates l o))

  merge_entry_elsewhere :
      (j k : Key) (e e' : Entry V) (m l o : BTreeMap (Entry V)) (res : List Update)
      → IsSorted ((j, e) ∷ o)
      → lookup k o ≡ some e'
      → (lookup k ((j, e) ∷ o) ≡ some e' → lookup k m ≡ lookup k l)
      → lookup k (merge_entry j e (m, res)).0 ≡ lookup k l
  unfolding lookup
  merge_entry_elsewhere j k e e' m l o res s at_k h =
      ground (arith, lookup-merge_entry k j e m res, lookup-Above j o, cmp-eq k j)

  merge_loop_report :
      (o m l : BTreeMap (Entry V)) (res : List Update)
      → IsSorted o
      → ((k : Key) (e : Entry V) → lookup k o ≡ some e → lookup k m ≡ lookup k l)
      → (merge_loop o (m, res)).1 ≡ res ++ updates l o
  unfolding merge_loop keep_newer
  merge_loop_report [] m l res s h = sym (append-nil res)
  merge_loop_report ((j, e) ∷ o) m l res s h =
      let (m', res') = merge_entry j e (m, res) in
      merge_loop_report o m' l res' s.1
        (λ k e' at_k. merge_entry_elsewhere j k e e' m l o res s at_k (h k e'))
      ∙ merge_entry_report j e m l o res (h j e (lookup_head j e o))

  -- Merging a valid state reports exactly the changes that `diff` lists, in the same order: the keys
  -- that are new or have a higher version on the other side.
  pub merge-diff : (s o : State V) → IsValid o → (merge s o).1 ≡ map update_of (diff s o)
  unfolding merge diff
  merge-diff s o v = merge_loop_report o.values s.values s.values [] v (λ k e h. refl)
