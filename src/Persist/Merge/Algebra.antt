-- ===== src/Persist/Merge/Algebra.antt =====
-- Merging as an operation on states: it settles, regroups, and on states without conflicts it
-- commutes. With `merge` of libs/gl-client/src/persist.rs replicas reach one state.
use greenlight.Prelude.{
  inl, inr, ◌⊎◌, ◌≢◌, refl, ◌≡◌, refl, ap, ◌∙◌, sym, Option, none, some, List, [], ◌∷◌, arith,
}
use greenlight.Persist.Map.{Key, BTreeMap, lookup, IsSorted}
use greenlight.Persist.Map.Order.{cmp-eq}
use greenlight.Persist.Map.Laws.{lookup_head, lookup-Above, lookup-injective}
use greenlight.Persist.Merge.{Entry, State, Update, merge_entry, merge_loop, merge}
use greenlight.Persist.Merge.Spec.{join, IsValid, merge-IsValid, lookup-merge}

module _ {V : Type 0} where
  join_idem : (x y : Option (Entry V)) → join (join x y) y ≡ join x y
  join_idem x y = ground arith

  join_assoc : (x y z : Option (Entry V)) → join (join x y) z ≡ join x (join y z)
  join_assoc x y z = ground arith

  -- The entries of one key agree if their versions do.
  abbrev pub Agree : Option (Entry V) → Option (Entry V) → Type 0
  Agree none y = Unit {0}
  Agree (some a) none = Unit {0}
  Agree (some a) (some b) = (a.0 ≢ b.0) ⊎ (a ≡ b)

  join_comm : (x y : Option (Entry V)) → Agree x y → join x y ≡ join y x
  join_comm none none h = ground arith
  join_comm none (some b) h = ground arith
  join_comm (some a) none h = ground arith
  join_comm (some a) (some b) (inl ne) = ground (arith, ne)
  join_comm (some a) (some b) (inr e) = rw e refl

  -- Valid states with the same lookups are one state.
  pub State-ext :
      (s t : State V)
      → IsValid s
      → IsValid t
      → ((k : Key) → lookup k s.values ≡ lookup k t.values)
      → s ≡ t
  State-ext s t v w h =
      ap {B = State V} (λ m. record { values = m }) (lookup-injective s.values t.values v w h)

  merge_entry_fixed :
      (j : Key) (e : Entry V) (m : BTreeMap (Entry V)) (res : List Update)
      → join (lookup j m) (some e) ≡ lookup j m
      → merge_entry j e (m, res) ≡ (m, res)
  unfolding merge_entry
  merge_entry_fixed j e m res h = ground arith

  join_tail :
      (j k : Key) (e : Entry V) (o m : BTreeMap (Entry V))
      → IsSorted ((j, e) ∷ o)
      → join (lookup k m) (lookup k ((j, e) ∷ o)) ≡ lookup k m
      → join (lookup k m) (lookup k o) ≡ lookup k m
  unfolding lookup
  join_tail j k e o m s h = ground (arith, lookup-Above j o, cmp-eq k j)

  merge_loop_fixed :
      (o m : BTreeMap (Entry V)) (res : List Update)
      → IsSorted o
      → ((k : Key) → join (lookup k m) (lookup k o) ≡ lookup k m)
      → merge_loop o (m, res) ≡ (m, res)
  unfolding merge_loop
  merge_loop_fixed [] m res s h = refl
  merge_loop_fixed ((j, e) ∷ o) m res s h =
      rw (merge_entry_fixed j e m res (rw (lookup_head j e o) at (h j)))
        (merge_loop_fixed o m res s.1 (λ k. join_tail j k e o m s (h k)))

  -- A state is left alone by what it has already joined.
  pub merge_settled :
      (s o : State V)
      → IsValid o
      → ((k : Key) → join (lookup k s.values) (lookup k o.values) ≡ lookup k s.values)
      → merge s o ≡ (s, [])
  unfolding merge
  merge_settled s o v h =
      ap (λ (r : BTreeMap (Entry V) × List Update). (record { values = r.0 }, r.1))
        (merge_loop_fixed o.values s.values [] v h)

  -- Merging the same state once more changes nothing and reports nothing.
  pub merge_idem : (s o : State V) → IsValid o → merge (merge s o).0 o ≡ ((merge s o).0, [])
  merge_idem s o v =
      merge_settled (merge s o).0 o v
        (λ k. rw (lookup-merge k s o v) (join_idem (lookup k s.values) (lookup k o.values)))

  -- Merging is associative on valid states.
  pub merge_assoc :
      (a b c : State V)
      → IsValid a
      → IsValid b
      → IsValid c
      → (merge (merge a b).0 c).0 ≡ (merge a (merge b c).0).0
  merge_assoc a b c va vb vc =
      State-ext _ _ (merge-IsValid (merge a b).0 c (merge-IsValid a b va))
        (merge-IsValid a (merge b c).0 va)
        (λ k.
          simp
            (
              lookup-merge k (merge a b).0 c vc,
              lookup-merge k a b vb,
              lookup-merge k a (merge b c).0 (merge-IsValid b c vb),
              lookup-merge k b c vc,
            )
            (join_assoc (lookup k a.values) (lookup k b.values) (lookup k c.values)))

  -- Two valid states whose entries agree wherever their versions do merge to the same state in
  -- either direction.
  pub merge_comm :
      (a b : State V)
      → IsValid a
      → IsValid b
      → ((k : Key) → Agree (lookup k a.values) (lookup k b.values))
      → (merge a b).0 ≡ (merge b a).0
  merge_comm a b va vb h = State-ext _ _ (merge-IsValid a b va) (merge-IsValid b a vb) (λ k.
      lookup-merge k a b vb
      ∙ join_comm (lookup k a.values) (lookup k b.values) (h k)
      ∙ sym (lookup-merge k b a va))
