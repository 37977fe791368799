-- ===== src/Persist/Store/Updates.antt =====
-- What one write does to the map, and what it means for replicas that merge afterwards.
use greenlight.Prelude.{
  ℕ, ◌+◌, ◌^◌, ◌<◌, ◌≤◌, ◌≡◌, ◌∙◌, ap, Option, none, some, [], Ordering, arith, Option-cases, inl,
  inr,
}
use greenlight.Prelude.Run.{done}
use greenlight.Persist.Map.{Key, cmp, lookup, insert}
use greenlight.Persist.Map.Order.{cmp-eq, cmp_refl}
use greenlight.Persist.Map.Laws.{lookup-insert, insert-IsSorted}
use greenlight.Persist.Merge.{Entry, State, merge}
use greenlight.Persist.Merge.Spec.{IsValid, join, lookup-merge}
use greenlight.Persist.Merge.Algebra.{merge_settled}
use greenlight.Persist.Store.{next_version, update, insert_new, contains_key}

module _ {V : Type 0} where
  -- The lookups after an entry of `key` is written.
  abbrev pub Written : Key → Entry V → State V → State V → Type 0
  Written key e s s' =
      (k : Key)
      → lookup k s'.values ≡ elim (cmp k key) [ Ordering.eq ↦ some e | _ ↦ lookup k s.values ]

  pub update_writes :
      (key : Key) (v : V) (s s' : State V) (ver : ℕ) (old : V)
      → lookup key s.values ≡ some (ver, old)
      → update key v s ≡ done s'
      → Written key (next_version ver, v) s s'
  unfolding update
  update_writes key v s s' ver old h r k =
      ground (arith, lookup-insert key k (next_version ver, v) s.values)

  -- Every write puts one entry into the map.
  abbrev pub IsWrite : State V → State V → Type 0
  IsWrite s s' = (key : Key) × (e : Entry V) × (s' ≡ record { values = insert key e s.values })

  pub update-IsWrite :
      (key : Key) (v : V) (s s' : State V) → update key v s ≡ done s' → IsWrite s s'
  unfolding update
  update-IsWrite key v s s' r = elim (Option-cases (lookup key s.values)) [
    | inl e ↦ absurd (ground arith)
    | inr ((ver, old), e) ↦ (key, (next_version ver, v), ground arith)
  ]

  pub insert_new-IsWrite :
      (key : Key) (v : V) (s s' : State V) → insert_new key v s ≡ done s' → IsWrite s s'
  unfolding insert_new contains_key
  insert_new-IsWrite key v s s' r = (key, (0, v), ground arith)

  pub IsWrite-IsValid : (s s' : State V) → IsWrite s s' → IsValid s → IsValid s'
  IsWrite-IsValid s s' (key, e, w) v = rw w (insert-IsSorted key e s.values v)

  pub insert_new_writes :
      (key : Key) (v : V) (s s' : State V)
      → insert_new key v s ≡ done s'
      → (lookup key s.values ≡ none) × Written key (0, v) s s'
  unfolding insert_new contains_key
  insert_new_writes key v s s' r =
      (ground arith, λ k. ground (arith, lookup-insert key k (0, v) s.values))

  pub update_stores :
      (key : Key) (v : V) (s s' : State V)
      → update key v s ≡ done s'
      → (ver : ℕ) × Written key (ver, v) s s'
  update_stores key v s s' r = elim (Option-cases (lookup key s.values)) [
    | inl e ↦ absurd (unfold update in ground arith)
    | inr ((ver, old), e) ↦ (next_version ver, update_writes key v s s' ver old e r)
  ]

  pub lookup-Written :
      (key : Key) (e : Entry V) (s s' : State V)
      → Written key e s s'
      → lookup key s'.values ≡ some e
  lookup-Written key e s s' w = let h = w key in ground (arith, h, cmp_refl key)

  -- `update` of a stored key, in full: its version goes up by one, and no other key is touched.
  pub update_lem :
      (key : Key) (v : V) (s : State V) (ver : ℕ) (old : V)
      → lookup key s.values ≡ some (ver, old)
      → ver + 1 < 2 ^ 64
      → (s' : State V) × (update key v s ≡ done s') × Written key (ver + 1, v) s s'
  unfolding update
  update_lem key v s ver old h fits =
      let m = insert key (ver + 1, v) s.values in
      (record { values = m }, ground arith, λ k. lookup-insert key k (ver + 1, v) s.values)

  join_written :
      (k key : Key) (e : Entry V) (ver : ℕ) (old : V) (x y : Option (Entry V))
      → x ≡ elim (cmp k key) [ Ordering.eq ↦ some e | _ ↦ y ]
      → (cmp k key ≡ Ordering.eq → y ≡ some (ver, old))
      → ver < e.0
      → join x y ≡ x
  join_written k key e ver old x y w h lt = ground arith

  -- A write is not rolled back by a merge: once an entry of a valid state was updated, at a version
  -- below the last `u64`, merging the state from before the update changes nothing and reports
  -- nothing.
  pub merge-update :
      (key : Key) (v : V) (s s' : State V) (ver : ℕ) (old : V)
      → lookup key s.values ≡ some (ver, old)
      → ver + 1 < 2 ^ 64
      → IsValid s
      → update key v s ≡ done s'
      → merge s' s ≡ (s', [])
  merge-update key v s s' ver old h fits val r = merge_settled s' s val (λ k.
      join_written k key (next_version ver, v) ver old (lookup k s'.values) (lookup k s.values)
        (update_writes key v s s' ver old h r k)
        (λ e. ap (λ j. lookup j s.values) (cmp-eq k key e) ∙ h) (omega arith))

  -- An update of a valid state, at a version below the last `u64`, reaches every replica that has the
  -- key at no higher version than the one before the update: after the replica merged the updated
  -- state it holds the new entry.
  pub lookup-merge-update :
      (key : Key) (v : V) (s s' replica : State V) (ver theirs : ℕ) (old other : V)
      → lookup key s.values ≡ some (ver, old)
      → lookup key replica.values ≡ some (theirs, other)
      → theirs ≤ ver
      → ver + 1 < 2 ^ 64
      → IsValid s
      → update key v s ≡ done s'
      → lookup key (merge replica s').0.values ≡ some (ver + 1, v)
  lookup-merge-update key v s s' replica ver theirs old other h hr le fits val r =
      let w = update_writes key v s s' ver old h r key in
      ground (
        arith,
        lookup-merge key replica s' (IsWrite-IsValid s s' (update-IsWrite key v s s' r) val),
        w,
        cmp_refl key,
      )
