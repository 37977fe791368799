-- ===== src/Persist/Store/Reach.antt =====
-- The states that a signer can get into, by its own operations and by merging others.
use greenlight.Prelude.{◌≡◌, arith}
use greenlight.Prelude.Run.{done}
use greenlight.Persist.Map.{Key, insert}
use greenlight.Persist.Map.Laws.{insert-IsSorted, remove-IsSorted}
use greenlight.Persist.Merge.{State, merge}
use greenlight.Persist.Merge.Spec.{IsValid, merge-IsValid}
use greenlight.Persist.Store.{
  Serde, prefixed, insert_node, update_node, delete_node, insert_channel, update_channel,
  delete_channel, new_chain_tracker, update_tracker, update_node_allowlist, clear, node_prefix,
  node_state_prefix,
}
use greenlight.Persist.Store.Updates.{IsWrite-IsValid, update-IsWrite, insert_new-IsWrite}

module _ {V N S C T L : Type 0} (sn : Serde V N) (ss : Serde V S) (sc : Serde V C) (st : Serde V T)
    (sl : Serde V L) where
  -- One operation that does not panic.
  pub data Step (s s' : State V) : Type 0 where
    node_inserted : (key : Key) (n : N) (e : S) → insert_node sn ss key n e s ≡ done s' → Step s s'
    node_updated : (key : Key) (e : S) → update_node ss key e s ≡ done s' → Step s s'
    node_deleted : (key : Key) → delete_node key s ≡ s' → Step s s'
    channel_inserted : (key : Key) (c : C) → insert_channel sc key c s ≡ done s' → Step s s'
    channel_updated : (key : Key) (c : C) → update_channel sc key c s ≡ done s' → Step s s'
    channel_deleted : (key : Key) → delete_channel key s ≡ s' → Step s s'
    tracker_inserted : (key : Key) (t : T) → new_chain_tracker st key t s ≡ done s' → Step s s'
    tracker_updated : (key : Key) (t : T) → update_tracker st key t s ≡ done s' → Step s s'
    allowlist_updated : (key : Key) (l : L) → update_node_allowlist sl key l s ≡ s' → Step s s'
    cleared : clear s ≡ s' → Step s s'
    merged : (other : State V) → (merge s other).0 ≡ s' → Step s s'

  pub data Reach (s : State V) : State V → Type 0 where
    here : Reach s s
    next : {t u : State V} → Reach s t → Step t u → Reach s u

  insert_node-IsValid :
      (key : Key) (n : N) (e : S) (s s' : State V)
      → insert_node sn ss key n e s ≡ done s'
      → IsValid s
      → IsValid s'
  unfolding insert_node
  insert_node-IsValid key n e s s' r v =
      let m = insert (prefixed node_prefix key) (0, sn.to_value n) s.values in
      ground (
        arith,
        insert-IsSorted (prefixed node_prefix key) (0, sn.to_value n) s.values v,
        insert-IsSorted (prefixed node_state_prefix key) (0, ss.to_value e) m,
      )

  update_node_allowlist-IsValid :
      (key : Key) (l : L) (s : State V) → IsValid s → IsValid (update_node_allowlist sl key l s)
  unfolding update_node_allowlist
  update_node_allowlist-IsValid key l s v = grind (arith, insert-IsSorted)

  Step-IsValid : (s s' : State V) → Step s s' → IsValid s → IsValid s'
  unfolding update_node insert_channel update_channel new_chain_tracker update_tracker delete_node
      delete_channel clear
  Step-IsValid s s' (node_inserted key n e r) v = insert_node-IsValid key n e s s' r v
  Step-IsValid s s' (node_updated key e r) v = IsWrite-IsValid s s' (update-IsWrite _ _ s s' r) v
  Step-IsValid s s' (node_deleted key r) v = rw (← r) (remove-IsSorted _ _ (remove-IsSorted _ _ v))
  Step-IsValid s s' (channel_inserted key c r) v =
      IsWrite-IsValid s s' (insert_new-IsWrite _ _ s s' r) v
  Step-IsValid s s' (channel_updated key c r) v = IsWrite-IsValid s s' (update-IsWrite _ _ s s' r) v
  Step-IsValid s s' (channel_deleted key r) v = rw (← r) (remove-IsSorted _ _ v)
  Step-IsValid s s' (tracker_inserted key t r) v =
      IsWrite-IsValid s s' (insert_new-IsWrite _ _ s s' r) v
  Step-IsValid s s' (tracker_updated key t r) v = IsWrite-IsValid s s' (update-IsWrite _ _ s s' r) v
  Step-IsValid s s' (allowlist_updated key l r) v =
      rw (← r) (update_node_allowlist-IsValid key l s v)
  Step-IsValid s s' (cleared r) v = rw (← r) tt
  Step-IsValid s s' (merged other r) v = rw (← r) (merge-IsValid s other v)

  -- From a valid state, such as the empty one, the operations that do not panic and merging with any
  -- other state lead to valid states only: each key stands once, and the keys ascend.
  pub Reach-IsValid : {s t : State V} → IsValid s → Reach s t → IsValid t
  Reach-IsValid v here = v
  Reach-IsValid v (next {t = t} {u = u} r step) = Step-IsValid t u step (Reach-IsValid v r)
