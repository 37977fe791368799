-- ===== src/Persist/Store/Channels.antt =====
-- Channels, nodes and allowlists in the state: what is read after what is written.
use greenlight.Prelude.{
  ◌⊎◌, bytes_eq, bytes_eq_refl, bytes_eq→eq, Bool-cases, ℕ, ◌≡◌, ◌≢◌, refl, sym, none, [], ◌∷◌,
  Ordering, arith, All, Option-cases, inl, inr,
}
use mathlib.Core.Path.{subst}
use greenlight.Prelude.Run.{done}
use greenlight.Persist.Map.{Key, cmp, lookup, remove}
use greenlight.Persist.Map.Order.{cmp-eq, cmp_refl}
use greenlight.Persist.Map.Laws.{lookup-insert, lookup-remove, remove-IsSorted}
use greenlight.Persist.Merge.{State}
use greenlight.Persist.Merge.Spec.{IsValid}
use greenlight.Persist.Store.Updates.{Written, update_stores, lookup-Written}
use greenlight.Persist.Store.{
  Serde, RoundTrips, prefixed, channel_prefix, node_prefix, node_state_prefix, allowlist_prefix,
  next_version, contains_key, insert_channel, update_channel, delete_channel, get_channel,
  delete_node, update_node_allowlist, get_node_allowlist,
}

module _ {V C E : Type 0} (sc : Serde V C) (into_core : C → E) where
  -- A channel reads back as it was inserted, if reading inverts writing of its values.
  pub get_channel-insert_channel :
      (key : Key) (c : C) (s s' : State V)
      → RoundTrips sc
      → insert_channel sc key c s ≡ done s'
      → get_channel sc into_core key s' ≡ done (into_core c)
  unfolding insert_channel get_channel contains_key
  get_channel-insert_channel key c s s' h r = ground (
    arith,
    h c,
    cmp_refl (prefixed channel_prefix key),
    lookup-insert (prefixed channel_prefix key) (prefixed channel_prefix key) (0, sc.to_value c)
        s.values,
  )

  -- A channel reads back as it was last updated, if reading inverts writing of its values.
  pub get_channel-update_channel :
      (key : Key) (c : C) (s s' : State V)
      → RoundTrips sc
      → update_channel sc key c s ≡ done s'
      → get_channel sc into_core key s' ≡ done (into_core c)
  unfolding update_channel get_channel
  get_channel-update_channel key c s s' h r =
      let (ver, w) = update_stores (prefixed channel_prefix key) (sc.to_value c) s s' r in
      rw (lookup-Written (prefixed channel_prefix key) (ver, sc.to_value c) s s' w, h c) refl

  slash_in_prefixed : (p key : Key) → All (λ c. c ≢ b'/') (prefixed p key) → ⊥
  slash_in_prefixed [] key h = h.0 refl
  slash_in_prefixed (c ∷ p) key h = slash_in_prefixed p key h.1

  lookup-delete_channel :
      (p id key : Key) (s : State V)
      → All (λ c. c ≢ b'/') id
      → IsValid s
      → lookup (prefixed p key) (delete_channel id s).values ≡ lookup (prefixed p key) s.values
  unfolding delete_channel
  lookup-delete_channel p id key s h v =
      let other : cmp (prefixed p key) id ≢ Ordering.eq = λ e.
        slash_in_prefixed p key
          (subst (All (λ c. c ≢ b'/')) (sym (cmp-eq (prefixed p key) id e)) h) in
      ground (arith, lookup-remove id (prefixed p key) s.values v)

  -- `delete_channel` on a valid state leaves every channel in place: the id that it is given, a text
  -- without `/`, is looked for without the prefix that the other operations put before it.
  pub get_channel-delete_channel :
      (id key : Key) (s : State V)
      → All (λ c. c ≢ b'/') id
      → IsValid s
      → get_channel sc into_core key (delete_channel id s) ≡ get_channel sc into_core key s
  unfolding get_channel
  get_channel-delete_channel id key s h v =
      rw (lookup-delete_channel channel_prefix id key s h v) refl

module _ {V : Type 0} where
  -- Deleting a node from a valid state removes its entry and its state, and nothing else.
  pub lookup-delete_node :
      (key k : Key) (s : State V)
      → IsValid s
      → lookup k (delete_node key s).values ≡ elim (cmp k (prefixed node_state_prefix key)) [
        | Ordering.eq ↦ none
        | _ ↦ elim (cmp k (prefixed node_prefix key)) [ Ordering.eq ↦ none | _ ↦ lookup k s.values ]
      ]
  unfolding delete_node
  lookup-delete_node key k s v = ground (
    arith,
    lookup-remove (prefixed node_state_prefix key) k (remove (prefixed node_prefix key) s.values),
    remove-IsSorted (prefixed node_prefix key) s.values,
    lookup-remove (prefixed node_prefix key) k s.values,
  )

  update_node_allowlist_stores :
      {L : Type 0} (sl : Serde V L) (l : L) (node : Key) (s : State V)
      → (ver : ℕ) × Written
          (prefixed allowlist_prefix node)
          (ver, sl.to_value l)
          s
          (update_node_allowlist sl node l s)
  unfolding update_node_allowlist
  update_node_allowlist_stores sl l node s =
      let key = prefixed allowlist_prefix node in
      elim (Option-cases (lookup key s.values)) [
        | inl e ↦ (
          0,
          rw (e, update_node_allowlist) (λ k. lookup-insert key k (0, sl.to_value l) s.values),
        )
        | inr ((ver, old), e) ↦ (
          next_version ver,
          rw (e, update_node_allowlist)
              (λ k. lookup-insert key k (next_version ver, sl.to_value l) s.values),
        )
      ]

  -- After `update_node_allowlist` the allowlist of the node is the one given, and that of every
  -- other node is as before, if reading inverts writing of the list.
  pub get_node_allowlist-update :
      {L : Type 0} (sl : Serde V L) (none_allowed l : L) (node other : Key) (s : State V)
      → RoundTrips sl
      → (get_node_allowlist sl none_allowed node (update_node_allowlist sl node l s) ≡ l)
        × ((node ≡ other)
            ⊎ (get_node_allowlist sl none_allowed other (update_node_allowlist sl node l s)
                ≡ get_node_allowlist sl none_allowed other s))
  unfolding get_node_allowlist
  get_node_allowlist-update sl none_allowed l node other s h =
      let (ver, w) = update_node_allowlist_stores sl l node s in
      let s' = update_node_allowlist sl node l s in
      let here = lookup-Written (prefixed allowlist_prefix node) (ver, sl.to_value l) s s' w in
      (
        ground (arith, here, h l),
        elim (Bool-cases (bytes_eq node other)) [
          | inl e ↦ inl (bytes_eq→eq node other e)
          | inr e ↦
              let ne : node ≢ other = λ q. absurd (ground (arith, bytes_eq_refl other, q, e)) in
              let there = w (prefixed allowlist_prefix other) in
              let same =
                cmp-eq (prefixed allowlist_prefix other) (prefixed allowlist_prefix node) in
              inr (ground (arith, there, same))
        ],
      )
