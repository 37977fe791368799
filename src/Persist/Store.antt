-- ===== src/Persist/Store.antt =====
-- The operations of `State` in libs/gl-client/src/persist.rs on nodes, channels and trackers.
-- The values of one kind are written and read by `serde_json`, the parameter `Serde`.
pub mod Updates
pub mod Reach
pub mod Channels
mod Tests
use greenlight.Prelude.{
  ℕ, ◌+◌, ◌%◌, ◌^◌, ◌≡◌, Bool, true, false, Option, none, some, List, [], ◌∷◌, ◌++◌, codes,
  starts_with, if◌then◌else◌, ◌==◌,
}
use greenlight.Prelude.Run.{Run, done, unwrap, assert, ◌>>=◌, ◌>>◌}
use greenlight.Persist.Map.{Key, BTreeMap, lookup, insert, remove}
use greenlight.Persist.Merge.{Entry, State}

-- `serde_json::to_value` and `serde_json::from_value` at the type `A`.
pub record Serde (V A : Type 0) : Type 0 where
  pub to_value : A → V
  pub from_value : V → Option A

-- Reading back what was written.
abbrev pub RoundTrips : {V A : Type 0} → Serde V A → Type 0
RoundTrips {A = A} s = (a : A) → s.from_value (s.to_value a) ≡ some a

abbrev pub node_prefix : Key
node_prefix = codes "nodes"

abbrev pub node_state_prefix : Key
node_state_prefix = codes "nodestates"

abbrev pub channel_prefix : Key
channel_prefix = codes "channels"

abbrev pub allowlist_prefix : Key
allowlist_prefix = codes "allowlists"

abbrev pub tracker_prefix : Key
tracker_prefix = codes "trackers"

-- `format!("{PREFIX}/{key}")`
abbrev pub prefixed : Key → Key → Key
prefixed p key = p ++ b'/' ∷ key

-- The `u64` version of an overwritten entry wraps.
abbrev pub next_version : ℕ → ℕ
next_version v = (v + 1) % 2 ^ 64

-- `k.split('/').last()`
pub last_part : Key → Key → Key
last_part [] part = part
last_part (c ∷ k) part = last_part k (if c == b'/' then [] else part ++ c ∷ [])

module _ {V : Type 0} where
  unfoldable pub contains_key : Key → State V → Bool
  contains_key k s = elim (lookup k s.values) [ none ↦ false | some e ↦ true ]

  -- `values.insert(key, (0, value))` under the assertion that the key is new.
  unfoldable pub insert_new : Key → V → State V → Run (State V)
  unfolding contains_key
  insert_new k v s = do
    assert (if contains_key k s then false else true)
    done (record { values = insert k (0, v) s.values })

  -- `let v = values.get_mut(key).expect(..); *v = (v.0 + 1, value)`
  unfoldable pub update : Key → V → State V → Run (State V)
  update k v s = do
    (ver, old) ← unwrap (lookup k s.values)
    done (record { values = insert k (next_version ver, v) s.values })

  module _ {N S : Type 0} (sn : Serde V N) (ss : Serde V S) where
    -- Both assertions stand before the first insertion.
    pub insert_node : Key → N → S → State V → Run (State V)
    unfolding contains_key
    insert_node key node_entry node_state_entry s = do
      let node_key = prefixed node_prefix key
      let state_key = prefixed node_state_prefix key
      assert (if contains_key node_key s then false else true)
      assert (if contains_key state_key s then false else true)
      done (record {
        values =
            insert state_key (0, ss.to_value node_state_entry)
              (insert node_key (0, sn.to_value node_entry) s.values);
      })

  pub update_node : {S : Type 0} → Serde V S → Key → S → State V → Run (State V)
  unfolding update
  update_node ss key node_state s =
      update (prefixed node_state_prefix key) (ss.to_value node_state) s

  pub delete_node : Key → State V → State V
  delete_node key s = record {
    values = remove (prefixed node_state_prefix key) (remove (prefixed node_prefix key) s.values);
  }

  unfoldable pub insert_channel : {C : Type 0} → Serde V C → Key → C → State V → Run (State V)
  unfolding insert_new
  insert_channel sc key channel_entry s =
      insert_new (prefixed channel_prefix key) (sc.to_value channel_entry) s

  -- The key is removed as it is given, without the prefix under which channels are stored.
  pub delete_channel : Key → State V → State V
  delete_channel key s = record { values = remove key s.values }

  unfoldable pub update_channel : {C : Type 0} → Serde V C → Key → C → State V → Run (State V)
  unfolding update
  update_channel sc key channel_entry s =
      update (prefixed channel_prefix key) (sc.to_value channel_entry) s

  -- The entry is returned as `entry.into()`, the signer's own type.
  pub get_channel : {C E : Type 0} → Serde V C → (C → E) → Key → State V → Run E
  get_channel sc into_core key s = do
    (ver, val) ← unwrap (lookup (prefixed channel_prefix key) s.values)
    entry ← unwrap (sc.from_value val)
    done (into_core entry)

  -- `decode_id` is `hex::decode` followed by `channel_id()`; the last `/` ends the prefix.
  pub collect_channels :
      {C E I : Type 0}
      → Serde V C
      → (C → E)
      → (Key → Option I)
      → Key
      → BTreeMap (Entry V)
      → Run (List (I × E))
  unfolding last_part
  collect_channels sc into_core decode_id prefix [] = done []
  collect_channels sc into_core decode_id prefix ((k, (ver, val)) ∷ m) =
      let rest = collect_channels sc into_core decode_id prefix m in
      if starts_with k prefix
      then (do
        id ← unwrap (decode_id (last_part k []))
        entry ← unwrap (sc.from_value val)
        others ← rest
        done ((id, into_core entry) ∷ others))
      else rest

  pub get_node_channels :
      {C E I : Type 0} → Serde V C → (C → E) → (Key → Option I) → Key → State V → Run (List (I × E))
  unfolding collect_channels
  get_node_channels sc into_core decode_id node_key s =
      collect_channels sc into_core decode_id (prefixed channel_prefix node_key) s.values

  pub new_chain_tracker : {T : Type 0} → Serde V T → Key → T → State V → Run (State V)
  unfolding insert_new
  new_chain_tracker st node_key tracker s =
      insert_new (prefixed tracker_prefix node_key) (st.to_value tracker) s

  pub update_tracker : {T : Type 0} → Serde V T → Key → T → State V → Run (State V)
  unfolding update
  update_tracker st node_key tracker s =
      update (prefixed tracker_prefix node_key) (st.to_value tracker) s

  -- The tracker is returned as `v.into_tracker(..)`.
  pub get_tracker : {T E : Type 0} → Serde V T → (T → E) → Key → State V → Run E
  get_tracker st into_tracker node_key s = do
    (ver, val) ← unwrap (lookup (prefixed tracker_prefix node_key) s.values)
    tracker ← unwrap (st.from_value val)
    done (into_tracker tracker)

  pub update_node_allowlist : {L : Type 0} → Serde V L → Key → L → State V → State V
  update_node_allowlist sl node_key allowlist s =
      let key = prefixed allowlist_prefix node_key in
      elim (lookup key s.values) [
        | none ↦ record { values = insert key (0, sl.to_value allowlist) s.values }
        | some (ver, old) ↦ record {
          values = insert key (next_version ver, sl.to_value allowlist) s.values;
        }
      ]

  -- A missing or unreadable allowlist counts as the empty one.
  pub get_node_allowlist : {L : Type 0} → Serde V L → L → Key → State V → L
  get_node_allowlist sl none_allowed node_key s =
      elim (lookup (prefixed allowlist_prefix node_key) s.values) [
        | none ↦ none_allowed
        | some (ver, val) ↦ elim (sl.from_value val) [ none ↦ none_allowed | some l ↦ l ]
      ]

  pub clear : State V → State V
  clear s = record { values = [] }
