-- ===== src/Persist/Store/Tests.antt =====
-- A signer's state in use: nodes, channels and allowlists whose values are plain bytes.
use greenlight.Prelude.{ℕ, ◌≡◌, refl, some, [], ◌∷◌, arith, codes}
use greenlight.Prelude.Run.{done}
use greenlight.Persist.Map.{Key, lookup, insert, cmp}
use greenlight.Persist.Merge.{State, merge, empty}
use greenlight.Persist.Store.{
  Serde, contains_key, insert_new, update, insert_channel, update_channel, prefixed, channel_prefix,
  node_prefix, node_state_prefix,
}
use greenlight.Persist.Store.Updates.{merge-update}
use greenlight.Persist.Store.Reach.{Step, Reach}

-- Values are written as they are.
abbrev as_is : Serde ℕ ℕ
as_is = record { to_value = λ v. v; from_value = λ v. some v }

abbrev key : Key
key = codes "ab"

abbrev stored : State ℕ
stored = record { values = (key, (4, 7)) ∷ [] }

abbrev updated : State ℕ
updated = record { values = (key, (5, 8)) ∷ [] }

update_run : update key 8 stored ≡ done updated
unfolding update lookup insert cmp
update_run = refl

stored_there : lookup key stored.values ≡ some (4, 7)
unfolding lookup cmp
stored_there = refl

merge-update_example : merge updated stored ≡ (updated, [])
merge-update_example =
    merge-update key 8 stored updated 4 7 stored_there (omega arith) (tt, tt) update_run

-- One channel, inserted and then updated.
abbrev one_channel : State ℕ
one_channel = record { values = (prefixed channel_prefix key, (0, 7)) ∷ [] }

abbrev channel_updated_state : State ℕ
channel_updated_state = record { values = (prefixed channel_prefix key, (1, 8)) ∷ [] }

insert_channel_run : insert_channel as_is key 7 empty ≡ done one_channel
unfolding insert_channel insert_new contains_key lookup insert
insert_channel_run = refl

update_channel_run : update_channel as_is key 8 one_channel ≡ done channel_updated_state
unfolding update_channel update lookup insert cmp
update_channel_run = refl

abbrev one_node : State ℕ
one_node = record {
  values = (prefixed node_prefix key, (0, 1)) ∷ (prefixed node_state_prefix key, (0, 2)) ∷ [];
}

-- A channel is inserted and updated, and an older state merged in.
reached : Reach as_is as_is as_is as_is as_is empty channel_updated_state
reached =
    Reach.next (Reach.next Reach.here (Step.channel_inserted key 7 insert_channel_run))
      (Step.channel_updated key 8 update_channel_run)
