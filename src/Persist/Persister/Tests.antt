-- ===== src/Persist/Persister/Tests.antt =====
-- A channel of a node, from its stub to its setup; the values are the entries themselves.
use greenlight.Prelude.{ℕ, ◌≡◌, refl, none, some, List, [], ◌∷◌, ◌++◌, codes}
use greenlight.Prelude.Run.{done}
use greenlight.Persist.Map.{lookup, insert, cmp}
use greenlight.Persist.Merge.{State, empty}
use greenlight.Persist.Store
use greenlight.Persist.Store.{Serde, contains_key, insert_new, update, prefixed, channel_prefix}
use greenlight.Persist.Persister.{
  ChannelEntry, ChannelStub, SignerChannel, new_channel, update_channel, stub_entry, channel_entry,
}

abbrev Stored : Type 0
Stored = ChannelEntry ℕ ℕ ℕ

abbrev as_is : Serde Stored Stored
as_is = record { to_value = λ v. v; from_value = λ v. some v }

abbrev hex : List ℕ → List ℕ
hex bytes = bytes

abbrev join_ids : List ℕ → List ℕ → List ℕ
join_ids node channel = node ++ channel

abbrev enforcement : ℕ → ℕ
enforcement n = n

abbrev node : List ℕ
node = codes "02"

abbrev stub : ChannelStub
stub = record { id0 = codes "aa"; blockheight = 6 }

abbrev ready : SignerChannel ℕ ℕ ℕ
ready = record {
  id0 = codes "aa";
  id = none;
  setup = 4;
  channel_value_sat = 1000;
  enforcement_state = 2;
}

abbrev with_stub : State Stored
with_stub = record {
  values =
      (
        prefixed channel_prefix (codes "02aa"),
        (
          0,
          record {
            channel_value_satoshis = 0;
            channel_setup = none;
            id = none;
            enforcement_state = 0;
            blockheight = some 6;
          },
        ),
      )
      ∷ [];
}

abbrev with_channel : State Stored
with_channel = record {
  values =
      (
        prefixed channel_prefix (codes "02aa"),
        (
          1,
          record {
            channel_value_satoshis = 1000;
            channel_setup = some 4;
            id = none;
            enforcement_state = 2;
            blockheight = none;
          },
        ),
      )
      ∷ [];
}

stub_run : new_channel hex as_is join_ids enforcement node stub empty ≡ done with_stub
unfolding new_channel stub_entry Store.insert_channel insert_new contains_key lookup insert
stub_run = refl

ready_run : update_channel hex as_is join_ids node ready with_stub ≡ done with_channel
unfolding update_channel channel_entry Store.update_channel update lookup insert cmp
ready_run = refl
