-- ===== src/Persist/Persister.antt =====
-- `MemoryPersister` of libs/gl-client/src/persist.rs: the operations by node and channel ids. The keys
-- are the hex form of an id, `hex_encode`, and `node_channel_id` joins a node's and a channel's id.
mod Tests
use greenlight.Prelude.{ℕ, ◌≡◌, Option, none, some, List, [], ◌∷◌}
use greenlight.Prelude.Run.{Run, done}
use greenlight.Persist.Map.{Key}
use greenlight.Persist.Merge.{State}
use greenlight.Persist.Store
use greenlight.Persist.Store.{Serde, RoundTrips}
use greenlight.Persist.Store.Channels.{get_channel-insert_channel, get_channel-update_channel}

-- `vls_persist::model::ChannelEntry`, with the signer's own types `S`, `I` and `E`.
pub record ChannelEntry (S I E : Type 0) : Type 0 where
  pub channel_value_satoshis : ℕ
  pub channel_setup : Option S
  pub id : Option I
  pub enforcement_state : E
  pub blockheight : Option ℕ

-- `ChannelStub` and `Channel` of the signer, as far as they are stored.
pub record ChannelStub : Type 0 where
  pub id0 : List ℕ
  pub blockheight : ℕ

pub record SignerChannel (S I E : Type 0) : Type 0 where
  pub id0 : List ℕ
  pub id : Option I
  pub setup : S
  pub channel_value_sat : ℕ
  pub enforcement_state : E

module _ {V : Type 0} (hex_encode : List ℕ → Key) where
  unfoldable pub new_node :
      {N M : Type 0} → Serde V N → Serde V M → List ℕ → N → M → State V → Run (State V)
  new_node sn sm node_id config state s =
      Store.insert_node sn sm (hex_encode node_id) config state s

  unfoldable pub update_node : {M : Type 0} → Serde V M → List ℕ → M → State V → Run (State V)
  update_node sm node_id state s = Store.update_node sm (hex_encode node_id) state s

  unfoldable pub delete_node : List ℕ → State V → State V
  delete_node node_id s = Store.delete_node (hex_encode node_id) s

  module _ {S I E : Type 0} (sc : Serde V (ChannelEntry S I E))
      (node_channel_id : List ℕ → List ℕ → List ℕ) where
    unfoldable pub delete_channel : List ℕ → List ℕ → State V → State V
    delete_channel node_id channel s =
        Store.delete_channel (hex_encode (node_channel_id node_id channel)) s

    -- The entry of a stub; `new_enforcement` is `EnforcementState::new`.
    unfoldable pub stub_entry : (ℕ → E) → ChannelStub → ChannelEntry S I E
    stub_entry new_enforcement stub = record {
      channel_value_satoshis = 0;
      channel_setup = none;
      id = none;
      enforcement_state = new_enforcement 0;
      blockheight = some stub.blockheight;
    }

    unfoldable pub new_channel : (ℕ → E) → List ℕ → ChannelStub → State V → Run (State V)
    new_channel new_enforcement node_id stub s =
        Store.insert_channel sc (hex_encode (node_channel_id node_id stub.id0))
          (stub_entry new_enforcement stub) s

    unfoldable pub channel_entry : SignerChannel S I E → ChannelEntry S I E
    channel_entry channel = record {
      channel_value_satoshis = channel.channel_value_sat;
      channel_setup = some channel.setup;
      id = channel.id;
      enforcement_state = channel.enforcement_state;
      blockheight = none;
    }

    unfoldable pub update_channel : List ℕ → SignerChannel S I E → State V → Run (State V)
    update_channel node_id channel s =
        Store.update_channel sc (hex_encode (node_channel_id node_id channel.id0))
          (channel_entry channel) s

    unfoldable pub get_channel : List ℕ → List ℕ → State V → Run (ChannelEntry S I E)
    get_channel node_id channel_id s =
        Store.get_channel sc (λ e. e) (hex_encode (node_channel_id node_id channel_id)) s

    -- A channel that is made ready after its stub was stored reads back with its setup and state, if
    -- reading inverts writing of channel entries.
    pub get_channel-update_new_channel :
        (new_enforcement : ℕ → E) (node_id : List ℕ) (stub : ChannelStub) (c : SignerChannel S I E)
        (s s' s'' : State V)
        → RoundTrips sc
        → new_channel new_enforcement node_id stub s ≡ done s'
        → update_channel node_id c s' ≡ done s''
        → (get_channel node_id stub.id0 s' ≡ done (stub_entry new_enforcement stub))
          × (get_channel node_id c.id0 s'' ≡ done (channel_entry c))
    unfolding new_channel update_channel get_channel
    get_channel-update_new_channel new_enforcement node_id stub c s s' s'' h made ready = (
      get_channel-insert_channel sc (λ e. e) (hex_encode (node_channel_id node_id stub.id0))
          (stub_entry new_enforcement stub) s s' h made,
      get_channel-update_channel sc (λ e. e) (hex_encode (node_channel_id node_id c.id0))
          (channel_entry c) s' s'' h ready,
    )

  unfoldable pub new_tracker : {T : Type 0} → Serde V T → List ℕ → T → State V → Run (State V)
  new_tracker st node_id tracker s = Store.new_chain_tracker st (hex_encode node_id) tracker s

  unfoldable pub clear_database : State V → State V
  clear_database s = Store.clear s
