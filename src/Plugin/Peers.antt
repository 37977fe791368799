-- ===== src/Plugin/Peers.antt =====
-- Peers that are remembered: `on_peer_connected` of libs/gl-plugin/src/lib.rs, `reconnect_peers` and
-- `get_reconnect_peers` of libs/gl-plugin/src/node/mod.rs, `disconnect` of
-- libs/gl-plugin/src/node/wrapper.rs. serde_json and core-lightning's datastore are parameters.
pub mod Requests
mod Tests
use greenlight.Prelude.{
  ℕ, Bool, true, false, Option, none, some, List, [], ◌∷◌, ◌++◌, map, ◌==◌, if◌then◌else◌, bytes_eq,
  codes, ltb, Ordering,
}
use greenlight.Prelude.Run.{Run, done, fail, panic, unwrap, ensure, ok_or, ◌>>=◌}
use greenlight.Persist.Map.{cmp}

pub data Direction : Type 0 where
  inbound outbound : Direction

pub record Peer : Type 0 where
  pub id : List ℕ
  pub direction : Direction
  pub addr : List ℕ
  pub features : List ℕ

pub record Json : Type 0 where
  pub to_string : Peer → List ℕ
  pub from_str : List ℕ → Option Peer

-- core-lightning's datastore: the texts below a key, and the state after a text is written or a key
-- deleted, which is the one before where the call fails.
pub record Datastore (D : Type 0) : Type 0 where
  pub listdatastore : List (List ℕ) → D → Option (List (Option (List ℕ)))
  pub create_or_replace : List (List ℕ) → List ℕ → D → D
  pub del_datastore : List (List ℕ) → D → D

pub record ListpeersPeers : Type 0 where
  pub id : List ℕ
  pub connected : Bool

pub record ConnectRequest : Type 0 where
  pub id : List ℕ
  pub host : Option (List ℕ)

abbrev pub peerlist : List (List ℕ)
peerlist = codes "greenlight" ∷ codes "peerlist" ∷ []

abbrev pub peer_key : List ℕ → List (List ℕ)
peer_key id = codes "greenlight" ∷ codes "peerlist" ∷ id ∷ []

-- `decoded` is the call, `opened` tells whether there is a connection to core-lightning.
unfoldable pub on_peer_connected :
    {D : Type 0} → Json → Datastore D → Option Peer → Bool → D → Run D
on_peer_connected json store decoded opened d = do
  peer ← unwrap decoded
  rpc ← ensure opened
  done (store.create_or_replace (peer_key peer.id) (json.to_string peer) d)

-- What the node answers is returned, whether or not the peer could be deleted; `id` is in hex form.
unfoldable pub disconnect : {D R : Type 0} → Datastore D → (List ℕ → R) → List ℕ → D → R × D
disconnect store inner id d = (inner id, store.del_datastore (peer_key id) d)

-- `s.replace('\\', "")`
unfoldable pub unescape : List ℕ → List ℕ
unescape [] = []
unescape (c ∷ s) = let rest = unescape s in if c == b'\\' then rest else c ∷ rest

unfoldable pub parse_peers : Json → List (Option (List ℕ)) → Run (List Peer)
unfolding unescape
parse_peers json [] = done []
parse_peers json (x ∷ datastore) = do
  s ← unwrap x
  peer ← unwrap (json.from_str (unescape s))
  peers ← parse_peers json datastore
  done (peer ∷ peers)

abbrev pub connected_request : ListpeersPeers → ConnectRequest
connected_request p = record { id = p.id; host = none }

abbrev pub stored_request : Peer → ConnectRequest
stored_request p = record { id = p.id; host = some p.addr }

unfoldable pub connected_requests : List ListpeersPeers → List ConnectRequest
connected_requests [] = []
connected_requests (p ∷ peers) =
    let rest = connected_requests peers in if p.connected then connected_request p ∷ rest else rest

abbrev pub is_after : Ordering → Bool
is_after Ordering.gt = true
is_after Ordering.eq = false
is_after Ordering.lt = false

-- `sort_by(|a, b| a.id.cmp(&b.id))`, a stable sort, by insertion.
unfoldable pub insert_sorted : ConnectRequest → List ConnectRequest → List ConnectRequest
insert_sorted a [] = a ∷ []
insert_sorted a (b ∷ requests) =
    let rest = insert_sorted a requests in
    if is_after (cmp a.id b.id) then b ∷ rest else a ∷ b ∷ requests

unfoldable pub sort_requests : List ConnectRequest → List ConnectRequest
unfolding insert_sorted
sort_requests [] = []
sort_requests (a ∷ requests) = insert_sorted a (sort_requests requests)

-- `dedup_by(|a, b| a.id.eq(&b.id))`: a request is dropped behind one with its id.
unfoldable pub dedup_after : ConnectRequest → List ConnectRequest → List ConnectRequest
dedup_after a [] = []
dedup_after a (b ∷ requests) =
    let same = dedup_after a requests in
    let other = dedup_after b requests in if bytes_eq b.id a.id then same else b ∷ other

unfoldable pub dedup : List ConnectRequest → List ConnectRequest
unfolding dedup_after
dedup [] = []
dedup (a ∷ requests) = a ∷ dedup_after a requests

-- The answers to `listpeers` and `listdatastore`.
unfoldable pub get_reconnect_peers :
    Json
    → Option (List ListpeersPeers)
    → Option (List (Option (List ℕ)))
    → Run (List ConnectRequest)
unfolding sort_requests dedup connected_requests
get_reconnect_peers json listpeers listdatastore = do
  peers ← ok_or listpeers
  datastore ← ok_or listdatastore
  dspeers ← parse_peers json datastore
  done (dedup (sort_requests (connected_requests peers ++ map stored_request dspeers)))

-- The calls of `connect`, in their order; what they answer is only logged.
unfoldable pub reconnect_peers :
    Json
    → ℕ
    → Option (List ListpeersPeers)
    → Option (List (Option (List ℕ)))
    → Run (List ConnectRequest)
reconnect_peers json signer_count listpeers listdatastore =
    let calls = get_reconnect_peers json listpeers listdatastore in
    if ltb signer_count 1 then fail else calls
