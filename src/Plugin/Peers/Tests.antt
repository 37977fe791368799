-- ===== src/Plugin/Peers/Tests.antt =====
-- Two peers that are connected and two that are stored, one of them both.
use greenlight.Prelude.{
  ℕ, ◌≡◌, refl, true, false, bytes_eq, Option, some, none, List, [], ◌∷◌, codes, ltb, map, ◌++◌,
}
use greenlight.Prelude.Run.{done}
use greenlight.Plugin.Peers.{
  Peer, Direction, Json, Datastore, ListpeersPeers, ConnectRequest, on_peer_connected, disconnect,
  parse_peers, get_reconnect_peers, reconnect_peers,
}
use greenlight.Plugin.Peers.Requests.{
  Ascends, find_request, find_connected, find_stored, or_else, reconnect_peers_lem,
}

abbrev peer : List ℕ → Peer
peer id = record { id = id; direction = Direction.outbound; addr = codes "host"; features = [] }

-- The text of a peer is its id.
abbrev json : Json
json = record { to_string = λ p. p.id; from_str = λ s. some (peer s) }

abbrev peers : List ListpeersPeers
peers =
    record { id = codes "c"; connected = true }
    ∷ record { id = codes "a"; connected = true }
    ∷ record { id = codes "z"; connected = false }
    ∷ []

abbrev datastore : List (Option (List ℕ))
datastore = some (codes "b") ∷ some (codes "\\a") ∷ []

abbrev calls : List ConnectRequest
calls =
    record { id = codes "a"; host = none }
    ∷ record { id = codes "b"; host = some (codes "host") }
    ∷ record { id = codes "c"; host = none }
    ∷ []

stored_run : parse_peers json datastore ≡ done (peer (codes "b") ∷ peer (codes "a") ∷ [])
unfolding parse_peers
stored_run = refl

calls_run : reconnect_peers json 1 (some peers) (some datastore) ≡ done calls
unfolding reconnect_peers get_reconnect_peers parse_peers greenlight.Persist.Map.cmp bytes_eq
calls_run = refl

reconnect_peers_lem_example :
    (ltb 1 1 ≡ false)
    × Ascends calls
    × ((id : List ℕ)
        → find_request id calls
          ≡ or_else
              (find_connected id peers)
              (find_stored id (peer (codes "b") ∷ peer (codes "a") ∷ [])))
reconnect_peers_lem_example =
    reconnect_peers_lem json 1 peers datastore (peer (codes "b") ∷ peer (codes "a") ∷ []) calls
      stored_run calls_run

-- A datastore that is a list of the texts below the peers' key.
abbrev store : Datastore (List (List ℕ))
store = record {
  listdatastore = λ key d. some (map some d);
  create_or_replace = λ key text d. d ++ text ∷ [];
  del_datastore = λ key d. [];
}

remembered : on_peer_connected json store (some (peer (codes "b"))) true [] ≡ done (codes "b" ∷ [])
unfolding on_peer_connected
remembered = refl

forgotten : disconnect store (λ id. id) (codes "b") (codes "b" ∷ []) ≡ (codes "b", [])
unfolding disconnect
forgotten = refl
