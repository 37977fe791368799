-- ===== src/Plugin/Peers/Requests.antt =====
-- Which peers are reconnected: each once, in the order of their ids.
use greenlight.Prelude.{
  ℕ, ◌≡◌, ◌∙◌, refl, ap, false, Option, none, some, List, [], ◌∷◌, ◌++◌, map, if◌then◌else◌,
  bytes_eq, bytes_eq_refl, bytes_eq→eq, Ordering, arith, All, ltb,
}
use greenlight.Prelude.Run.{done}
use greenlight.Persist.Map.{cmp}
use greenlight.Persist.Map.Order.{cmp_refl, cmp-eq, cmp-gt, cmp-lt_trans}
use greenlight.Plugin.Peers.{
  Peer, Json, ListpeersPeers, ConnectRequest, parse_peers, connected_request, stored_request,
  connected_requests, is_after, insert_sorted, sort_requests, dedup_after, dedup,
  get_reconnect_peers, reconnect_peers,
}

-- The first request for an id, the first stored peer with it, and whether the id is connected.
unfoldable pub find_request : List ℕ → List ConnectRequest → Option ConnectRequest
find_request id [] = none
find_request id (a ∷ requests) = if bytes_eq a.id id then some a else find_request id requests

unfoldable pub find_stored : List ℕ → List Peer → Option ConnectRequest
find_stored id [] = none
find_stored id (p ∷ peers) =
    if bytes_eq p.id id then some (stored_request p) else find_stored id peers

unfoldable pub find_connected : List ℕ → List ListpeersPeers → Option ConnectRequest
find_connected id [] = none
find_connected id (p ∷ peers) =
    if p.connected
    then (if bytes_eq p.id id then some (connected_request p) else find_connected id peers)
    else find_connected id peers

abbrev pub or_else : Option ConnectRequest → Option ConnectRequest → Option ConnectRequest
or_else none other = other
or_else (some a) other = some a

find_request-append :
    (id : List ℕ) (l k : List ConnectRequest)
    → find_request id (l ++ k) ≡ or_else (find_request id l) (find_request id k)
unfolding find_request
find_request-append id [] k = refl
find_request-append id (a ∷ l) k = ground (arith, find_request-append id l k)

find_request-map :
    (id : List ℕ) (peers : List Peer)
    → find_request id (map stored_request peers) ≡ find_stored id peers
unfolding find_request find_stored
find_request-map id [] = refl
find_request-map id (p ∷ peers) = ground (arith, find_request-map id peers)

find_request-connected_requests :
    (id : List ℕ) (peers : List ListpeersPeers)
    → find_request id (connected_requests peers) ≡ find_connected id peers
unfolding find_request find_connected connected_requests
find_request-connected_requests id [] = refl
find_request-connected_requests id (p ∷ peers) =
    ground (arith, find_request-connected_requests id peers)

find_request-insert_sorted :
    (id : List ℕ) (a : ConnectRequest) (requests : List ConnectRequest)
    → find_request id (insert_sorted a requests) ≡ find_request id (a ∷ requests)
unfolding find_request insert_sorted
find_request-insert_sorted id a [] = refl
find_request-insert_sorted id a (b ∷ requests) = ground (
  arith,
  find_request-insert_sorted id a requests,
  bytes_eq→eq a.id id,
  bytes_eq→eq b.id id,
  cmp_refl id,
)

find_request-sort_requests :
    (id : List ℕ) (requests : List ConnectRequest)
    → find_request id (sort_requests requests) ≡ find_request id requests
unfolding find_request sort_requests
find_request-sort_requests id [] = refl
find_request-sort_requests id (a ∷ requests) =
    find_request-insert_sorted id a (sort_requests requests)
    ∙ unfold find_request in ground (arith, find_request-sort_requests id requests)

find_request-dedup_after :
    (id : List ℕ) (a : ConnectRequest) (requests : List ConnectRequest)
    → find_request id (a ∷ dedup_after a requests) ≡ find_request id (a ∷ requests)
unfolding find_request dedup_after
find_request-dedup_after id a [] = refl
find_request-dedup_after id a (b ∷ requests) = ground (
  arith,
  find_request-dedup_after id a requests,
  find_request-dedup_after id b requests,
  bytes_eq→eq b.id a.id,
)

find_request-dedup :
    (id : List ℕ) (requests : List ConnectRequest)
    → find_request id (dedup requests) ≡ find_request id requests
unfolding dedup
find_request-dedup id [] = refl
find_request-dedup id (a ∷ requests) = find_request-dedup_after id a requests

-- `a` is not behind any of the requests.
abbrev IsBefore : List ℕ → List ConnectRequest → Type 0
IsBefore id requests = All (λ b. is_after (cmp id b.id) ≡ false) requests

abbrev IsSorted : List ConnectRequest → Type 0
IsSorted [] = Unit {0}
IsSorted (a ∷ requests) = IsBefore a.id requests × IsSorted requests

-- Each id once, in ascending order.
abbrev pub Ascends : List ConnectRequest → Type 0
Ascends [] = Unit {0}
Ascends (a ∷ requests) = All (λ b. cmp a.id b.id ≡ Ordering.lt) requests × Ascends requests

not_after_trans :
    (a b c : List ℕ)
    → is_after (cmp a b) ≡ false
    → is_after (cmp b c) ≡ false
    → is_after (cmp a c) ≡ false
not_after_trans a b c h k = ground (arith, cmp-eq a b, cmp-eq b c, cmp-lt_trans a b c)

IsBefore-trans :
    (a b : List ℕ) (requests : List ConnectRequest)
    → is_after (cmp a b) ≡ false
    → IsBefore b requests
    → IsBefore a requests
IsBefore-trans a b [] h k = tt
IsBefore-trans a b (c ∷ requests) h k =
    (not_after_trans a b c.id h k.0, IsBefore-trans a b requests h k.1)

IsBefore-insert_sorted :
    (id : List ℕ) (a : ConnectRequest) (requests : List ConnectRequest)
    → is_after (cmp id a.id) ≡ false
    → IsBefore id requests
    → IsBefore id (insert_sorted a requests)
unfolding insert_sorted
IsBefore-insert_sorted id a [] h k = (h, tt)
IsBefore-insert_sorted id a (b ∷ requests) h k =
    ground (arith, IsBefore-insert_sorted id a requests)

insert_sorted-IsSorted :
    (a : ConnectRequest) (requests : List ConnectRequest)
    → IsSorted requests
    → IsSorted (insert_sorted a requests)
unfolding insert_sorted
insert_sorted-IsSorted a [] h = (tt, tt)
insert_sorted-IsSorted a (b ∷ requests) h = ground (
  arith,
  insert_sorted-IsSorted a requests,
  IsBefore-insert_sorted b.id a requests,
  IsBefore-trans a.id b.id requests,
  cmp-gt a.id b.id,
)

sort_requests-IsSorted : (requests : List ConnectRequest) → IsSorted (sort_requests requests)
unfolding sort_requests
sort_requests-IsSorted [] = tt
sort_requests-IsSorted (a ∷ requests) =
    insert_sorted-IsSorted a (sort_requests requests) (sort_requests-IsSorted requests)

All-lt_trans :
    (a b : List ℕ) (requests : List ConnectRequest)
    → cmp a b ≡ Ordering.lt
    → All (λ c. cmp b c.id ≡ Ordering.lt) requests
    → All (λ c. cmp a c.id ≡ Ordering.lt) requests
All-lt_trans a b [] h k = tt
All-lt_trans a b (c ∷ requests) h k = (cmp-lt_trans a b c.id h k.0, All-lt_trans a b requests h k.1)

lt_of_other :
    (a b : List ℕ) → is_after (cmp a b) ≡ false → bytes_eq b a ≡ false → cmp a b ≡ Ordering.lt
lt_of_other a b h k = ground (arith, cmp-eq a b, bytes_eq_refl b)

dedup_after-Ascends :
    (a : ConnectRequest) (requests : List ConnectRequest)
    → IsBefore a.id requests
    → IsSorted requests
    → Ascends (a ∷ dedup_after a requests)
unfolding dedup_after
dedup_after-Ascends a [] h k = (tt, tt)
dedup_after-Ascends a (b ∷ requests) h k = ground (
  arith,
  dedup_after-Ascends a requests h.1 k.1,
  dedup_after-Ascends b requests k.0 k.1,
  lt_of_other a.id b.id h.0,
  All-lt_trans a.id b.id (dedup_after b requests),
)

dedup-Ascends : (requests : List ConnectRequest) → IsSorted requests → Ascends (dedup requests)
unfolding dedup
dedup-Ascends [] h = tt
dedup-Ascends (a ∷ requests) h = dedup_after-Ascends a requests h.0 h.1

-- The calls are in strictly ascending order of their ids. For each id there is a call if a connected or
-- a stored peer has it: with no host if it is connected, and else with the address of the first stored
-- peer that has the id. Without a signer there is none.
pub reconnect_peers_lem :
    (json : Json) (signer_count : ℕ) (peers : List ListpeersPeers)
    (datastore : List (Option (List ℕ))) (stored : List Peer) (calls : List ConnectRequest)
    → parse_peers json datastore ≡ done stored
    → reconnect_peers json signer_count (some peers) (some datastore) ≡ done calls
    → (ltb signer_count 1 ≡ false)
      × Ascends calls
      × ((id : List ℕ)
          → find_request id calls ≡ or_else (find_connected id peers) (find_stored id stored))
unfolding reconnect_peers get_reconnect_peers
reconnect_peers_lem json signer_count peers datastore stored calls parsed h =
    let requests : List ConnectRequest = connected_requests peers ++ map stored_request stored in
    let same : calls ≡ dedup (sort_requests requests) = ground (arith, parsed, h) in
    (
      ground (arith, h),
      rw same (dedup-Ascends _ (sort_requests-IsSorted requests)),
      λ id.
          ap (find_request id) same
          ∙ find_request-dedup id (sort_requests requests)
          ∙ find_request-sort_requests id requests
          ∙ find_request-append id (connected_requests peers) (map stored_request stored)
          ∙ rw (find_request-connected_requests id peers, find_request-map id stored) refl,
    )
