-- ===== src/Plugin/Stager.antt =====
-- `Stage` and `StageStream` of libs/gl-plugin/src/stager.rs. The hash map is a list without an order
-- that matters; a response channel is the number of the `send` that created it, and `answers` lists
-- what went into the channels. What a tokio channel answers is an argument.
pub mod Once
use greenlight.Prelude.{
  ℕ, ◌+◌, ◌-◌, ◌%◌, ◌^◌, ◌*◌, Bool, true, false, Option, none, some, List, [], ◌∷◌, ◌++◌, ◌||◌,
  ◌==◌, if◌then◌else◌,
}
use greenlight.Prelude.Run.{Run, done, fail, panic, ◌>>=◌}

pub record HsmRequest : Type 0 where
  pub request_id : ℕ
  pub raw : List ℕ

pub record HsmResponse : Type 0 where
  pub request_id : ℕ
  pub raw : List ℕ

pub record Request : Type 0 where
  pub request : HsmRequest
  pub response : ℕ

pub record Stage : Type 0 where
  pub requests : List (ℕ × Request)
  pub hsm_connections : ℕ
  pub next_channel : ℕ
  pub answers : List (ℕ × HsmResponse)

abbrev pub new : Stage
new = record { requests = []; hsm_connections = 0; next_channel = 0; answers = [] }

-- `requests.insert(id, r)`, which replaces the entry of the same id.
unfoldable pub put : ℕ → Request → List (ℕ × Request) → List (ℕ × Request)
put id r [] = (id, r) ∷ []
put id r ((j, q) ∷ m) = if j == id then (id, r) ∷ m else (j, q) ∷ put id r m

unfoldable pub find : ℕ → List (ℕ × Request) → Option Request
find id [] = none
find id ((j, q) ∷ m) = if j == id then some q else find id m

unfoldable pub take_out : ℕ → List (ℕ × Request) → List (ℕ × Request)
take_out id [] = []
take_out id ((j, q) ∷ m) = if j == id then m else (j, q) ∷ take_out id m

-- The request as it is staged and broadcast, and the stage afterwards. A broadcast without receivers
-- only logs a warning.
unfoldable pub send : HsmRequest → Stage → Stage × Request
send request s =
    let r : Request = record { request = request; response = s.next_channel } in
    (
      record s {
        requests = put request.request_id r s.requests;
        next_channel = s.next_channel + 1;
      },
      r,
    )

pub record StageStream : Type 0 where
  pub backlog : List Request

unfoldable pub pending : List (ℕ × Request) → List Request
pending [] = []
pending ((id, r) ∷ m) = r ∷ pending m

unfoldable pub mystream : Stage → Stage × StageStream
mystream s = (
  record s { hsm_connections = (s.hsm_connections + 1) % 2 ^ 64 },
  record { backlog = pending s.requests },
)

-- `received` is what the broadcast channel gives; it is only asked once the backlog is empty.
unfoldable pub next : Run Request → StageStream → Run Request × StageStream
next received stream = elim stream.backlog [
  | [] ↦ (received, stream)
  | r ∷ rest ↦ (done r, record { backlog = rest })
]

-- The end of a stream; the atomic counter wraps.
unfoldable pub drop_stream : Stage → Stage
drop_stream s = record s { hsm_connections = (s.hsm_connections + (2 ^ 64 - 1)) % 2 ^ 64 }

-- `open` tells whether the requester still waits on its channel. A response without a request is
-- ignored.
unfoldable pub respond : Bool → HsmResponse → Stage → Stage × Run (Unit {0})
respond open_ response s = elim (find response.request_id s.requests) [
  | none ↦ (s, done tt)
  | some req ↦
      let left = take_out response.request_id s.requests in
      if open_
      then (
        record s { requests = left; answers = s.answers ++ (req.response, response) ∷ [] },
        done tt,
      )
      else (record s { requests = left }, fail)
]

-- The message type in the first two bytes; a shorter message panics.
unfoldable pub is_sticky : List ℕ → Run Bool
is_sticky (a ∷ b ∷ rest) = let typ = a * 256 + b in done (typ == 5 || typ == 28)
is_sticky (a ∷ []) = panic
is_sticky [] = panic

unfoldable pub any_sticky : List (ℕ × Request) → Run Bool
any_sticky [] = done false
any_sticky ((id, r) ∷ m) = do
  here ← is_sticky r.request.raw
  later ← any_sticky m
  done (here || later)

unfoldable pub is_stuck : Stage → Run Bool
is_stuck s = any_sticky s.requests
