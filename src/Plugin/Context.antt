-- ===== src/Plugin/Context.antt =====
-- The pending calls, `Context` of libs/gl-plugin/src/context.rs.
pub mod Pending
use greenlight.Prelude.{ℕ, Bool, Option, none, some, List, [], ◌∷◌, ◌++◌, bytes_eq, if◌then◌else◌}
use greenlight.Signer.Model.{PendingRequest}

pub record Request : Type 0 where
  pub pubkey : List ℕ
  pub signature : List ℕ
  pub rune : List ℕ
  pub payload : List ℕ
  pub uri : List ℕ
  pub timestamp : Option ℕ

-- A missing timestamp becomes 0.
unfoldable pub from : Request → PendingRequest
from r = record {
  pubkey = r.pubkey;
  signature = r.signature;
  request = r.payload;
  uri = r.uri;
  timestamp = elim r.timestamp [ none ↦ 0 | some t ↦ t ];
  rune = r.rune;
}

pub record Context : Type 0 where
  pub requests : List Request

abbrev pub new : Context
new = record { requests = [] }

unfoldable pub snapshot : Context → List Request
snapshot c = c.requests

unfoldable pub add_request : Request → Context → Context
add_request r c = record { requests = c.requests ++ r ∷ [] }

-- `retain(|a| a.signature != r.signature)`
unfoldable pub retain : List ℕ → List Request → List Request
retain signature [] = []
retain signature (a ∷ l) =
    let rest = retain signature l in if bytes_eq a.signature signature then rest else a ∷ rest

unfoldable pub remove_request : Request → Context → Context
remove_request r c = record { requests = retain r.signature c.requests }
