-- ===== src/Util/Error/Transfer.antt =====
-- An error behind its gRPC status.
use greenlight.Prelude.{ℕ, ◌≡◌, ◌∙◌, refl, Bool, true, false, none, some, List, arith}
use greenlight.Prelude.Outcome.{Result, ok, err}
use greenlight.Util.Error.{
  ErrorCode, Error, Json, unknown_code, ParsingError, to_status, info_of, try_from,
}
use greenlight.Tramp.ErrorCode.{
  TrampolineErrorCode, Code, code, from_code, status_code, feature_not_supported, invalid_node_id,
  network_error, unknown_peer, missing_amount, ambigous_amount, missing_channel, insufficient_funds,
  invalid_invoice, peer_node_failure, payment_failure, peer_connection_failure, missing_preimage,
  internal, rpc_error,
}

-- What `from_code` answers to the number decides: the error comes back with that code, its message and
-- its hint, or its number is unknown.
pub try_from-to_status :
    {C S : Type 0} (ec : ErrorCode C S) (json : Json) (e : Error C) (bytes : List ℕ)
    → json.to_vec (record { code = ec.code e.code; hint = e.hint }) ≡ some bytes
    → json.from_slice bytes ≡ some (record { code = ec.code e.code; hint = e.hint })
    → try_from ec json (to_status ec json e)
      ≡ elim (ec.from_code (ec.code e.code)) as (λ x. Result ParsingError (Error C)) [
        | none ↦ err (unknown_code (ec.code e.code))
        | some c ↦ ok (record e { code = c; context = none; source = none })
      ]
unfolding try_from info_of to_status
try_from-to_status ec json e bytes written read = ground (arith, written, read)

-- `ErrorCode` for the codes of trampoline payments.
abbrev pub trampoline : ErrorCode TrampolineErrorCode Code
trampoline = record { code = code; from_code = from_code; status_code = status_code }

-- The code that the other side gets.
abbrev pub received : TrampolineErrorCode → TrampolineErrorCode
received payment_failure = peer_node_failure
received c = c

unfoldable pub is_rpc_error : TrampolineErrorCode → Bool
is_rpc_error (rpc_error n) = true
is_rpc_error c = false

from_code-received :
    (c : TrampolineErrorCode) → is_rpc_error c ≡ false → from_code (code c) ≡ some (received c)
unfolding from_code code is_rpc_error
from_code-received feature_not_supported h = refl
from_code-received invalid_node_id h = refl
from_code-received network_error h = refl
from_code-received unknown_peer h = refl
from_code-received missing_amount h = refl
from_code-received ambigous_amount h = refl
from_code-received missing_channel h = refl
from_code-received insufficient_funds h = refl
from_code-received invalid_invoice h = refl
from_code-received peer_node_failure h = refl
from_code-received payment_failure h = refl
from_code-received peer_connection_failure h = refl
from_code-received missing_preimage h = refl
from_code-received internal h = refl
from_code-received (rpc_error n) h = cc

-- A trampoline error of the plugin's own that is sent as a status, whose details are written and read
-- back, arrives with its code, its message and its hint, without context and source; but a payment
-- failure arrives as a failure of the peer's node.
pub try_from-trampoline :
    (json : Json) (e : Error TrampolineErrorCode) (bytes : List ℕ)
    → is_rpc_error e.code ≡ false
    → json.to_vec (record { code = code e.code; hint = e.hint }) ≡ some bytes
    → json.from_slice bytes ≡ some (record { code = code e.code; hint = e.hint })
    → try_from trampoline json (to_status trampoline json e)
      ≡ ok (record e { code = received e.code; context = none; source = none })
try_from-trampoline json e bytes own written read =
    try_from-to_status trampoline json e bytes written read
    ∙ rw (from_code-received e.code own) refl
