-- ===== src/Tramp/ErrorCode.antt =====
-- `TrampolineErrorCode` of libs/gl-plugin/src/tramp.rs, its numbers and its gRPC status.
pub mod Numbers
use greenlight.Prelude.{
  ℕ, ◌≡◌, Bool, Option, none, some, ℤ, pos, negsuc, eqz, ltb, leb, ◌&&◌, ◌||◌, ◌==◌, if◌then◌else◌,
}

pub data TrampolineErrorCode : Type 0 where
  feature_not_supported : TrampolineErrorCode
  invalid_node_id : TrampolineErrorCode
  network_error : TrampolineErrorCode
  unknown_peer : TrampolineErrorCode
  missing_amount : TrampolineErrorCode
  ambigous_amount : TrampolineErrorCode
  missing_channel : TrampolineErrorCode
  insufficient_funds : TrampolineErrorCode
  invalid_invoice : TrampolineErrorCode
  peer_node_failure : TrampolineErrorCode
  payment_failure : TrampolineErrorCode
  peer_connection_failure : TrampolineErrorCode
  missing_preimage : TrampolineErrorCode
  internal : TrampolineErrorCode
  rpc_error : ℤ → TrampolineErrorCode

-- The code of an RPC error is its number, -1 if it has none.
pub from_rpc_error : Option ℤ → TrampolineErrorCode
from_rpc_error none = rpc_error (negsuc 0)
from_rpc_error (some c) = rpc_error c

unfoldable pub code : TrampolineErrorCode → ℤ
code feature_not_supported = pos 42701
code invalid_node_id = pos 42702
code network_error = pos 42703
code unknown_peer = pos 42704
code missing_amount = pos 42705
code ambigous_amount = pos 42706
code missing_channel = pos 42707
code insufficient_funds = pos 42708
code invalid_invoice = pos 42709
code peer_node_failure = pos 42710
code payment_failure = pos 42711
code peer_connection_failure = pos 42712
code missing_preimage = pos 42713
code internal = pos 42714
code (rpc_error c) = c

-- `-1 | 200..204 | 208 | 209 | 212`; the range excludes its end.
abbrev pub is_pay_code : ℤ → Bool
is_pay_code (negsuc n) = n == 0
is_pay_code (pos n) = leb 200 n && ltb n 204 || n == 208 || n == 209 || n == 212

unfoldable pub from_code : ℤ → Option TrampolineErrorCode
from_code c =
    if eqz c (pos 42701)
    then some feature_not_supported
    else if eqz c (pos 42702)
    then some invalid_node_id
    else if eqz c (pos 42703)
    then some network_error
    else if eqz c (pos 42704)
    then some unknown_peer
    else if eqz c (pos 42705)
    then some missing_amount
    else if eqz c (pos 42706)
    then some ambigous_amount
    else if eqz c (pos 42707)
    then some missing_channel
    else if eqz c (pos 42708)
    then some insufficient_funds
    else if eqz c (pos 42709)
    then some invalid_invoice
    else if eqz c (pos 42710)
    then some peer_node_failure
    else if eqz c (pos 42711)
    then some peer_node_failure
    else if eqz c (pos 42712)
    then some peer_connection_failure
    else if eqz c (pos 42713)
    then some missing_preimage
    else if eqz c (pos 42714)
    then some internal
    else if is_pay_code c
    then some (rpc_error c)
    else none

-- The codes of `tonic` that are used.
pub data Code : Type 0 where
  unknown : Code
  invalid_argument : Code
  failed_precondition : Code
  internal_error : Code

pub status_code : TrampolineErrorCode → Code
status_code feature_not_supported = failed_precondition
status_code unknown_peer = failed_precondition
status_code missing_amount = failed_precondition
status_code missing_channel = failed_precondition
status_code insufficient_funds = failed_precondition
status_code peer_connection_failure = failed_precondition
status_code missing_preimage = failed_precondition
status_code invalid_node_id = invalid_argument
status_code ambigous_amount = invalid_argument
status_code invalid_invoice = invalid_argument
status_code network_error = internal_error
status_code peer_node_failure = internal_error
status_code internal = internal_error
status_code payment_failure = unknown
status_code (rpc_error c) = unknown
