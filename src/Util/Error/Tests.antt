-- ===== src/Util/Error/Tests.antt =====
-- A payment failure on its way to a client.
use greenlight.Prelude.{◌≡◌, refl, none, some, [], pos, codes, false}
use greenlight.Prelude.Outcome.{ok}
use greenlight.Util.Error.{GrpcErrorDetails, Error, Json, to_status, try_from}
use greenlight.Util.Error.Transfer.{trampoline, received, is_rpc_error, try_from-trampoline}
use greenlight.Tramp.ErrorCode.{TrampolineErrorCode, payment_failure, code}

-- Only these details can be written and read.
abbrev details : GrpcErrorDetails
details = record { code = pos 42711; hint = none }

abbrev json : Json
json = record { to_vec = λ d. some (codes "{}"); from_slice = λ b. some details; decimal = λ n. [] }

abbrev failure : Error TrampolineErrorCode
failure = record {
  code = payment_failure;
  message = codes "no route";
  hint = none;
  context = some (codes "paying");
  source = none;
}

failure_own : is_rpc_error failure.code ≡ false
unfolding is_rpc_error
failure_own = refl

failure_read :
    json.from_slice (codes "{}") ≡ some (record { code = code failure.code; hint = failure.hint })
unfolding code
failure_read = refl

try_from-trampoline_example :
    try_from trampoline json (to_status trampoline json failure)
    ≡ ok (record failure { code = received failure.code; context = none; source = none })
try_from-trampoline_example =
    try_from-trampoline json failure (codes "{}") failure_own refl failure_read
