-- ===== src/Signer/Check.antt =====
-- `check_request_auth` of libs/gl-client/src/signer/mod.rs. `verify` is ECDSA over P-256 with SHA-256,
-- of a public key, the data and the signature.
use greenlight.Prelude.{ℕ, Bool, true, false, Option, List, [], ◌∷◌, ◌++◌, ◌==◌, if◌then◌else◌}
use greenlight.Prelude.Outcome.{Result, ok, err, ◌>>=◌, map_err}
use greenlight.Tlv.Proto.{be_bytes}
use greenlight.Signer.Model.{PendingRequest}
use greenlight.Signer.Rune.{Runes, RuneError, verify_rune}

pub data AuthError : Type 0 where
  bad_signature : AuthError
  bad_rune : RuneError → AuthError

abbrev pub is_empty : List ℕ → Bool
is_empty [] = true
is_empty (c ∷ s) = false

-- A pending request that lacks a field is dropped.
unfoldable pub is_complete : PendingRequest → Bool
is_complete r =
    if is_empty r.pubkey
    then false
    else if is_empty r.signature
    then false
    else if is_empty r.rune
    then false
    else true

-- The payload, and the timestamp as a `u64` if there is one.
unfoldable pub signed_data : PendingRequest → List ℕ
signed_data r = if r.timestamp == 0 then r.request else r.request ++ be_bytes 8 r.timestamp

abbrev pub signature_check : Bool → Result AuthError (Unit {0})
signature_check true = ok tt
signature_check false = err bad_signature

module _ {R : Type 0} (verify : List ℕ → List ℕ → List ℕ → Bool) (rs : Runes R)
    (now : Option ℕ) where
  unfoldable pub check_one : PendingRequest → Result AuthError PendingRequest
  check_one r = do
    signed ← signature_check (verify r.pubkey (signed_data r) r.signature)
    allowed ← map_err bad_rune (verify_rune rs now r)
    ok r

  unfoldable pub check_request_auth : List PendingRequest → List (Result AuthError PendingRequest)
  check_request_auth [] = []
  check_request_auth (r ∷ more) =
      let rest = check_request_auth more in if is_complete r then check_one r ∷ rest else rest
