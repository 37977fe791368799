-- ===== src/Signer/Pairing.antt =====
-- `process_pairing_approval` of libs/gl-client/src/signer/mod.rs, up to the response that it sends.
pub mod Signature
pub mod Attestation
use greenlight.Prelude.{ℕ, Bool, true, false, Option, none, some, List, [], ◌∷◌, ◌++◌, codes, map}
use greenlight.Prelude.Outcome.{Result, ok, err, ◌>>=◌, ok_or, map_err}
use greenlight.Tlv.Proto.{be_bytes}
use greenlight.Signer.Model.{PendingRequest}
use greenlight.Signer.Rune.{Runes, RuneError, verify_rune, create_rune, split}

pub record ApprovePairingRequest : Type 0 where
  pub device_id : List ℕ
  pub timestamp : ℕ
  pub device_name : List ℕ
  pub restrictions : List ℕ
  pub pubkey : List ℕ
  pub sig : List ℕ
  pub rune : List ℕ

pub record ApprovePairingResponse : Type 0 where
  pub device_id : List ℕ
  pub node_id : List ℕ
  pub rune : List ℕ

pub data PairingError : Type 0 where
  bad_signature : PairingError
  bad_encoding : PairingError
  rune_error : RuneError → PairingError

-- The fields one after the other.
unfoldable pub pairing_data : List ℕ → ApprovePairingRequest → List ℕ
pairing_data node_id req =
    req.device_id
    ++ (be_bytes 8 req.timestamp ++ (node_id ++ (req.device_name ++ req.restrictions)))

abbrev pub signature_check : Bool → Result PairingError (Unit {0})
signature_check true = ok tt
signature_check false = err bad_signature

-- `restrictions.split('&')`, each part split at `|`.
unfoldable pub split_restrictions : List ℕ → List (List (List ℕ))
split_restrictions text = map (λ part. split b'|' [] part) (split b'&' [] text)

-- The rune as it stands in a pending request.
abbrev pub pairing_request : ApprovePairingRequest → List ℕ → PendingRequest
pairing_request req rune = record {
  request = [];
  uri = codes "/cln.Node/ApprovePairing";
  signature = req.sig;
  pubkey = req.pubkey;
  timestamp = req.timestamp;
  rune = rune;
}

-- `decode` is base64.
unfoldable pub process_pairing_approval :
    {R : Type 0}
    → (List ℕ → List ℕ → List ℕ → Bool)
    → (List ℕ → Option (List ℕ))
    → Runes R
    → Option ℕ
    → List ℕ
    → ApprovePairingRequest
    → Result PairingError ApprovePairingResponse
process_pairing_approval verify decode rs now node_id req = do
  signed ← signature_check (verify req.pubkey (pairing_data node_id req) req.sig)
  rune ← ok_or bad_encoding (decode req.rune)
  allowed ← map_err rune_error (verify_rune rs now (pairing_request req rune))
  approved ← map_err rune_error (create_rune rs none (split_restrictions req.restrictions))
  ok (record { device_id = req.device_id; node_id = node_id; rune = approved })
