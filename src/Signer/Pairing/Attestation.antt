-- ===== src/Signer/Pairing/Attestation.antt =====
-- The device that approves a pairing, libs/gl-client/src/pairing/attestation_device.rs:
-- `get_pairing_data`, `verify_pairing_data` and `approve_pairing`. Certificates and signatures are
-- parameters, and text is ASCII.
pub mod Exchange
pub mod Verified
mod Tests
use greenlight.Prelude.{
  ℕ, zero, suc, ◌+◌, ◌==◌, Bool, true, false, not, Option, none, some, List, [], ◌∷◌, ◌++◌,
  if◌then◌else◌, length, drop, starts_with, bytes_eq, codes,
}
use greenlight.Prelude.Outcome.{Result, ok, err, ◌>>=◌, ok_or}
use greenlight.Tlv.Proto.{be_bytes}
use greenlight.Signer.Pairing.{ApprovePairingRequest}

-- `s.find(t)`: what stands before the first `t`, and behind it.
unfoldable pub find_split : List ℕ → List ℕ → Option (List ℕ × List ℕ)
find_split [] t = if starts_with [] t then some ([], []) else none
find_split (c ∷ s) t =
    let later = find_split s t in
    if starts_with (c ∷ s) t
    then some ([], drop (length t) (c ∷ s))
    else elim later [ none ↦ none | some found ↦ some (c ∷ found.0, found.1) ]

-- `s.matches(t).count()`, with the length of `s` as fuel.
unfoldable pub count_matches : ℕ → List ℕ → List ℕ → ℕ
count_matches zero s t = 0
count_matches (suc fuel) s t = elim (find_split s t) [
  | none ↦ 0
  | some found ↦ suc (count_matches fuel found.1 t)
]

unfoldable pub ends_in : List ℕ → ℕ → Bool
ends_in [] c = false
ends_in (a ∷ []) c = a == c
ends_in (a ∷ b ∷ s) c = ends_in (b ∷ s) c

abbrev pub begins_with : List ℕ → ℕ → Bool
begins_with [] c = false
begins_with (a ∷ s) c = a == c

unfoldable pub restriction_contains_pubkey_exactly_once : List ℕ → List ℕ → Bool
restriction_contains_pubkey_exactly_once s pubkey =
    let search_field = codes "pubkey=" ++ pubkey in
    elim (find_split s search_field) [
      | none ↦ false
      | some found ↦
          if ends_in found.0 b'|'
          then false
          else if begins_with found.1 b'|'
          then false
          else count_matches (length s) s search_field == 1
    ]

pub record PairingData : Type 0 where
  pub device_id : List ℕ
  pub csr : List ℕ
  pub restrictions : List ℕ

pub data VerifyError : Type 0 where
  bad_csr : VerifyError
  no_match : VerifyError

-- `public_key` is the hex of the elliptic-curve key in a signing request.
unfoldable pub verify_pairing_data :
    (List ℕ → Option (List ℕ)) → PairingData → Result VerifyError (Unit {0})
verify_pairing_data public_key pd = do
  pk ← ok_or bad_csr (public_key pd.csr)
  (if bytes_eq pk pd.device_id
      then (if restriction_contains_pubkey_exactly_once pd.restrictions pd.device_id
          then ok tt
          else err no_match)
      else err no_match)

-- An answer of the server, and whether the deadline has not passed then.
pub record Attempt : Type 0 where
  pub result : Option PairingData
  pub in_time : Bool

-- The loop; none at the end of the list means that it still waits.
unfoldable pub get_pairing_data : List Attempt → Option (Option PairingData)
get_pairing_data [] = none
get_pairing_data (a ∷ attempts) =
    let again = get_pairing_data attempts in
    elim a.result [ some pd ↦ some (some pd) | none ↦ if a.in_time then again else some none ]

-- What the device signs.
abbrev pub data_to_sign : List ℕ → ℕ → List ℕ → List ℕ → List ℕ → List ℕ
data_to_sign device_id timestamp node_id device_name restrs =
    device_id ++ (be_bytes 8 timestamp ++ (node_id ++ (device_name ++ restrs)))

-- The request that is sent: `sign` signs with the key of the device, whose public key is `pubkey`.
unfoldable pub approve_pairing :
    (List ℕ → List ℕ)
    → List ℕ
    → List ℕ
    → List ℕ
    → ℕ
    → List ℕ
    → List ℕ
    → List ℕ
    → ApprovePairingRequest
approve_pairing sign pubkey rune node_id timestamp device_id device_name restrs = record {
  device_id = device_id;
  timestamp = timestamp;
  device_name = device_name;
  restrictions = restrs;
  pubkey = pubkey;
  sig = sign (data_to_sign device_id timestamp node_id device_name restrs);
  rune = rune;
}
