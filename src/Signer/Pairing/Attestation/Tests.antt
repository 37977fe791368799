-- ===== src/Signer/Pairing/Attestation/Tests.antt =====
-- A device that is approved, and pairing data that is verified.
use greenlight.Prelude.{
  ℕ, ◌≡◌, refl, true, Option, none, some, List, codes, bytes_eq, starts_with, contains,
}
use greenlight.Prelude.Outcome.{ok}
use greenlight.Signer.Rune.{
  create_rune, verify_rune, parse_restrictions, has_pubkey_field, names_pubkey, join, split,
  uri_method, method_of_parts, to_lowercase, rune_context, check_alternative, field_value,
}
use greenlight.Signer.Example.{verifier, runes}
use greenlight.Signer.Pairing.{
  ApprovePairingRequest, pairing_request, split_restrictions, process_pairing_approval,
}
use greenlight.Signer.Pairing.Attestation.{
  approve_pairing, PairingData, verify_pairing_data, restriction_contains_pubkey_exactly_once,
  find_split, count_matches, ends_in,
}
use greenlight.Signer.Pairing.Attestation.Exchange.{process_pairing_approval-approve_pairing}

-- The signature of the example is the public key.
abbrev sign : List ℕ → List ℕ
sign signed = codes "k"

abbrev decode : List ℕ → Option (List ℕ)
decode text = some text

abbrev asked : ApprovePairingRequest
asked =
    approve_pairing sign (codes "k") (codes "pubkey=k") (codes "n") 3 (codes "d") (codes "phone")
      (codes "pubkey=k")

verify_constant : (signed : List ℕ) → verifier.verify (codes "k") signed (sign signed) ≡ true
unfolding bytes_eq
verify_constant signed = refl

rune_allowed : verify_rune runes (some 5) (pairing_request asked (codes "pubkey=k")) ≡ ok tt
unfolding verify_rune approve_pairing contains split uri_method method_of_parts to_lowercase
    rune_context check_alternative field_value bytes_eq starts_with
rune_allowed = refl

rune_made : create_rune runes none (split_restrictions (codes "pubkey=k")) ≡ ok (codes "pubkey=k")
unfolding create_rune split_restrictions parse_restrictions has_pubkey_field names_pubkey join split
    bytes_eq
rune_made = refl

process_pairing_approval-approve_pairing_example :
    process_pairing_approval verifier.verify decode runes (some 5) (codes "n") asked
    ≡ ok (record { device_id = codes "d"; node_id = codes "n"; rune = codes "pubkey=k" })
process_pairing_approval-approve_pairing_example =
    process_pairing_approval-approve_pairing verifier.verify decode runes (some 5) sign (codes "k")
      (codes "pubkey=k") (codes "pubkey=k") (codes "n") 3 (codes "d") (codes "phone")
      (codes "pubkey=k") (codes "pubkey=k") verify_constant refl rune_allowed rune_made

-- A signing request is its key.
abbrev data_of_device : PairingData
data_of_device = record {
  device_id = codes "02";
  csr = codes "02";
  restrictions = codes "method=pay&pubkey=02";
}

verified_run : verify_pairing_data decode data_of_device ≡ ok tt
unfolding verify_pairing_data restriction_contains_pubkey_exactly_once find_split count_matches
    ends_in starts_with bytes_eq
verified_run = refl

-- A longer key that begins with the device's id is taken for it.
longer_run : restriction_contains_pubkey_exactly_once (codes "pubkey=0203") (codes "02") ≡ true
unfolding restriction_contains_pubkey_exactly_once find_split count_matches ends_in starts_with
longer_run = refl
