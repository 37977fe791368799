-- ===== src/Signer/Pairing/Attestation/Exchange.antt =====
-- A request of the attestation device at the signer.
use greenlight.Prelude.{ℕ, ◌≡◌, refl, Bool, true, Option, none, some, List}
use greenlight.Prelude.Outcome.{ok}
use greenlight.Signer.Rune.{Runes, verify_rune, create_rune}
use greenlight.Signer.Pairing.{
  pairing_data, pairing_request, split_restrictions, process_pairing_approval,
}
use greenlight.Signer.Pairing.Attestation.{approve_pairing}

-- If signatures verify over what the device has signed, its rune can be decoded and allows the approval, and a rune can be
-- made from the restrictions, then the signer of the same node answers the device's request with that
-- rune, under the id of the new device.
pub process_pairing_approval-approve_pairing :
    {R : Type 0} (verify : List ℕ → List ℕ → List ℕ → Bool) (decode : List ℕ → Option (List ℕ))
    (rs : Runes R) (now : Option ℕ) (sign : List ℕ → List ℕ)
    (pubkey rune rune_bytes node_id : List ℕ) (timestamp : ℕ)
    (device_id device_name restrs approved : List ℕ)
    → ((signed : List ℕ) → verify pubkey signed (sign signed) ≡ true)
    → decode rune ≡ some rune_bytes
    → verify_rune rs now (
        pairing_request
          (approve_pairing sign pubkey rune node_id timestamp device_id device_name restrs)
          rune_bytes)
      ≡ ok tt
    → create_rune rs none (split_restrictions restrs) ≡ ok approved
    → process_pairing_approval verify decode rs now node_id
        (approve_pairing sign pubkey rune node_id timestamp device_id device_name restrs)
      ≡ ok (record { device_id = device_id; node_id = node_id; rune = approved })
unfolding process_pairing_approval approve_pairing pairing_data
process_pairing_approval-approve_pairing verify decode rs now sign pubkey rune rune_bytes node_id
      timestamp device_id device_name restrs approved correct decoded allowed created =
    rw (correct _, decoded, allowed, created) refl
