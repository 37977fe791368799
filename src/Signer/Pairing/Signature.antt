-- ===== src/Signer/Pairing/Signature.antt =====
-- What the signature of a pairing request covers.
use greenlight.Prelude.{ℕ, ◌≡◌, refl, Bool, true, false, Option, none, some, List, ◌++◌, arith}
use mathlib.Core.List.{append_assoc}
use greenlight.Prelude.Outcome.{ok, ok_or, map_err, >>=-eq-ok}
use greenlight.Signer.Rune.{
  Runes, Alternative, verify_rune, create_rune, parse_restrictions, has_pubkey_field,
}
use greenlight.Signer.Rune.Create.{create_rune_lem}
use greenlight.Signer.Pairing.{
  ApprovePairingRequest, ApprovePairingResponse, pairing_data, signature_check, split_restrictions,
  pairing_request, process_pairing_approval, rune_error, bad_encoding,
}

-- The signature does not fix where the device's name ends and its restrictions begin: a text moved
-- from the front of the restrictions to the end of the name leaves the signed data as they are.
pub pairing_data_shift :
    (node_id moved restrictions : List ℕ) (req : ApprovePairingRequest)
    → pairing_data node_id
        (record req { device_name = req.device_name ++ moved; restrictions = restrictions })
      ≡ pairing_data node_id (record req { restrictions = moved ++ restrictions })
unfolding pairing_data
pairing_data_shift node_id moved restrictions req =
    rw (append_assoc req.device_name moved restrictions) refl

signature_check-ok : (b : Bool) → signature_check b ≡ ok tt → b ≡ true
signature_check-ok true h = refl
signature_check-ok false h = cc

-- An approved pairing was signed by the device that asks for it under a rune that allows it. The response
-- names the new device and the node, and its rune is one that was made from the requested restrictions,
-- which have one on a public key.
pub process_pairing_approval_lem :
    {R : Type 0} (verify : List ℕ → List ℕ → List ℕ → Bool) (decode : List ℕ → Option (List ℕ))
    (rs : Runes R) (now : Option ℕ) (node_id : List ℕ) (req : ApprovePairingRequest)
    (resp : ApprovePairingResponse)
    → process_pairing_approval verify decode rs now node_id req ≡ ok resp
    → (verify req.pubkey (pairing_data node_id req) req.sig ≡ true)
      × ((rune : List ℕ) × (decode req.rune ≡ some rune)
          × (verify_rune rs now (pairing_request req rune) ≡ ok tt))
      × ((res : List (List Alternative)) × (parse_restrictions rs
              (split_restrictions req.restrictions)
            ≡ ok res)
          × (has_pubkey_field res ≡ true))
      × (create_rune rs none (split_restrictions req.restrictions) ≡ ok resp.rune)
      × (resp.device_id ≡ req.device_id)
      × (resp.node_id ≡ node_id)
unfolding process_pairing_approval
process_pairing_approval_lem verify decode rs now node_id req resp h =
    let signature = verify req.pubkey (pairing_data node_id req) req.sig in
    let (u, signed, h1) = >>=-eq-ok (signature_check signature) _ h in
    let (rune, decoded, h2) = >>=-eq-ok (ok_or bad_encoding (decode req.rune)) _ h1 in
    let (w, allowed, h3) =
      >>=-eq-ok (map_err rune_error (verify_rune rs now (pairing_request req rune))) _ h2 in
    let (approved, created, h4) =
      >>=-eq-ok (map_err rune_error (create_rune rs none (split_restrictions req.restrictions))) _
        h3 in
    (
      signature_check-ok signature signed,
      (rune, ground arith, ground arith),
      create_rune_lem rs (split_restrictions req.restrictions) approved (ground arith),
      ground (arith, h4),
      ground (arith, h4),
      ground (arith, h4),
    )
