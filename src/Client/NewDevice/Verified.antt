-- ===== src/Client/NewDevice/Verified.antt =====
-- What a new device asks for passes the check of the device that approves it.
use greenlight.Prelude.{
  ℕ, zero, suc, ◌≡◌, ◌∙◌, refl, sym, ap, true, false, Option, none, some, List, [], ◌∷◌, ◌++◌,
  drop-append, starts_with, bytes_eq_refl, codes, arith,
}
use greenlight.Prelude.Run.{done, ok_or, done_injective, >>=-eq-done}
use greenlight.Prelude.Outcome.{ok}
use greenlight.Signer.Pairing.Attestation.{
  find_split, count_matches, ends_in, begins_with, restriction_contains_pubkey_exactly_once,
  verify_pairing_data,
}
use greenlight.Client.Credentials.{Proto, Files}
use greenlight.Client.Scheduler.{DeviceCert, Response}
use greenlight.Client.NewDevice.{
  PairDeviceRequest, PairingSessionData, appended, restriction_of, pair_device,
}

starts_with-append : (t rest : List ℕ) → starts_with (t ++ rest) t ≡ true
unfolding starts_with
starts_with-append [] rest = refl
starts_with-append (c ∷ t) rest = ground (arith, starts_with-append t rest)

find_split-head : (c : ℕ) (t rest : List ℕ) → find_split (c ∷ (t ++ rest)) (c ∷ t) ≡ some ([], rest)
unfolding find_split
find_split-head c t rest = rw (starts_with-append (c ∷ t) rest, drop-append t rest) refl

begins_with-appended : (restrictions : List ℕ) → begins_with (appended restrictions) b'|' ≡ false
begins_with-appended [] = refl
begins_with-appended (c ∷ restrictions) = refl

-- A text in front of restrictions that do not mention it again is found there just once.
count_matches-head :
    (fuel c : ℕ) (t rest : List ℕ)
    → find_split rest (c ∷ t) ≡ none
    → count_matches (suc fuel) (c ∷ (t ++ rest)) (c ∷ t) ≡ 1
unfolding count_matches
count_matches-head zero c t rest h = rw (count_matches, find_split-head c t rest) refl
count_matches-head (suc fuel) c t rest h =
    rw (count_matches, find_split-head c t rest, count_matches, h) refl

restriction_of-once :
    (device_id restrictions : List ℕ)
    → find_split (appended restrictions) (codes "pubkey=" ++ device_id) ≡ none
    → restriction_contains_pubkey_exactly_once (restriction_of device_id restrictions) device_id
      ≡ true
unfolding restriction_contains_pubkey_exactly_once restriction_of ends_in find_split starts_with
restriction_of-once device_id restrictions h =
    rw
      (
        find_split-head b'p' (codes "ubkey=" ++ device_id) (appended restrictions),
        begins_with-appended restrictions,
        count_matches-head _ b'p' (codes "ubkey=" ++ device_id) (appended restrictions) h,
      )
      refl

-- The request of a new device, as the approving device gets it, is verified, whatever the name and the
-- description, if the restrictions that the user adds do not name the device's key again and the signing
-- request is for the device's key.
pub verify_pairing_data-pair_device :
    (to_hex : List ℕ → List ℕ) (proto : Proto) (files : Files)
    (make_cert : List ℕ → List ℕ → DeviceCert) (server : PairDeviceRequest → Option Response)
    (name description restrictions : List ℕ) (public_key : List ℕ → Option (List ℕ))
    (request : PairDeviceRequest) (sent : List PairingSessionData)
    → pair_device to_hex proto files make_cert server name description restrictions
      ≡ done (request, sent)
    → public_key request.csr ≡ some request.device_id
    → find_split (appended restrictions) (codes "pubkey=" ++ request.device_id) ≡ none
    → verify_pairing_data public_key (record {
      device_id = request.device_id;
      csr = request.csr;
      restrictions = request.restrictions;
    })
      ≡ ok tt
unfolding pair_device verify_pairing_data
verify_pairing_data-pair_device to_hex proto files make_cert server name description restrictions
      public_key request sent h key once =
    let cert = make_cert (to_hex (codes "00")) name in
    let (csr, serialized, h1) = >>=-eq-done (ok_or cert.csr) _ h in
    let same : request.restrictions ≡ restriction_of request.device_id restrictions =
      ap (λ r. r.0.restrictions) (done_injective _ (request, sent) h1)
      ∙ sym (
          ap (λ r. restriction_of r.0.device_id restrictions)
            (done_injective _ (request, sent) h1)) in
    rw
      (
        key,
        bytes_eq_refl request.device_id,
        same,
        restriction_of-once request.device_id restrictions once,
      )
      refl
