-- ===== src/Client/NewDevice/Tests.antt =====
-- A device that asks to be paired for a method, and is answered.
use greenlight.Prelude.{ℕ, ◌≡◌, refl, Option, none, some, List, [], ◌∷◌, codes, starts_with}
use greenlight.Prelude.Run.{done}
use greenlight.Prelude.Outcome.{ok}
use greenlight.Signer.Pairing.Attestation.{verify_pairing_data, find_split}
use greenlight.Client.Credentials.{Proto, Files, device_with, expect_file, to_bytes}
use greenlight.Client.Scheduler.{DeviceCert, Response}
use greenlight.Client.NewDevice.{
  PairDeviceRequest, PairingSessionData, pairing_qr, pairing_response, restriction_of, session_end,
  pair_device,
}
use greenlight.Client.NewDevice.Verified.{verify_pairing_data-pair_device}

-- Only the rune is encoded.
abbrev rune_field : Option (List ℕ) → List ℕ
rune_field none = []
rune_field (some rune) = rune

abbrev proto : Proto
proto = record { encode_to_vec = λ d. rune_field d.rune; decode = λ bytes. none }

abbrev files : Files
files = record {
  gl_nobody_key = none;
  gl_nobody_crt = none;
  gl_ca_crt = none;
  nobody_key = codes "k0";
  nobody_crt = codes "c0";
  ca_raw = codes "ca";
}

-- A signing request is its key.
abbrev make_cert : List ℕ → List ℕ → DeviceCert
make_cert node device = record {
  csr = some (codes "02");
  private_key_pem = codes "key";
  public_key_raw = codes "02";
}

abbrev to_hex : List ℕ → List ℕ
to_hex bytes = bytes

abbrev answer : Response
answer = record { device_cert = codes "crt"; device_key = []; rune = codes "r"; creds = [] }

abbrev server : PairDeviceRequest → Option Response
server request = some answer

abbrev request : PairDeviceRequest
request = record {
  device_id = codes "02";
  csr = codes "02";
  device_name = codes "phone";
  description = codes "mine";
  restrictions = codes "pubkey=02&method=pay";
}

abbrev sent : List PairingSessionData
sent =
    pairing_qr (codes "gl-pairing:02")
    ∷ pairing_response (record answer { device_key = codes "key"; creds = codes "r" })
    ∷ []

pair_device_run :
    pair_device to_hex proto files make_cert server
      (codes "phone")
      (codes "mine")
      (codes "method=pay")
    ≡ done (request, sent)
unfolding pair_device session_end restriction_of device_with expect_file to_bytes
pair_device_run = refl

not_again : find_split (codes "&method=pay") (codes "pubkey=02") ≡ none
unfolding find_split starts_with
not_again = refl

verify_pairing_data-pair_device_example :
    verify_pairing_data some (record {
      device_id = codes "02";
      csr = codes "02";
      restrictions = codes "pubkey=02&method=pay";
    })
    ≡ ok tt
verify_pairing_data-pair_device_example =
    verify_pairing_data-pair_device to_hex proto files make_cert server (codes "phone")
      (codes "mine") (codes "method=pay") some request sent pair_device_run refl not_again
