-- ===== src/Client/NewDevice.antt =====
-- `pair_device` of libs/gl-client/src/pairing/new_device.rs: the device that asks to be paired. Its new
-- certificate and the answer of the server are parameters.
pub mod Verified
mod Tests
use greenlight.Prelude.{ℕ, Option, none, some, List, [], ◌∷◌, ◌++◌, codes}
use greenlight.Prelude.Run.{Run, done, fail, panic, ok_or, ◌>>=◌}
use greenlight.Client.Credentials.{Proto, Files, device_with, to_bytes}
use greenlight.Client.Scheduler.{DeviceCert, Response}

pub record PairDeviceRequest : Type 0 where
  pub device_id : List ℕ
  pub csr : List ℕ
  pub device_name : List ℕ
  pub description : List ℕ
  pub restrictions : List ℕ

-- `PairDeviceResponse` has the fields of `Response`.
pub data PairingSessionData : Type 0 where
  pairing_response : Response → PairingSessionData
  pairing_qr : List ℕ → PairingSessionData
  pairing_error : PairingSessionData

-- `pubkey=` and the device's key, in front of the restrictions if there are any.
abbrev pub appended : List ℕ → List ℕ
appended [] = []
appended (c ∷ restrictions) = b'&' ∷ c ∷ restrictions

unfoldable pub restriction_of : List ℕ → List ℕ → List ℕ
restriction_of device_id restrictions = (codes "pubkey=" ++ device_id) ++ appended restrictions

-- What is sent when the server has answered: nothing if the credentials cannot be made, as the task ends
-- with a panic then.
unfoldable pub session_end : Proto → Files → DeviceCert → Option Response → List PairingSessionData
session_end proto files cert none = pairing_error ∷ []
session_end proto files cert (some res) =
    elim (device_with files res.device_cert cert.private_key_pem res.rune) [
      | done creds ↦
          pairing_response
            (record res { device_key = cert.private_key_pem; creds = to_bytes proto creds })
          ∷ []
      | panic ↦ []
      | fail ↦ []
    ]

-- The request, and what is sent to the caller, who is there to receive it: the data of the QR code, and
-- the end of the session.
unfoldable pub pair_device :
    (List ℕ → List ℕ)
    → Proto
    → Files
    → (List ℕ → List ℕ → DeviceCert)
    → (PairDeviceRequest → Option Response)
    → List ℕ
    → List ℕ
    → List ℕ
    → Run (PairDeviceRequest × List PairingSessionData)
unfolding session_end restriction_of
pair_device to_hex proto files make_cert server name description restrictions =
    let cert = make_cert (to_hex (codes "00")) name in
    let device_id = to_hex cert.public_key_raw in
    do
      csr ← ok_or cert.csr
      (let request : PairDeviceRequest = record {
        device_id = device_id;
        csr = csr;
        device_name = name;
        description = description;
        restrictions = restriction_of device_id restrictions;
      } in
          let end = session_end proto files cert (server request) in
          done (request, pairing_qr (codes "gl-pairing:" ++ device_id) ∷ end))
