-- ===== src/Client/Credentials/Stored.antt =====
-- Credentials that are stored are read back.
use greenlight.Prelude.{◌≡◌, refl, some}
use greenlight.Prelude.Run.{done}
use greenlight.Client.Credentials.{
  Device, Data, Proto, Files, device_default, from_bytes, data_of, to_bytes, cred_version,
}

-- The credentials of a device that are written and read again are the same, with the present version, if
-- the protobuf data is decoded as it was encoded and there are default credentials.
pub from_bytes-to_bytes_of_device :
    (proto : Proto) (files : Files) (device default : Device)
    → ((d : Data) → proto.decode (proto.encode_to_vec d) ≡ some d)
    → device_default files ≡ done default
    → from_bytes proto files (to_bytes proto device)
      ≡ done (record device { version = cred_version })
unfolding from_bytes to_bytes data_of
from_bytes-to_bytes_of_device proto files device default back there =
    rw (there, back (data_of device)) refl
