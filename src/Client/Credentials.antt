-- ===== src/Client/Credentials.antt =====
-- `Nobody` and `Device` of libs/gl-client/src/credentials.rs. The protobuf coding of the data, the variables
-- with their files and the built-in defaults are parameters.
pub mod Stored
pub mod Upgraded
mod Tests
use greenlight.Prelude.{ℕ, Option, none, some, List, [], ◌∷◌, ◌++◌, codes, if◌then◌else◌}
use greenlight.Prelude.Run.{Run, done, fail, panic, ◌>>=◌}
use greenlight.Prelude.Outcome.{Result, ok, err}
use greenlight.Signer.Check.{is_empty}
use greenlight.Signer.Rune.{Runes, RuneError, create_rune}
use greenlight.Client.Tls.{X509Certificate, TlsConfig, with_keys, get_node_id_from_tls_config}

pub record Nobody : Type 0 where
  pub cert : List ℕ
  pub key : List ℕ
  pub ca : List ℕ

pub record Device : Type 0 where
  pub version : ℕ
  pub cert : List ℕ
  pub key : List ℕ
  pub ca : List ℕ
  pub rune : List ℕ

-- `model::Data`
pub record Data : Type 0 where
  pub version : ℕ
  pub cert : Option (List ℕ)
  pub key : Option (List ℕ)
  pub ca : Option (List ℕ)
  pub rune : Option (List ℕ)

pub record Proto : Type 0 where
  pub encode_to_vec : Data → List ℕ
  pub decode : List ℕ → Option Data

abbrev pub cred_version : ℕ
cred_version = 1

-- `load_file_or_default` with its `expect`: a variable that is set names a file that can be read. `file`
-- is none if the variable is not set.
unfoldable pub expect_file : Option (Option (List ℕ)) → List ℕ → Run (List ℕ)
expect_file none default = done default
expect_file (some none) default = panic
expect_file (some (some f)) default = done f

-- What the variables name, and the defaults.
pub record Files : Type 0 where
  pub gl_nobody_key : Option (Option (List ℕ))
  pub gl_nobody_crt : Option (Option (List ℕ))
  pub gl_ca_crt : Option (Option (List ℕ))
  pub nobody_key : List ℕ
  pub nobody_crt : List ℕ
  pub ca_raw : List ℕ

module _ (files : Files) where
  -- `Nobody::default`
  unfoldable pub nobody_default : Run Nobody
  unfolding expect_file
  nobody_default = do
    ca ← expect_file files.gl_ca_crt files.ca_raw
    key ← expect_file files.gl_nobody_key files.nobody_key
    cert ← expect_file files.gl_nobody_crt files.nobody_crt
    done (record { cert = cert; key = key; ca = ca })

  -- `Nobody::with`
  unfoldable pub nobody_with : List ℕ → List ℕ → Run Nobody
  unfolding expect_file
  nobody_with cert key = do
    ca ← expect_file files.gl_ca_crt files.ca_raw
    done (record { cert = cert; key = key; ca = ca })

  -- `Device::default`
  unfoldable pub device_default : Run Device
  device_default = do
    n ← nobody_default
    done (record { version = 0; cert = n.cert; key = n.key; ca = n.ca; rune = [] })

  -- `Device::with`
  unfoldable pub device_with : List ℕ → List ℕ → List ℕ → Run Device
  unfolding expect_file
  device_with cert key rune = do
    ca ← expect_file files.gl_ca_crt files.ca_raw
    done (record { version = cred_version; cert = cert; key = key; ca = ca; rune = rune })

abbrev pub unwrap_or : Option (List ℕ) → List ℕ → List ℕ
unwrap_or none d = d
unwrap_or (some a) d = a

-- What is there replaces what is there by default.
abbrev pub replaced : Option Data → Device → Device
replaced none creds = creds
replaced (some d) creds = record {
  version = d.version;
  cert = unwrap_or d.cert creds.cert;
  key = unwrap_or d.key creds.key;
  ca = unwrap_or d.ca creds.ca;
  rune = unwrap_or d.rune creds.rune;
}

unfoldable pub from_bytes : Proto → Files → List ℕ → Run Device
from_bytes proto files bytes = do
  creds ← device_default files
  done (replaced (proto.decode bytes) creds)

-- A file that cannot be read is empty.
unfoldable pub from_path : Proto → Files → Option (List ℕ) → Run Device
from_path proto files file = from_bytes proto files (unwrap_or file [])

-- `From<Device> for Data`: the version is the present one.
unfoldable pub data_of : Device → Data
data_of device = record {
  version = cred_version;
  cert = some device.cert;
  key = some device.key;
  ca = some device.ca;
  rune = some device.rune;
}

unfoldable pub to_bytes : Proto → Device → List ℕ
unfolding data_of
to_bytes proto device = proto.encode_to_vec (data_of device)

unfoldable pub tls_config : (List ℕ → Option X509Certificate) → Device → TlsConfig
tls_config parse device = with_keys parse device.cert device.key device.ca

unfoldable pub node_id :
    (List ℕ → Option X509Certificate) → (List ℕ → Option (List ℕ)) → Device → Run (List ℕ)
unfolding tls_config
node_id parse from_hex device = get_node_id_from_tls_config from_hex (tls_config parse device)

-- `Alternative::new("pubkey", Equal, hex::encode(node_id)).encode()`
abbrev pub pubkey_restriction : List ℕ → List ℕ
pubkey_restriction hex = codes "pubkey=" ++ hex

abbrev pub with_rune : Device → Result RuneError (List ℕ) → Run Device
with_rune device (err e) = fail
with_rune device (ok rune) = done (record device { version = cred_version; rune = rune })

-- A device without a rune gets one from the signer.
unfoldable pub upgrade :
    {R : Type 0}
    → (List ℕ → Option X509Certificate)
    → (List ℕ → Option (List ℕ))
    → Runes R
    → Device
    → Run Device
unfolding node_id
upgrade parse from_hex rs device =
    let renewed = node_id parse from_hex device >>= λ id.
    with_rune device (create_rune rs none ((pubkey_restriction (rs.hex id) ∷ []) ∷ [])) in
    if is_empty device.rune then renewed else done (record device { version = cred_version })
