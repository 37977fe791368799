-- ===== src/Client/Tls.antt =====
-- Identities in certificates: `TlsConfig` and the device's certificate of libs/gl-client/src/tls.rs, and
-- the node id in it, libs/gl-client/src/utils.rs. The parser of certificates, hex and files are parameters.
pub mod NodeId
mod Tests
use greenlight.Prelude.{ℕ, Option, none, some, List, [], ◌∷◌, ◌++◌, codes, bytes_eq, if◌then◌else◌}
use greenlight.Prelude.Run.{Run, done, fail, ok_or, ◌>>=◌}
use greenlight.Signer.Rune.{split}

-- A parsed certificate, by the common name of its subject.
pub record X509Certificate : Type 0 where
  pub subject_common_name : Option (List ℕ)

-- `inner`, the configuration of the connection, is the certificate, the key and the authority in it.
pub record TlsConfig : Type 0 where
  pub cert : List ℕ
  pub private_key : Option (List ℕ)
  pub ca : List ℕ
  pub x509_cert : Option X509Certificate

-- `file` is none if the variable is not set, and otherwise what reading its file gives: what cannot be
-- read is as if it was not set.
unfoldable pub load_file_or_default : Option (Option (List ℕ)) → List ℕ → List ℕ
load_file_or_default none default = default
load_file_or_default (some none) default = default
load_file_or_default (some (some f)) default = f

unfoldable pub with_keys : (List ℕ → Option X509Certificate) → List ℕ → List ℕ → List ℕ → TlsConfig
with_keys parse crt key ca_crt = record {
  cert = crt;
  private_key = some key;
  ca = ca_crt;
  x509_cert = parse crt;
}

unfoldable pub identity :
    (List ℕ → Option X509Certificate) → List ℕ → List ℕ → TlsConfig → TlsConfig
identity parse cert_pem key_pem config = record config {
  cert = cert_pem;
  private_key = some key_pem;
  x509_cert = parse cert_pem;
}

-- The two files of a directory.
unfoldable pub identity_from_path :
    (List ℕ → Option X509Certificate)
    → Option (List ℕ)
    → Option (List ℕ)
    → TlsConfig
    → Run TlsConfig
unfolding identity
identity_from_path parse client_crt client_key config = do
  cert_pem ← ok_or client_crt
  key_pem ← ok_or client_key
  done (identity parse cert_pem key_pem config)

unfoldable pub ca_certificate : List ℕ → TlsConfig → TlsConfig
ca_certificate ca config = record config { ca = ca }

-- The common name of a device's certificate; `node_id` is in hex form.
unfoldable pub device_common_name : List ℕ → List ℕ → List ℕ
device_common_name node_id device = codes "/users/" ++ (node_id ++ (b'/' ∷ device))

-- At least three parts, of which the second is `users` and the third the node id.
unfoldable pub node_id_of_parts : (List ℕ → Option (List ℕ)) → List (List ℕ) → Run (List ℕ)
node_id_of_parts from_hex (first ∷ kind ∷ id ∷ parts) =
    if bytes_eq kind (codes "users") then ok_or (from_hex id) else fail
node_id_of_parts from_hex [] = fail
node_id_of_parts from_hex (first ∷ []) = fail
node_id_of_parts from_hex (first ∷ kind ∷ []) = fail

unfoldable pub get_node_id_from_tls_config : (List ℕ → Option (List ℕ)) → TlsConfig → Run (List ℕ)
get_node_id_from_tls_config from_hex tls_config = do
  x509 ← ok_or tls_config.x509_cert
  name ← ok_or x509.subject_common_name
  node_id_of_parts from_hex (split b'/' [] name)
