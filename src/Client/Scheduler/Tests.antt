-- ===== src/Client/Scheduler/Tests.antt =====
-- A registration with a scheduler that signs the device's certificate.
use greenlight.Prelude.{
  ℕ, ◌≡◌, refl, true, Option, none, some, List, [], ◌∷◌, ◌++◌, ◌==◌, if◌then◌else◌, length, take,
  drop, take-append, drop-append, take-length, drop-length, bytes_eq, codes,
}
use greenlight.Prelude.Run.{done}
use greenlight.Signer.Sign.{Hsm, sign_message, sign_challenge}
use greenlight.Signer.Rune.{create_rune, parse_restrictions, has_pubkey_field, names_pubkey}
use greenlight.Signer.Example.{runes}
use greenlight.Client.Credentials.{
  Device, Data, Proto, Files, device_default, device_with, nobody_default, expect_file, to_bytes,
  data_of,
}
use greenlight.Client.Scheduler.{
  DeviceCert, Signer, Server, RegistrationRequest, Scope, Response, finish, inner_register,
  register,
}
use greenlight.Client.Scheduler.Registered.{IsCredited, register_lem}

-- A coding of the data: each field with its length.
encode_field : Option (List ℕ) → List ℕ
encode_field none = 0 ∷ []
encode_field (some l) = 1 ∷ length l ∷ l

decode_some : List ℕ → Option (List ℕ) × List ℕ
decode_some [] = (none, [])
decode_some (n ∷ rest) = (some (take n rest), drop n rest)

decode_field : List ℕ → Option (List ℕ) × List ℕ
unfolding decode_some
decode_field [] = (none, [])
decode_field (tag ∷ rest) = if tag == 0 then (none, rest) else decode_some rest

encode : Data → List ℕ
unfolding encode_field
encode d =
    d.version
    ∷ (encode_field d.cert ++ (encode_field d.key ++ (encode_field d.ca ++ encode_field d.rune)))

decode : List ℕ → Option Data
unfolding decode_field
decode [] = none
decode (version ∷ rest) =
    let (cert, r1) = decode_field rest in
    let (key, r2) = decode_field r1 in
    let (ca, r3) = decode_field r2 in
    let (rune, r4) = decode_field r3 in
    some (record { version = version; cert = cert; key = key; ca = ca; rune = rune })

decode_field-encode_field :
    (o : Option (List ℕ)) (rest : List ℕ) → decode_field (encode_field o ++ rest) ≡ (o, rest)
unfolding decode_field encode_field
decode_field-encode_field none rest = refl
decode_field-encode_field (some l) rest = rw (take-append l rest, drop-append l rest) refl

decode_last : (o : Option (List ℕ)) → decode_field (encode_field o) ≡ (o, [])
unfolding decode_field encode_field
decode_last none = refl
decode_last (some l) = rw (take-length l, drop-length l) refl

decode-encode : (d : Data) → decode (encode d) ≡ some d
unfolding decode encode
decode-encode d =
    rw
      (
        decode_field-encode_field d.cert _,
        decode_field-encode_field d.key _,
        decode_field-encode_field d.ca _,
        decode_last d.rune,
      )
      refl

abbrev proto : Proto
proto = record { encode_to_vec = encode; decode = decode }

abbrev files : Files
files = record {
  gl_nobody_key = none;
  gl_nobody_crt = none;
  gl_ca_crt = none;
  nobody_key = codes "k0";
  nobody_crt = codes "c0";
  ca_raw = codes "ca";
}

abbrev default : Device
default = record { version = 0; cert = codes "c0"; key = codes "k0"; ca = codes "ca"; rune = [] }

default_run : device_default files ≡ done default
unfolding device_default nobody_default expect_file
default_run = refl

-- A signature is the message, the padding around it, and a last byte.
abbrev hsm : Hsm ℕ
hsm = record {
  ready = true;
  sign = λ msg. some (0 ∷ 0 ∷ (msg ++ (msg ++ 7 ∷ [])));
  from_vec = λ b. none;
  handle = λ m. none;
}

abbrev signer : Signer ℕ
signer = record {
  hsm = hsm;
  node_id = codes "02";
  bip32_ext_key = [];
  version = codes "v1";
  init = [];
  startupmsgs = done [];
}

abbrev make_cert : List ℕ → List ℕ → DeviceCert
make_cert node device = record {
  csr = some (codes "csr");
  private_key_pem = codes "key";
  public_key_raw = codes "k";
}

abbrev challenge : List ℕ
challenge = codes "0123456789abcdef0123456789abcdef"

abbrev signed : Response
signed = record { device_cert = codes "crt"; device_key = []; rune = []; creds = [] }

abbrev server : Server
server = record {
  get_challenge = λ scope node. some challenge;
  register = λ r. some signed;
  recover = λ r. none;
}

abbrev registered : Response
registered = record {
  device_cert = codes "crt";
  device_key = codes "key";
  rune = codes "pubkey=k";
  creds = encode (record {
    version = 1;
    cert = some (codes "crt");
    key = some (codes "key");
    ca = some (codes "ca");
    rune = some (codes "pubkey=k");
  });
}

register_run :
    register proto files runes make_cert server (codes "regtest") signer none ≡ done registered
unfolding register inner_register finish sign_challenge sign_message create_rune device_with
    expect_file to_bytes data_of parse_restrictions has_pubkey_field names_pubkey bytes_eq
register_run = refl

register_lem_example :
    (c signature : List ℕ) × (res : Response) × (server.get_challenge Scope.to_register
        signer.node_id
      ≡ some c)
    × (sign_challenge signer.hsm c ≡ done signature)
    × ((asked : RegistrationRequest) × (server.register asked ≡ some res)
        × (asked.node_id ≡ signer.node_id)
        × (asked.challenge ≡ c)
        × (asked.signature ≡ signature)
        × (some (codes "csr") ≡ some asked.csr))
    × IsCredited proto files runes (make_cert (codes "02") (codes "default")) res registered
register_lem_example =
    register_lem proto files runes default make_cert server (codes "regtest") signer none registered
      decode-encode default_run register_run
