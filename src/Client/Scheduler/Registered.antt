-- ===== src/Client/Scheduler/Registered.antt =====
-- The credentials that a device gets.
use greenlight.Prelude.{ℕ, ◌≡◌, ◌∙◌, refl, sym, ap, Option, none, some, List, [], ◌∷◌, codes}
use greenlight.Prelude.Run.{done, ok_or, done_injective, >>=-eq-done}
use greenlight.Prelude.Outcome.{Result, ok, err}
use greenlight.Signer.Rune.{Runes, RuneError, create_rune}
use greenlight.Signer.Sign.{sign_challenge}
use greenlight.Client.Credentials.{
  Device, Data, Proto, Files, device_default, device_with, from_bytes, pubkey_restriction,
  cred_version, expect_file,
}
use greenlight.Client.Credentials.Stored.{from_bytes-to_bytes_of_device}
use greenlight.Client.Scheduler.{
  DeviceCert, Signer, Server, Scope, RegistrationRequest, Response, device_key_of, rune_ok, finish,
  inner_register, register,
}

rune_ok-eq : (r : Result RuneError (List ℕ)) (rune : List ℕ) → rune_ok r ≡ done rune → r ≡ ok rune
rune_ok-eq (err e) rune h = cc h
rune_ok-eq (ok a) rune h = ap ok (sym (done_injective a rune h))

ok_or-eq : (o : Option (List ℕ)) (a : List ℕ) → ok_or o ≡ done a → o ≡ some a
ok_or-eq none a h = cc h
ok_or-eq (some b) a h = ap some (sym (done_injective b a h))

ok_or-eq-res : (o : Option Response) (a : Response) → ok_or o ≡ done a → o ≡ some a
ok_or-eq-res none a h = cc h
ok_or-eq-res (some b) a h = ap some (sym (done_injective b a h))

-- The response has the scheduler's certificate, the key, and a rune that the signer made for the public
-- key of the device's own certificate; its credentials are read back with just these.
pub record IsCredited {R : Type 0} (proto : Proto) (files : Files) (rs : Runes R)
    (cert : DeviceCert) (res res' : Response) : Type 0 where
  pub device : Device
  pub device_cert : res'.device_cert ≡ res.device_cert
  pub device_key : res'.device_key ≡ device_key_of cert res
  pub rune :
      create_rune rs none ((pubkey_restriction (rs.hex cert.public_key_raw) ∷ []) ∷ [])
      ≡ ok res'.rune
  pub stored : from_bytes proto files res'.creds ≡ done device
  pub cert_stored : device.cert ≡ res'.device_cert
  pub key_stored : device.key ≡ res'.device_key
  pub rune_stored : device.rune ≡ res'.rune

device_with_lem :
    (files : Files) (cert key rune : List ℕ) (d : Device)
    → device_with files cert key rune ≡ done d
    → (ca : List ℕ) × (d
        ≡ record { version = cred_version; cert = cert; key = key; ca = ca; rune = rune })
unfolding device_with
device_with_lem files cert key rune d h =
    let (ca, read, h1) = >>=-eq-done (expect_file files.gl_ca_crt files.ca_raw) _ h in
    (ca, done_injective _ d h1)

module _ {R : Type 0} (proto : Proto) (files : Files) (rs : Runes R) (default : Device) where
  finish_lem :
      (cert : DeviceCert) (res res' : Response)
      → ((d : Data) → proto.decode (proto.encode_to_vec d) ≡ some d)
      → device_default files ≡ done default
      → finish proto files rs cert res ≡ done res'
      → IsCredited proto files rs cert res res'
  unfolding finish
  finish_lem cert res res' back there h =
      let (rune, made, h1) =
        >>=-eq-done
          (rune_ok
            (create_rune rs none ((pubkey_restriction (rs.hex cert.public_key_raw) ∷ []) ∷ [])))
          _ h in
      let (creds, built, h2) =
        >>=-eq-done (device_with files res.device_cert (device_key_of cert res) rune) _ h1 in
      let (ca, whole) =
        device_with_lem files res.device_cert (device_key_of cert res) rune creds built in
      let same = done_injective _ res' h2 in
      let read : from_bytes proto files res'.creds
          ≡ done (record creds { version = cred_version }) =
        ap (λ r. from_bytes proto files r.creds) same
        ∙ from_bytes-to_bytes_of_device proto files creds default back there in
      record {
        device = record creds { version = cred_version };
        device_cert = ap (λ r. r.device_cert) same;
        device_key = ap (λ r. r.device_key) same;
        rune = rune_ok-eq _ rune made ∙ ap ok (sym (ap (λ r. r.rune) same));
        stored = read;
        cert_stored = ap (λ d. d.cert) whole ∙ sym (ap (λ r. r.device_cert) same);
        key_stored = ap (λ d. d.key) whole ∙ sym (ap (λ r. r.device_key) same);
        rune_stored = ap (λ d. d.rune) whole ∙ sym (ap (λ r. r.rune) same);
      }

  -- A registration that succeeds is one that the scheduler answered, after a challenge for a registration
  -- that the signer could sign: the request has the node's id, the challenge, its signature and the
  -- certificate's signing request. The response has the scheduler's certificate, the scheduler's key or,
  -- if it sent none, the one made here, and a rune for the public key of the certificate made here;
  -- its credentials are read back with just these. The protobuf data is decoded as it was encoded, and
  -- there are default credentials.
  pub register_lem :
      {M : Type 0} (make_cert : List ℕ → List ℕ → DeviceCert) (server : Server) (network : List ℕ)
      (signer : Signer M) (invite_code : Option (List ℕ)) (res' : Response)
      → ((d : Data) → proto.decode (proto.encode_to_vec d) ≡ some d)
      → device_default files ≡ done default
      → register proto files rs make_cert server network signer invite_code ≡ done res'
      → (challenge signature : List ℕ) × (res : Response) × (server.get_challenge Scope.to_register
            signer.node_id
          ≡ some challenge)
        × (sign_challenge signer.hsm challenge ≡ done signature)
        × ((asked : RegistrationRequest) × (server.register asked ≡ some res)
            × (asked.node_id ≡ signer.node_id)
            × (asked.challenge ≡ challenge)
            × (asked.signature ≡ signature)
            × ((make_cert (rs.hex signer.node_id) (codes "default")).csr ≡ some asked.csr))
        × IsCredited proto files rs (make_cert (rs.hex signer.node_id) (codes "default")) res res'
  unfolding register inner_register
  register_lem make_cert server network signer invite_code res' back there h =
      let cert = make_cert (rs.hex signer.node_id) (codes "default") in
      let (challenge, asked, h1) =
        >>=-eq-done (ok_or (server.get_challenge Scope.to_register signer.node_id)) _ h in
      let (signature, signed, h2) = >>=-eq-done (sign_challenge signer.hsm challenge) _ h1 in
      let (csr, serialized, h3) = >>=-eq-done (ok_or cert.csr) _ h2 in
      let (msgs, started, h4) = >>=-eq-done signer.startupmsgs _ h3 in
      let (res, answered, h5) = >>=-eq-done (ok_or (server.register _)) _ h4 in
      (
        challenge,
        signature,
        res,
        ok_or-eq _ challenge asked,
        signed,
        (_, ok_or-eq-res _ res answered, refl, refl, refl, ok_or-eq _ csr serialized),
        finish_lem cert res res' back there h5,
      )
