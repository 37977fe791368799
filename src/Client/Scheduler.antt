-- ===== src/Client/Scheduler.antt =====
-- `register` and `recover` of libs/gl-client/src/scheduler.rs: how a device gets its credentials. What the
-- scheduler answers, the device's new certificate and what the signer says of itself are parameters.
pub mod Registered
mod Tests
use greenlight.Prelude.{ℕ, Option, none, some, List, [], ◌∷◌, ◌++◌, codes, if◌then◌else◌}
use greenlight.Prelude.Run.{Run, done, fail, ok_or, ◌>>=◌}
use greenlight.Prelude.Outcome.{Result, ok, err}
use greenlight.Signer.Check.{is_empty}
use greenlight.Signer.Sign.{Hsm, StartupMessage, sign_challenge, range}
use greenlight.Signer.Rune.{Runes, RuneError, create_rune}
use greenlight.Client.Credentials.{Device, Proto, Files, device_with, to_bytes, pubkey_restriction}

-- `rcgen::Certificate` with its keys; the request to sign it may fail to be serialized.
pub record DeviceCert : Type 0 where
  pub csr : Option (List ℕ)
  pub private_key_pem : List ℕ
  pub public_key_raw : List ℕ

pub record Signer (M : Type 0) : Type 0 where
  pub hsm : Hsm M
  pub node_id : List ℕ
  pub bip32_ext_key : List ℕ
  pub version : List ℕ
  pub init : List ℕ
  pub startupmsgs : Run (List StartupMessage)

pub record RegistrationRequest : Type 0 where
  pub node_id : List ℕ
  pub bip32_key : List ℕ
  pub network : List ℕ
  pub challenge : List ℕ
  pub signer_proto : List ℕ
  pub init_msg : List ℕ
  pub signature : List ℕ
  pub csr : List ℕ
  pub invite_code : List ℕ
  pub startupmsgs : List StartupMessage

pub record RecoveryRequest : Type 0 where
  pub node_id : List ℕ
  pub challenge : List ℕ
  pub signature : List ℕ
  pub csr : List ℕ

-- `RegistrationResponse` and `RecoveryResponse`
pub record Response : Type 0 where
  pub device_cert : List ℕ
  pub device_key : List ℕ
  pub rune : List ℕ
  pub creds : List ℕ

pub data Scope : Type 0 where
  to_register to_recover : Scope

pub record Server : Type 0 where
  pub get_challenge : Scope → List ℕ → Option (List ℕ)
  pub register : RegistrationRequest → Option Response
  pub recover : RecoveryRequest → Option Response

-- The key that was made here is kept if the scheduler sent none.
abbrev pub device_key_of : DeviceCert → Response → List ℕ
device_key_of cert res = if is_empty res.device_key then cert.private_key_pem else res.device_key

-- `?` on the result of the signer.
abbrev pub rune_ok : Result RuneError (List ℕ) → Run (List ℕ)
rune_ok (err e) = fail
rune_ok (ok rune) = done rune

module _ {R : Type 0} (proto : Proto) (files : Files) (rs : Runes R) where
  -- What is done with the scheduler's response: the rune and the credentials are put in.
  unfoldable pub finish : DeviceCert → Response → Run Response
  finish cert res = do
    rune ←
        rune_ok (create_rune rs none ((pubkey_restriction (rs.hex cert.public_key_raw) ∷ []) ∷ []))
    creds ← device_with files res.device_cert (device_key_of cert res) rune
    done (record {
      device_cert = res.device_cert;
      device_key = device_key_of cert res;
      rune = rune;
      creds = to_bytes proto creds;
    })

  -- `inner_register`; `make_cert` is the certificate for a node and a device.
  unfoldable pub inner_register :
      {M : Type 0}
      → (List ℕ → List ℕ → DeviceCert)
      → Server
      → List ℕ
      → Signer M
      → List ℕ
      → Run Response
  unfolding finish
  inner_register make_cert server network signer invite_code = do
    challenge ← ok_or (server.get_challenge Scope.to_register signer.node_id)
    signature ← sign_challenge signer.hsm challenge
    csr ← ok_or (make_cert (rs.hex signer.node_id) (codes "default")).csr
    startupmsgs ← signer.startupmsgs
    res ← ok_or (
        server.register (record {
          node_id = signer.node_id;
          bip32_key = signer.bip32_ext_key;
          network = network;
          challenge = challenge;
          signer_proto = signer.version;
          init_msg = signer.init;
          signature = signature;
          csr = csr;
          invite_code = invite_code;
          startupmsgs = startupmsgs;
        }))
    finish (make_cert (rs.hex signer.node_id) (codes "default")) res

  abbrev pub code_or_empty : Option (List ℕ) → List ℕ
  code_or_empty none = []
  code_or_empty (some code) = code

  unfoldable pub register :
      {M : Type 0}
      → (List ℕ → List ℕ → DeviceCert)
      → Server
      → List ℕ
      → Signer M
      → Option (List ℕ)
      → Run Response
  register make_cert server network signer invite_code =
      inner_register make_cert server network signer (code_or_empty invite_code)

  unfoldable pub recover :
      {M : Type 0} → (List ℕ → List ℕ → DeviceCert) → Server → Signer M → Run Response
  recover make_cert server signer = do
    challenge ← ok_or (server.get_challenge Scope.to_recover signer.node_id)
    signature ← sign_challenge signer.hsm challenge
    prefix ← range 0 8 challenge
    csr ← ok_or (make_cert (rs.hex signer.node_id) (codes "recovered-" ++ rs.hex prefix)).csr
    res ← ok_or (
        server.recover (record {
          node_id = signer.node_id;
          challenge = challenge;
          signature = signature;
          csr = csr;
        }))
    finish (make_cert (rs.hex signer.node_id) (codes "recovered-" ++ rs.hex prefix)) res
