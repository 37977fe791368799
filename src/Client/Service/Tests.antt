-- ===== src/Client/Service/Tests.antt =====
-- A call of a device whose signatures are its public key.
use greenlight.Prelude.{ℕ, ◌≡◌, refl, Bool, some, List, [], ◌∷◌, codes, bytes_eq}
use greenlight.Prelude.Run.{panic}
use greenlight.Tlv.Proto.{be_bytes}
use greenlight.Plugin.Layer.{HttpRequest, Base64, Layer}
use greenlight.Client.Service.{AuthService, call}

abbrev device : AuthService
device = record { public_key = codes "k"; sign = λ x. codes "k"; rune = codes "pubkey=k" }

abbrev plain : Base64
plain = record { standard_no_pad = some; url_safe = some }

abbrev layer : Layer
layer = record { ctx = record { requests = [] }; rpc_calls = [] }

abbrev verify : List ℕ → List ℕ → List ℕ → Bool
verify key signed sig = bytes_eq key sig

abbrev request : HttpRequest
request = record {
  uri = some (codes "/cln.Node/Pay");
  glauthpubkey = some (codes "k");
  glauthsig = some (codes "k");
  glts = some (be_bytes 8 3);
  glrune = some (codes "pubkey=k");
  body = some (codes "abc") ∷ [];
}

-- A call without a body ends with a panic.
no_body : call (λ x. x) device (some 3) (codes "/cln.Node/Pay") [] ≡ panic
unfolding call
no_body = refl
