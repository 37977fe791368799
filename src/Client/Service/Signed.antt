-- ===== src/Client/Service/Signed.antt =====
-- The way of a call from the device through the node to the signer.
use greenlight.Prelude.{ℕ, some, List, ◌++◌}
use greenlight.Tlv.Proto.{be_bytes}
use greenlight.Plugin.Context.{Request}
use greenlight.Plugin.Layer.{Layer}
use greenlight.Client.Service.{AuthService}

-- The pending call that stands for a call of the device.
abbrev pub pending_of : AuthService → ℕ → List ℕ → List ℕ → List ℕ → Request
pending_of s t uri payload rune = record {
  pubkey = s.public_key;
  signature = s.sign (payload ++ be_bytes 8 t);
  rune = rune;
  payload = payload;
  uri = uri;
  timestamp = some t;
}
