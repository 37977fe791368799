-- ===== src/Client/Credentials/Tests.antt =====
-- A device that is stored, and one that is upgraded. Data is encoded as the rune alone.
use greenlight.Prelude.{ℕ, ◌≡◌, refl, Option, none, some, List, [], codes}
use greenlight.Prelude.Run.{done, panic}
use greenlight.Signer.Example.{runes}
use greenlight.Client.Tls.{X509Certificate}
use greenlight.Client.Credentials.{
  Device, Files, expect_file, nobody_default, device_default, upgrade, cred_version,
}

abbrev files : Files
files = record {
  gl_nobody_key = none;
  gl_nobody_crt = none;
  gl_ca_crt = some (some (codes "ca"));
  nobody_key = codes "k0";
  nobody_crt = codes "c0";
  ca_raw = codes "ca0";
}

default_run :
    device_default files
    ≡ done (record { version = 0; cert = codes "c0"; key = codes "k0"; ca = codes "ca"; rune = [] })
unfolding device_default nobody_default expect_file
default_run = refl

-- A variable that names a file which cannot be read ends with a panic.
missing_file : device_default (record files { gl_ca_crt = some none }) ≡ panic
unfolding device_default nobody_default expect_file
missing_file = refl

abbrev old : Device
old = record {
  version = 0;
  cert = codes "c";
  key = codes "k";
  ca = codes "ca";
  rune = codes "pubkey=k";
}

abbrev parse : List ℕ → Option X509Certificate
parse crt = none

upgrade_run : upgrade parse some runes old ≡ done (record old { version = cred_version })
unfolding upgrade
upgrade_run = refl
