-- ===== src/Client/Credentials/Upgraded.antt =====
-- What an upgrade changes.
use greenlight.Prelude.{
  ℕ, ◌≡◌, ◌≢◌, ◌⊎◌, refl, none, Option, List, [], ◌∷◌, Bool-cases, inl, inr, arith,
}
use greenlight.Prelude.Run.{done, done_injective, >>=-eq-done, ◌>>=◌}
use greenlight.Prelude.Outcome.{Result, ok, err}
use greenlight.Signer.Check.{is_empty}
use greenlight.Signer.Rune.{Runes, RuneError, create_rune}
use greenlight.Client.Tls.{X509Certificate}
use greenlight.Client.Credentials.{
  Device, node_id, pubkey_restriction, with_rune, upgrade, cred_version,
}

with_rune_lem :
    (device device' : Device) (r : Result RuneError (List ℕ))
    → with_rune device r ≡ done device'
    → (rune : List ℕ) × (r ≡ ok rune)
      × (device' ≡ record device { version = cred_version; rune = rune })
with_rune_lem device device' (err e) h = cc h
with_rune_lem device device' (ok rune) h = (rune, refl, done_injective _ device' h)

-- The rune is one that the signer made new for the device, restricted to the id of its node.
abbrev pub IsRenewed :
    {R : Type 0}
    → (List ℕ → Option X509Certificate)
    → (List ℕ → Option (List ℕ))
    → Runes R
    → Device
    → List ℕ
    → Type 0
IsRenewed parse from_hex rs device rune =
    (id : List ℕ) × (node_id parse from_hex device ≡ done id)
    × (create_rune rs none ((pubkey_restriction (rs.hex id) ∷ []) ∷ []) ≡ ok rune)

-- An upgrade gives the present version and leaves all else as it was, but for a missing rune: the new one
-- is made by the signer, restricted to the node's id as the public key.
pub upgrade_lem :
    {R : Type 0} (parse : List ℕ → Option X509Certificate) (from_hex : List ℕ → Option (List ℕ))
    (rs : Runes R) (device device' : Device)
    → upgrade parse from_hex rs device ≡ done device'
    → ((device.rune ≢ []) × (device' ≡ record device { version = cred_version }))
      ⊎ ((rune : List ℕ) × IsRenewed parse from_hex rs device rune
          × (device' ≡ record device { version = cred_version; rune = rune }))
unfolding upgrade
upgrade_lem parse from_hex rs device device' h = elim (Bool-cases (is_empty device.rune)) [
  | inl empty ↦
      let renewed : (node_id parse from_hex device >>= λ id.
      with_rune device (create_rune rs none ((pubkey_restriction (rs.hex id) ∷ []) ∷ [])))
          ≡ done device' =
        ground (arith, empty, h) in
      let (id, found, h1) = >>=-eq-done (node_id parse from_hex device) _ renewed in
      let (rune, made, same) = with_rune_lem device device' _ h1 in
      inr (rune, (id, found, made), same)
  | inr kept ↦
      inl (λ e. ground (arith, e, kept), done_injective _ device' (ground (arith, kept, h)))
]
