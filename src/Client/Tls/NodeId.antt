-- ===== src/Client/Tls/NodeId.antt =====
-- The node id is read back from the certificate of a device.
use greenlight.Prelude.{
  ℕ, ◌≡◌, ◌∙◌, refl, ap, false, Option, some, List, [], ◌∷◌, ◌++◌, bytes_eq, arith, ◌==◌, All,
}
use mathlib.Core.List.{append_assoc, append-nil}
use greenlight.Prelude.Run.{done}
use greenlight.Signer.Rune.{split}
use greenlight.Client.Tls.{
  X509Certificate, with_keys, device_common_name, node_id_of_parts, get_node_id_from_tls_config,
}

-- None of the characters is the separator.
abbrev pub IsPart : ℕ → List ℕ → Type 0
IsPart sep part = All (λ c. (c == sep) ≡ false) part

split-append :
    (sep : ℕ) (part s rest : List ℕ)
    → IsPart sep s
    → split sep part (s ++ sep ∷ rest) ≡ (part ++ s) ∷ split sep [] rest
unfolding split
split-append sep part [] rest h = ground (arith, append-nil part)
split-append sep part (c ∷ s) rest h =
    rw h.0 (split-append sep (part ++ c ∷ []) s rest h.1)
    ∙ ap (λ p. p ∷ split sep [] rest) (append_assoc part (c ∷ []) s)

-- The certificate of a device names the node: its id is read back. The id's hex form has no slash, and
-- the parser finds the common name that the certificate was made with.
pub get_node_id_from_tls_config-device :
    (parse : List ℕ → Option X509Certificate) (from_hex : List ℕ → Option (List ℕ))
    (crt key ca node_id hex device : List ℕ)
    → parse crt ≡ some (record { subject_common_name = some (device_common_name hex device) })
    → from_hex hex ≡ some node_id
    → IsPart b'/' hex
    → get_node_id_from_tls_config from_hex (with_keys parse crt key ca) ≡ done node_id
unfolding get_node_id_from_tls_config with_keys device_common_name node_id_of_parts split bytes_eq
get_node_id_from_tls_config-device parse from_hex crt key ca node_id hex device named decoded
      plain =
    rw (named, split-append b'/' [] hex device plain, decoded) refl
