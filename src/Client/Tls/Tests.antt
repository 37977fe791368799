-- ===== src/Client/Tls/Tests.antt =====
-- A certificate that is its common name.
use greenlight.Prelude.{ℕ, ◌≡◌, refl, Option, some, List, codes}
use greenlight.Prelude.Run.{fail}
use greenlight.Signer.Rune.{split}
use greenlight.Client.Tls.{
  X509Certificate, with_keys, node_id_of_parts, get_node_id_from_tls_config,
}

abbrev parse : List ℕ → Option X509Certificate
parse crt = some (record { subject_common_name = some crt })

nobody :
    get_node_id_from_tls_config some (with_keys parse (codes "/nobody/x") (codes "k") (codes "ca"))
    ≡ fail
unfolding get_node_id_from_tls_config with_keys node_id_of_parts split greenlight.Prelude.bytes_eq
nobody = refl
