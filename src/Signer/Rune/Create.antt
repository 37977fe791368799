-- ===== src/Signer/Rune/Create.antt =====
-- What a rune that `create_rune` makes is restricted to.
use greenlight.Prelude.{ℕ, ◌≡◌, refl, Bool, true, false, none, List}
use greenlight.Prelude.Outcome.{ok, >>=-eq-ok}
use greenlight.Signer.Rune.{
  Runes, Alternative, RuneError, create_rune, parse_restrictions, has_pubkey_field, ensure,
  missing_pubkey,
}

pub ensure-ok : (b : Bool) (e : RuneError) → ensure b e ≡ ok tt → b ≡ true
ensure-ok true e h = refl
ensure-ok false e h = cc

-- A new rune is made only of restrictions that could all be read, one of which is on a public key.
pub create_rune_lem :
    {R : Type 0} (rs : Runes R) (restrictions : List (List (List ℕ))) (text : List ℕ)
    → create_rune rs none restrictions ≡ ok text
    → (res : List (List Alternative)) × (parse_restrictions rs restrictions ≡ ok res)
      × (has_pubkey_field res ≡ true)
unfolding create_rune
create_rune_lem rs restrictions text h =
    let (res, parsed, h1) = >>=-eq-ok (parse_restrictions rs restrictions) _ h in
    let (u, bound, h2) = >>=-eq-ok (ensure (has_pubkey_field res) missing_pubkey) _ h1 in
    (res, parsed, ensure-ok (has_pubkey_field res) missing_pubkey bound)
