-- ===== src/Signer/Rune/Verify.antt =====
-- What a rune that `verify_rune` accepts has passed.
use greenlight.Prelude.{contains, ℕ, ◌≡◌, refl, true, Option, some, List, [], ◌∷◌, codes, arith}
use greenlight.Prelude.Outcome.{ok, ok_or, >>=-eq-ok}
use greenlight.Signer.Model.{PendingRequest}
use greenlight.Signer.Rune.{
  Runes, verify_rune, uri_method, rune_context, check_alternative, method_of_parts, is_service,
  to_lowercase, ensure, missing_pubkey, bad_rune, refused, unknown_service,
}
use greenlight.Signer.Rune.Create.{ensure-ok}

-- The method that is checked is the lower case of the third part of a URI whose second part is one
-- of the known services.
pub method_of_parts_lem :
    (parts : List (List ℕ)) (name : List ℕ)
    → method_of_parts parts ≡ ok name
    → (first : List ℕ) × ((service : List ℕ) × ((method : List ℕ) × ((rest : List (List ℕ)) × (parts
              ≡ first ∷ service ∷ method ∷ rest)
            × (is_service service ≡ true)
            × (name ≡ to_lowercase method))))
unfolding method_of_parts
method_of_parts_lem [] name h = cc
method_of_parts_lem (first ∷ []) name h = cc
method_of_parts_lem (first ∷ service ∷ []) name h =
    let (u, known, h1) = >>=-eq-ok (ensure (is_service service) unknown_service) _ h in cc
method_of_parts_lem (first ∷ service ∷ method ∷ rest) name h =
    let (u, known, h1) = >>=-eq-ok (ensure (is_service service) unknown_service) _ h in
    (
      first,
      (service, (method, (rest, refl, ensure-ok (is_service service) unknown_service known, cc))),
    )

-- A call that a rune allows: its rune can be read and is bound to a public key, its URI names a
-- method of a known service, and the check of the rune's alternatives in the context of that method
-- passed.
pub verify_rune_lem :
    {R : Type 0} (rs : Runes R) (now : Option ℕ) (request : PendingRequest)
    → verify_rune rs now request ≡ ok tt
    → (rune : R) × ((method : List ℕ) × (rs.from_base64 (rs.encode request.rune) ≡ some rune)
        × (contains (rs.to_string rune) (codes "pubkey=") ≡ true)
        × (uri_method request.uri ≡ ok method)
        × (rs.check
              (rs.encode request.rune)
              (check_alternative rs (rune_context rs now request rune method))
            ≡ true))
unfolding verify_rune
verify_rune_lem rs now request h =
    let (rune, read, h1) =
      >>=-eq-ok (ok_or bad_rune (rs.from_base64 (rs.encode request.rune))) _ h in
    let held = contains (rs.to_string rune) (codes "pubkey=") in
    let (u, bound, h2) = >>=-eq-ok (ensure held missing_pubkey) _ h1 in
    let (method, named, h3) = >>=-eq-ok (uri_method request.uri) _ h2 in
    (
      rune,
      (method, ground arith, ensure-ok held missing_pubkey bound, named, ensure-ok _ refused h3),
    )
