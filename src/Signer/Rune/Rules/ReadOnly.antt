-- ===== src/Signer/Rune/Rules/ReadOnly.antt =====
-- A read-only rune at the signer.
use greenlight.Prelude.{
  ℕ, ◌≡◌, ◌∙◌, refl, false, Option, List, [], ◌∷◌, codes, arith, starts_with, bytes_eq, All, ◌==◌,
}
use greenlight.Prelude.Run.{done}
use greenlight.Prelude.Outcome.{ok}
use greenlight.Signer.Model.{PendingRequest}
use greenlight.Signer.Rune.{
  Runes, Alternative, uri_method, split, rune_context, check_alternative, field_value, to_lowercase,
  lower,
}
use greenlight.Signer.Rune.Verify.{method_of_parts_lem}
use greenlight.Signer.Rune.Rules.{read_only, Builders, generate}
use greenlight.Signer.Rune.Rules.Alternatives.{Keeps, generate_lem, alternatives_of}

lower_capital : (c : ℕ) → ((lower c == b'G') ≡ false) × ((lower c == b'L') ≡ false)
lower_capital c = ground arith

-- Text in lower case starts with neither word.
to_lowercase-starts_with :
    (m : List ℕ)
    → (starts_with (to_lowercase m) (codes "Get") ≡ false)
      × (starts_with (to_lowercase m) (codes "List") ≡ false)
unfolding to_lowercase starts_with
to_lowercase-starts_with [] = (refl, refl)
to_lowercase-starts_with (c ∷ m) = let (no_g, no_l) = lower_capital c in ground (arith, no_g, no_l)

-- `^` stands for a prefix.
abbrev pub IsPrefixOperator : {R : Type 0} → Runes R → Type 0
IsPrefixOperator rs =
    (value : List ℕ) (alt : Alternative)
    → alt.condition ≡ b'^'
    → rs.holds value alt ≡ starts_with value alt.value

module _ {R : Type 0} (rs : Runes R) (b : Builders) (keeps : Keeps b)
    (prefix : IsPrefixOperator rs) where
  -- If `^` stands for a prefix, and what is built has the parts it was built from, then no alternative
  -- of the read-only rules holds in the context of a request at the signer, whatever method the URI
  -- names: the method of the context is in lower case, the rules ask for `Get` and `List`.
  pub generate-read_only_refused :
      (now : Option ℕ) (request : PendingRequest) (rune : R) (method : List ℕ)
      (restrictions : List (List Alternative))
      → generate b read_only ≡ done restrictions
      → uri_method request.uri ≡ ok method
      → All
          (All (λ alt. check_alternative rs (rune_context rs now request rune method) alt ≡ false))
          restrictions
  unfolding uri_method alternatives_of check_alternative field_value rune_context bytes_eq
  generate-read_only_refused now request rune method restrictions made named =
      let (first, (service, (m, (rest, parts, known, same)))) =
        method_of_parts_lem (split b'/' [] request.uri) method named in
      let (no_get, no_list) = to_lowercase-starts_with m in
      rw (generate_lem b read_only restrictions keeps made, same)
        ((
          (prefix (to_lowercase m) _ refl ∙ no_get, (prefix (to_lowercase m) _ refl ∙ no_list, tt)),
          tt,
        ))
