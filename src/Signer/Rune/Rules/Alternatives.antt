-- ===== src/Signer/Rune/Rules/Alternatives.antt =====
-- The alternatives of a rule set, and what they allow.
use greenlight.Prelude.{ℕ, ◌≡◌, refl, Option, some, List, [], ◌∷◌, ◌++◌, codes, arith}
use mathlib.Core.List.{append-nil, flatten}
use greenlight.Prelude.Run.{done, unwrap, ok_or, >>=-eq-done}
use greenlight.Signer.Rune.{Alternative}
use greenlight.Signer.Rune.Rules.{
  DefRules, Rules, read_only, pay, add, no_rules, one_rule, Builders, generate, generate_all,
}

-- What is built has the parts it was built from.
abbrev pub Keeps : Builders → Type 0
Keeps b =
    ((f : List ℕ) (c : ℕ) (v : List ℕ) (a : Alternative)
      → b.alternative f c v ≡ some a
      → a ≡ record { field = f; condition = c; value = v })
    × ((alts r : List Alternative) → b.restriction alts ≡ some r → r ≡ alts)

abbrev method_alternative : ℕ → List ℕ → Alternative
method_alternative c v = record { field = codes "method"; condition = c; value = v }

-- The alternatives that a rule set stands for.
unfoldable mutual
  pub alternatives_of : DefRules → List Alternative
  alternatives_of read_only =
      method_alternative b'^' (codes "Get") ∷ method_alternative b'^' (codes "List") ∷ []
  alternatives_of pay = method_alternative b'=' (codes "pay") ∷ []
  alternatives_of (add rules) = alternatives_of_all rules

  pub alternatives_of_all : Rules → List Alternative
  alternatives_of_all no_rules = []
  alternatives_of_all (one_rule r rules) = alternatives_of r ++ alternatives_of_all rules

unwrap-done : {A : Type 0} (o : Option A) (a : A) → unwrap o ≡ done a → o ≡ some a
unwrap-done o a h = ground arith

ok_or-done : {A : Type 0} (o : Option A) (a : A) → ok_or o ≡ done a → o ≡ some a
ok_or-done o a h = ground arith

mutual
  unfolding generate alternatives_of flatten

  generate-alternatives :
      (b : Builders) (rule : DefRules) (rs : List (List Alternative))
      → Keeps b
      → generate b rule ≡ done rs
      → rs ≡ alternatives_of rule ∷ []
  generate-alternatives b read_only rs keeps h =
      let (get, h1, r1) =
        >>=-eq-done (unwrap (b.alternative (codes "method") b'^' (codes "Get"))) _ h in
      let (list, h2, r2) =
        >>=-eq-done (unwrap (b.alternative (codes "method") b'^' (codes "List"))) _ r1 in
      let (r, h3, r3) = >>=-eq-done (unwrap (b.restriction (get ∷ list ∷ []))) _ r2 in
      let got = keeps.0 _ _ _ get (unwrap-done _ get h1) in
      let listed = keeps.0 _ _ _ list (unwrap-done _ list h2) in
      let made = keeps.1 _ r (unwrap-done _ r h3) in ground (arith, got, listed, made, r3)
  generate-alternatives b pay rs keeps h =
      let (a, h1, r1) =
        >>=-eq-done (unwrap (b.alternative (codes "method") b'=' (codes "pay"))) _ h in
      let (r, h2, r2) = >>=-eq-done (unwrap (b.restriction (a ∷ []))) _ r1 in
      let paid = keeps.0 _ _ _ a (unwrap-done _ a h1) in
      let made = keeps.1 _ r (unwrap-done _ r h2) in ground (arith, paid, made, r2)
  generate-alternatives b (add rules) rs keeps h =
      let (alts, h1, r1) = >>=-eq-done (generate_all b rules) _ h in
      let (r, h2, r2) = >>=-eq-done (ok_or (b.restriction alts)) _ r1 in
      let all = generate_all-alternatives b rules alts keeps h1 in
      let made = keeps.1 alts r (ok_or-done _ r h2) in ground (arith, all, made, r2)

  generate_all-alternatives :
      (b : Builders) (rules : Rules) (alts : List Alternative)
      → Keeps b
      → generate_all b rules ≡ done alts
      → alts ≡ alternatives_of_all rules
  generate_all-alternatives b no_rules alts keeps h = ground arith
  generate_all-alternatives b (one_rule rule rules) alts keeps h =
      let (rs, h1, r1) = >>=-eq-done (generate b rule) _ h in
      let (rest, h2, r2) = >>=-eq-done (generate_all b rules) _ r1 in
      let one = generate-alternatives b rule rs keeps h1 in
      let others = generate_all-alternatives b rules rest keeps h2 in
      let flat : flatten rs ≡ alternatives_of rule = rw one (append-nil (alternatives_of rule)) in
      let all : alts ≡ flatten rs ++ rest = ground arith in rw (all, flat, others) refl

-- If what is built has the parts it was built from, then a rule set becomes one restriction, whose
-- alternatives are those of its rules in their order.
pub generate_lem :
    (b : Builders) (rule : DefRules) (rs : List (List Alternative))
    → Keeps b
    → generate b rule ≡ done rs
    → rs ≡ alternatives_of rule ∷ []
generate_lem b rule rs keeps h = generate-alternatives b rule rs keeps h
