-- ===== src/Signer/Rune/Rules.antt =====
-- The predefined rule sets of libs/gl-client/src/runes.rs: `DefRules` and `RuneFactory::carve`. What
-- `runeauth` does to build alternatives and restrictions is the record `Builders`.
pub mod Alternatives
pub mod ReadOnly
use greenlight.Prelude.{ℕ, Option, none, some, List, [], ◌∷◌, ◌++◌, if◌then◌else◌, bytes_eq, codes}
use mathlib.Core.List.{flatten}
use greenlight.Prelude.Run.{Run, done, unwrap, ok_or, ◌>>=◌}
use greenlight.Signer.Rune.{Runes, Alternative}

mutual
  pub data DefRules : Type 0 where
    read_only : DefRules
    pay : DefRules
    add : Rules → DefRules

  pub data Rules : Type 0 where
    no_rules : Rules
    one_rule : DefRules → Rules → Rules

-- `Alternative::new` of a field, the character of a condition and a value, and `Restriction::new`.
pub record Builders : Type 0 where
  pub alternative : List ℕ → ℕ → List ℕ → Option Alternative
  pub restriction : List Alternative → Option (List Alternative)

-- Where the source unwraps, an error is a panic.
unfoldable mutual
  pub generate : Builders → DefRules → Run (List (List Alternative))
  generate b read_only = do
    get ← unwrap (b.alternative (codes "method") b'^' (codes "Get"))
    list ← unwrap (b.alternative (codes "method") b'^' (codes "List"))
    r ← unwrap (b.restriction (get ∷ list ∷ []))
    done (r ∷ [])
  generate b pay = do
    a ← unwrap (b.alternative (codes "method") b'=' (codes "pay"))
    r ← unwrap (b.restriction (a ∷ []))
    done (r ∷ [])
  generate b (add rules) = do
    alts ← generate_all b rules
    r ← ok_or (b.restriction alts)
    done (r ∷ [])

  pub generate_all : Builders → Rules → Run (List Alternative)
  generate_all b no_rules = done []
  generate_all b (one_rule r rules) = do
    rs ← generate b r
    rest ← generate_all b rules
    done (flatten rs ++ rest)

-- Of several rules the restrictions one after the other.
unfoldable pub generate_each : Builders → List DefRules → Run (List (List Alternative))
generate_each b [] = done []
generate_each b (r ∷ rules) = do rs ← generate b r; rest ← generate_each b rules; done (rs ++ rest)

unfoldable pub add_restrictions : {R : Type 0} → Runes R → List (List Alternative) → R → R
add_restrictions rs [] rune = rune
add_restrictions rs (r ∷ more) rune = add_restrictions rs more (rs.add_restriction r rune)

unfoldable pub carve : {R : Type 0} → Runes R → Builders → R → List DefRules → Run (List ℕ)
carve rs b origin append = do
  restrictions ← generate_each b append
  done (rs.to_base64 (add_restrictions rs restrictions origin))
