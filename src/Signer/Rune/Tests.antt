-- ===== src/Signer/Rune/Tests.antt =====
-- A read-only rune, and builders that keep what they are given.
use greenlight.Prelude.{
  ℕ, ◌≡◌, refl, true, false, some, List, [], ◌∷◌, codes, bytes_eq, starts_with, ◌==◌, if◌then◌else◌,
  All, arith,
}
use greenlight.Prelude.Run.{done}
use greenlight.Prelude.Outcome.{ok}
use greenlight.Signer.Model.{PendingRequest}
use greenlight.Signer.Rune.{
  Runes, uri_method, method_of_parts, split, to_lowercase, rune_context, check_alternative,
}
use greenlight.Signer.Rune.Rules.{
  DefRules, read_only, pay, add, no_rules, one_rule, Builders, generate,
}
use mathlib.Core.List.{flatten}
use greenlight.Signer.Rune.Rules.Alternatives.{Keeps, alternatives_of}
use greenlight.Signer.Rune.Rules.ReadOnly.{IsPrefixOperator, generate-read_only_refused}

abbrev builders : Builders
builders = record {
  alternative = λ f c v. some (record { field = f; condition = c; value = v });
  restriction = λ alts. some alts;
}

builders-Keeps : Keeps builders
builders-Keeps = ((λ f c v a h. ground arith), (λ alts r h. ground arith))

-- Only the operators for a prefix and for equality.
abbrev runes : Runes (List ℕ)
runes = record {
  encode = λ b. b;
  from_base64 = λ t. some t;
  to_string = λ r. r;
  to_base64 = λ r. r;
  get_id = λ r. some (7 ∷ []);
  holds = λ value alt.
      if alt.condition == b'^' then starts_with value alt.value else bytes_eq value alt.value;
  check = λ text f. true;
  hex = λ b. b;
  decimal = λ n. n ∷ [];
  restriction = λ t. some [];
  add_restriction = λ alts r. r;
  new_rune = λ res id version. some id;
}

runes-IsPrefixOperator : IsPrefixOperator runes
runes-IsPrefixOperator value alt is_prefix = ground (arith, is_prefix)

abbrev getinfo : PendingRequest
getinfo = record {
  request = [];
  uri = codes "/cln.Node/Getinfo";
  signature = [];
  pubkey = codes "k";
  timestamp = 0;
  rune = [];
}

getinfo_method : uri_method getinfo.uri ≡ ok (codes "getinfo")
unfolding uri_method method_of_parts split to_lowercase bytes_eq
getinfo_method = refl

read_only_run : generate builders read_only ≡ done (alternatives_of read_only ∷ [])
unfolding generate alternatives_of
read_only_run = refl

generate-read_only_refused_example :
    All
      (All (λ alt.
        check_alternative runes (rune_context runes (some 5) getinfo [] (codes "getinfo")) alt
        ≡ false))
      (alternatives_of read_only ∷ [])
generate-read_only_refused_example =
    generate-read_only_refused runes builders builders-Keeps runes-IsPrefixOperator (some 5) getinfo
      [] (codes "getinfo") (alternatives_of read_only ∷ []) read_only_run getinfo_method

-- Both rules at once.
abbrev both : DefRules
both = add (one_rule read_only (one_rule pay no_rules))

both_run : generate builders both ≡ done (alternatives_of both ∷ [])
unfolding generate alternatives_of flatten
both_run = refl
