-- ===== src/Signer/Rune.antt =====
-- The runes that authorize calls: `Context` of libs/gl-client/src/runes.rs, and `verify_rune` and
-- `create_rune` of libs/gl-client/src/signer/mod.rs. What the crates `runeauth`, `base64` and `hex`
-- do is the record `Runes`. Lower case is that of ASCII letters.
pub mod Verify
pub mod Create
pub mod Rules
mod Tests
use greenlight.Prelude.{
  ℕ, ◌+◌, Bool, true, false, Option, none, some, List, [], ◌∷◌, ◌++◌, ◌==◌, leb, ◌&&◌, ◌||◌,
  if◌then◌else◌, bytes_eq, contains, codes, map,
}
use greenlight.Prelude.Run
use greenlight.Prelude.Run.{Run}
use greenlight.Prelude.Outcome.{Result, ok, err, ◌>>=◌, ok_or}
use greenlight.Signer.Model.{PendingRequest}

-- `runeauth::Alternative`; `condition` is the character of the operator.
pub record Alternative : Type 0 where
  pub field : List ℕ
  pub condition : ℕ
  pub value : List ℕ

-- `runes::Context`; the time is in seconds, none for a time before 1970.
pub record Context : Type 0 where
  pub method : List ℕ
  pub pubkey : List ℕ
  pub unique_id : List ℕ
  pub time : Option ℕ

-- `R` is `runeauth::Rune`. `holds value alt` is `ConditionChecker`, and `check` is
-- `check_with_reason` of the master rune with a check of its alternatives.
pub record Runes (R : Type 0) : Type 0 where
  pub encode : List ℕ → List ℕ
  pub from_base64 : List ℕ → Option R
  pub to_string : R → List ℕ
  pub to_base64 : R → List ℕ
  pub get_id : R → Option (List ℕ)
  pub holds : List ℕ → Alternative → Bool
  pub check : List ℕ → (Alternative → Bool) → Bool
  pub hex : List ℕ → List ℕ
  pub decimal : ℕ → List ℕ
  pub restriction : List ℕ → Option (List Alternative)
  pub add_restriction : List Alternative → R → R
  pub new_rune : List (List Alternative) → List ℕ → List ℕ → Option R

-- The value of the field that an alternative is about.
unfoldable pub field_value : {R : Type 0} → Runes R → Context → List ℕ → Option (List ℕ)
field_value rs ctx field =
    if bytes_eq field []
    then some ctx.unique_id
    else if bytes_eq field (codes "method")
    then some ctx.method
    else if bytes_eq field (codes "pubkey")
    then some ctx.pubkey
    else if bytes_eq field (codes "time")
    then elim ctx.time [ none ↦ none | some t ↦ some (rs.decimal t) ]
    else some []

unfoldable pub check_alternative : {R : Type 0} → Runes R → Context → Alternative → Bool
check_alternative rs ctx alt = elim (field_value rs ctx alt.field) [
  | none ↦ false
  | some value ↦ rs.holds value alt
]

-- `s.split(sep)`: `part` is the part that was begun.
unfoldable pub split : ℕ → List ℕ → List ℕ → List (List ℕ)
split sep part [] = part ∷ []
split sep part (c ∷ s) =
    let ended = part ∷ split sep [] s in
    let longer = split sep (part ++ c ∷ []) s in if c == sep then ended else longer

abbrev lower : ℕ → ℕ
lower c = if leb b'A' c && leb c b'Z' then c + 32 else c

unfoldable pub to_lowercase : List ℕ → List ℕ
to_lowercase s = map lower s

pub data RuneError : Type 0 where
  bad_rune : RuneError
  missing_pubkey : RuneError
  unknown_service : RuneError
  no_service : RuneError
  no_method : RuneError
  refused : RuneError
  bad_restriction : RuneError

abbrev pub rune_version : List ℕ
rune_version = codes "gl0"

-- `format!("{}-{}", id, RUNE_VERSION)`, empty without an id.
abbrev pub version_id : Option (List ℕ) → List ℕ
version_id none = []
version_id (some id) = id ++ codes "-" ++ rune_version

-- `if b { Ok(()) } else { Err(e) }`
abbrev pub ensure : Bool → RuneError → Result RuneError (Unit {0})
ensure true e = ok tt
ensure false e = err e

abbrev pub is_service : List ℕ → Bool
is_service s = bytes_eq s (codes "cln.Node") || bytes_eq s (codes "greenlight.Node")

-- The method behind the service: the third of the parts between slashes.
unfoldable pub method_of_parts : List (List ℕ) → Result RuneError (List ℕ)
method_of_parts [] = err no_service
method_of_parts (first ∷ []) = err no_service
method_of_parts (first ∷ service ∷ []) = do
  known ← ensure (is_service service) unknown_service
  err no_method
method_of_parts (first ∷ service ∷ method ∷ rest) = do
  known ← ensure (is_service service) unknown_service
  ok (to_lowercase method)

unfoldable pub uri_method : List ℕ → Result RuneError (List ℕ)
uri_method uri = method_of_parts (split b'/' [] uri)

-- `now` is the time of the check.
unfoldable pub rune_context :
    {R : Type 0} → Runes R → Option ℕ → PendingRequest → R → List ℕ → Context
rune_context rs now request rune method = record {
  method = method;
  pubkey = rs.hex request.pubkey;
  unique_id = version_id (rs.get_id rune);
  time = now;
}

unfoldable pub verify_rune :
    {R : Type 0} → Runes R → Option ℕ → PendingRequest → Result RuneError (Unit {0})
verify_rune rs now request = do
  rune ← ok_or bad_rune (rs.from_base64 (rs.encode request.rune))
  bound ← ensure (contains (rs.to_string rune) (codes "pubkey=")) missing_pubkey
  method ← uri_method request.uri
  ensure
      (rs.check (rs.encode request.rune)
        (check_alternative rs (rune_context rs now request rune method)))
      refused

-- `alts.join("|")`
unfoldable pub join : List (List ℕ) → List ℕ
join [] = []
join (a ∷ []) = a
join (a ∷ b ∷ rest) = a ++ b'|' ∷ join (b ∷ rest)

-- The restrictions that are collected, or the first error.
unfoldable pub parse_restrictions :
    {R : Type 0} → Runes R → List (List (List ℕ)) → Result RuneError (List (List Alternative))
parse_restrictions rs [] = ok []
parse_restrictions rs (alts ∷ more) = do
  r ← ok_or bad_restriction (rs.restriction (join alts))
  others ← parse_restrictions rs more
  ok (r ∷ others)

abbrev is_pubkey : Alternative → Bool
is_pubkey a = bytes_eq a.field (codes "pubkey") && a.condition == b'='

unfoldable pub names_pubkey : List Alternative → Bool
names_pubkey [] = false
names_pubkey (a ∷ as_) = is_pubkey a || names_pubkey as_

unfoldable pub has_pubkey_field : List (List Alternative) → Bool
has_pubkey_field [] = false
has_pubkey_field (r ∷ rs) = names_pubkey r || has_pubkey_field rs

-- A restriction that cannot be added to a rune is dropped.
unfoldable pub add_all : {R : Type 0} → Runes R → List (List (List ℕ)) → R → R
add_all rs [] rune = rune
add_all rs (alts ∷ more) rune =
    add_all rs more
      (elim (rs.restriction (join alts)) [ none ↦ rune | some r ↦ rs.add_restriction r rune ])

unfoldable pub create_rune :
    {R : Type 0} → Runes R → Option (List ℕ) → List (List (List ℕ)) → Result RuneError (List ℕ)
create_rune rs (some old) restrictions = do
  rune ← ok_or bad_rune (rs.from_base64 old)
  ok (rs.to_base64 (add_all rs restrictions rune))
create_rune rs none restrictions = do
  res ← parse_restrictions rs restrictions
  bound ← ensure (has_pubkey_field res) missing_pubkey
  rune ← ok_or bad_rune (rs.new_rune res (codes "0") rune_version)
  ok (rs.to_base64 rune)
