-- ===== src/Persist/Wire.antt =====
-- `From` and `Into` between `State` and the list of `pb::SignerStateEntry` that travels over gRPC
-- (libs/gl-client/src/persist.rs).
use greenlight.Prelude.{ℕ, ◌≡◌, refl, ◌∙◌, ap, Option, none, some, List, [], ◌∷◌, arith}
use greenlight.Prelude.Run.{Run, done, unwrap, ◌>>=◌}
use greenlight.Persist.Map.{Key, BTreeMap, lookup, insert, IsSorted}
use greenlight.Persist.Map.Order.{cmp-eq}
use greenlight.Persist.Map.Laws.{lookup-insert, lookup-Above, insert-IsSorted, lookup-injective}
use greenlight.Persist.Merge.{Entry, State}
use greenlight.Persist.Merge.Spec.{IsValid}

pub record SignerStateEntry : Type 0 where
  pub key : Key
  pub value : List ℕ
  pub version : ℕ

-- `serde_json::to_vec` and `serde_json::from_slice`, which answers none on bytes that are no JSON.
module _ {V : Type 0} (to_vec : V → List ℕ) where
  unfoldable pub into_entries : BTreeMap (Entry V) → List SignerStateEntry
  into_entries [] = []
  into_entries ((k, (ver, val)) ∷ m) =
      (record { key = k; value = to_vec val; version = ver }) ∷ into_entries m

  unfoldable pub into : State V → List SignerStateEntry
  unfolding into_entries
  into s = into_entries s.values

module _ {V : Type 0} (from_slice : List ℕ → Option V) where
  -- The pairs that are collected; an `unwrap` fails the whole conversion.
  unfoldable pub parse_entries : List SignerStateEntry → Run (List (Key × Entry V))
  parse_entries [] = done []
  parse_entries (e ∷ es) = do
    val ← unwrap (from_slice e.value)
    rest ← parse_entries es
    done ((e.key, (e.version, val)) ∷ rest)

-- `BTreeMap::from_iter`: of equal keys the last one stays.
unfoldable pub collect : {V : Type 0} → List (Key × V) → BTreeMap V → BTreeMap V
collect [] m = m
collect ((k, v) ∷ l) m = collect l (insert k v m)

module _ {V : Type 0} (from_slice : List ℕ → Option V) where
  unfoldable pub from : List SignerStateEntry → Run (State V)
  unfolding parse_entries collect
  from v = do pairs ← parse_entries from_slice v; done (record { values = collect pairs [] })

lookup-collect :
    {V : Type 0} (k : Key) (l m : BTreeMap V)
    → IsSorted l
    → lookup k (collect l m) ≡ elim (lookup k l) [ none ↦ lookup k m | some v ↦ some v ]
unfolding collect lookup
lookup-collect k [] m s = refl
lookup-collect k ((j, v) ∷ l) m s = ground (
  arith,
  lookup-collect k l (insert j v m) s.1,
  lookup-insert j k v m,
  lookup-Above j l,
  cmp-eq k j,
)

collect-IsSorted :
    {V : Type 0} (l : List (Key × V)) (m : BTreeMap V) → IsSorted m → IsSorted (collect l m)
unfolding collect
collect-IsSorted [] m s = s
collect-IsSorted ((k, v) ∷ l) m s = collect-IsSorted l (insert k v m) (insert-IsSorted k v m s)

none_or : {A : Type 0} (o : Option A) → elim o [ none ↦ none | some v ↦ some v ] ≡ o
none_or none = refl
none_or (some v) = refl

-- Collecting the pairs of a map gives the map.
collect-sorted : {V : Type 0} (m : BTreeMap V) → IsSorted m → collect m [] ≡ m
unfolding lookup
collect-sorted m s =
    lookup-injective (collect m []) m (collect-IsSorted m [] tt) s
      (λ k. lookup-collect k m [] s ∙ none_or (lookup k m))

module _ {V : Type 0} (to_vec : V → List ℕ) (from_slice : List ℕ → Option V) where
  parse_into_entries :
      (m : BTreeMap (Entry V))
      → ((v : V) → from_slice (to_vec v) ≡ some v)
      → parse_entries from_slice (into_entries to_vec m) ≡ done m
  unfolding parse_entries into_entries
  parse_into_entries [] h = refl
  parse_into_entries ((k, (ver, val)) ∷ m) h = rw (h val, parse_into_entries m h) refl

  -- If parsing inverts printing of values, then a valid state survives its conversion to the wire
  -- format and back unchanged.
  pub from-into :
      (s : State V)
      → ((v : V) → from_slice (to_vec v) ≡ some v)
      → IsValid s
      → from from_slice (into to_vec s) ≡ done s
  unfolding from into
  from-into s h v =
      rw (parse_into_entries s.values h)
        (ap (λ (m : BTreeMap (Entry V)). done (record { values = m })) (collect-sorted s.values v))
