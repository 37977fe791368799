-- ===== src/Persist/Merge.antt =====
-- `State` of libs/gl-client/src/persist.rs, and how two states are merged and compared.
-- `V` stands for `serde_json::Value`, which the merge only copies.
pub mod Spec
pub mod Algebra
pub mod Changes
mod Tests
use greenlight.Prelude.{
  ℕ, Bool, true, Option, none, some, List, [], ◌∷◌, ◌++◌, ltb, ◌==◌, if◌then◌else◌, map,
}
use greenlight.Persist.Map.{Key, BTreeMap, lookup, insert}

-- A version (u64) and the value of that version.
abbrev pub Entry : Type 0 → Type 0
Entry V = ℕ × V

pub record State (V : Type 0) : Type 0 where
  pub values : BTreeMap (Entry V)

-- What `merge` reports of a key: its version before, if it had one, and after.
abbrev pub Update : Type 0
Update = Key × Option ℕ × ℕ

pub record StateChange (V : Type 0) : Type 0 where
  pub key : Key
  pub old : Option (Entry V)
  pub new : Entry V

module _ {V : Type 0} where
  abbrev pub empty : State V
  empty = record { values = [] }

  -- One round of the loop of `merge`: the local map and the report, against one remote entry.
  pub merge_entry :
      Key → Entry V → BTreeMap (Entry V) × List Update → BTreeMap (Entry V) × List Update
  merge_entry key (newver, newval) (values, res) = elim (lookup key values) [
    | none ↦ (insert key (newver, newval) values, res ++ (key, none, newver) ∷ [])
    | some (ver, val) ↦
        if ver == newver
        then (values, res)
        else if ltb newver ver
        then (values, res)
        else (insert key (newver, newval) values, res ++ (key, some ver, newver) ∷ [])
  ]

  unfoldable pub merge_loop :
      BTreeMap (Entry V) → BTreeMap (Entry V) × List Update → BTreeMap (Entry V) × List Update
  merge_loop [] acc = acc
  merge_loop ((key, e) ∷ rest) acc = merge_loop rest (merge_entry key e acc)

  -- `merge` returns `Ok` on every path.
  unfoldable pub merge : State V → State V → State V × List Update
  unfolding merge_loop
  merge s other =
      let (values, res) = merge_loop other.values (s.values, []) in
      (record { values = values }, res)

  pub is_newer : StateChange V → Bool
  is_newer c = elim c.old [ none ↦ true | some (oldver, oldval) ↦ ltb oldver c.new.0 ]

  pub keep_newer : List (StateChange V) → List (StateChange V)
  unfolding is_newer
  keep_newer [] = []
  keep_newer (c ∷ cs) = if is_newer c then c ∷ keep_newer cs else keep_newer cs

  pub change_of : State V → Key × Entry V → StateChange V
  change_of s (key, e) = record { key = key; old = lookup key s.values; new = e }

  pub diff : State V → State V → List (StateChange V)
  unfolding keep_newer change_of
  diff s other = keep_newer (map (change_of s) other.values)
