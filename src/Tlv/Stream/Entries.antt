-- ===== src/Tlv/Stream/Entries.antt =====
-- Looking up, inserting and replacing entries.
use greenlight.Prelude.{
  ◌⊎◌, ℕ, ◌≤◌, ◌≡◌, ◌≢◌, ◌∙◌, refl, none, some, List, [], ◌∷◌, ◌++◌, arith, ◌==◌, if◌then◌else◌,
  All, Option-cases, inl, inr,
}
use greenlight.Prelude.Run.{done, fail}
use greenlight.Tlv.Stream.{
  TlvEntry, SerializedTlvStream, find_entry, get, insert_sorted, sort_entries, insert, set_value,
  set_bytes,
}

find_entry-insert_sorted :
    (t : ℕ) (e : TlvEntry) (es : List TlvEntry)
    → find_entry t (insert_sorted e es) ≡ (if e.typ == t then some e else find_entry t es)
unfolding find_entry insert_sorted
find_entry-insert_sorted t e [] = refl
find_entry-insert_sorted t e (d ∷ es) = ground (arith, find_entry-insert_sorted t e es)

-- The sort is stable, so the first entry of a type stays the first.
find_entry-sort_entries :
    (t : ℕ) (es : List TlvEntry) → find_entry t (sort_entries es) ≡ find_entry t es
unfolding sort_entries find_entry
find_entry-sort_entries t [] = refl
find_entry-sort_entries t (e ∷ es) =
    find_entry-insert_sorted t e (sort_entries es) ∙ rw (find_entry-sort_entries t es) refl

find_entry-append :
    (t : ℕ) (e : TlvEntry) (es : List TlvEntry)
    → find_entry t (es ++ e ∷ [])
      ≡ elim (find_entry t es) [ none ↦ if e.typ == t then some e else none | some d ↦ some d ]
unfolding find_entry
find_entry-append t e [] = refl
find_entry-append t e (d ∷ es) = ground (arith, find_entry-append t e es)

abbrev pub Ascends : List TlvEntry → Type 0
Ascends [] = Unit {0}
Ascends (e ∷ es) = All (λ d. e.typ ≤ d.typ) es × Ascends es

All-insert_sorted :
    (t : ℕ) (e : TlvEntry) (es : List TlvEntry)
    → t ≤ e.typ
    → All (λ d. t ≤ d.typ) es
    → All (λ d. t ≤ d.typ) (insert_sorted e es)
unfolding insert_sorted
All-insert_sorted t e [] le h = (le, tt)
All-insert_sorted t e (d ∷ es) le h = ground (arith, All-insert_sorted t e es)

All-weaken :
    (t u : ℕ) (es : List TlvEntry) → t ≤ u → All (λ d. u ≤ d.typ) es → All (λ d. t ≤ d.typ) es
All-weaken t u [] le h = tt
All-weaken t u (e ∷ es) le h = (omega arith, All-weaken t u es le h.1)

insert_sorted-Ascends :
    (e : TlvEntry) (es : List TlvEntry) → Ascends es → Ascends (insert_sorted e es)
unfolding insert_sorted
insert_sorted-Ascends e [] s = (tt, tt)
insert_sorted-Ascends e (d ∷ es) s =
    ground
      (arith, insert_sorted-Ascends e es, All-insert_sorted d.typ e es, All-weaken e.typ d.typ es)

sort_entries-Ascends : (es : List TlvEntry) → Ascends (sort_entries es)
unfolding sort_entries
sort_entries-Ascends [] = tt
sort_entries-Ascends (e ∷ es) = insert_sorted-Ascends e _ (sort_entries-Ascends es)

-- `insert` of a type that is not there returns a stream that has the new entry under its type, every
-- other type as before, and its entries in ascending order of their types.
insert_new_type :
    (e : TlvEntry) (s : SerializedTlvStream)
    → get e.typ s ≡ none
    → (s' : SerializedTlvStream) × (insert e s ≡ done s')
      × Ascends s'.entries
      × ((t : ℕ) → get t s' ≡ (if e.typ == t then some e else get t s))
unfolding insert get
insert_new_type e s n = (
  record { entries = sort_entries (s.entries ++ e ∷ []) },
  rw (n, insert) refl,
  sort_entries-Ascends (s.entries ++ e ∷ []),
  λ t.
      find_entry-sort_entries t (s.entries ++ e ∷ [])
      ∙ find_entry-append t e s.entries
      ∙ ground (arith, n),
)

-- Either the type is there and `insert` fails, or it is not there and `insert` returns a stream that
-- has the new entry under its type, every other type as before, and its entries in ascending order
-- of their types.
pub get-insert :
    (e : TlvEntry) (s : SerializedTlvStream)
    → ((get e.typ s ≢ none) × (insert e s ≡ fail))
      ⊎ ((get e.typ s ≡ none)
          × ((s' : SerializedTlvStream) × (insert e s ≡ done s')
              × Ascends s'.entries
              × ((t : ℕ) → get t s' ≡ (if e.typ == t then some e else get t s))))
get-insert e s = elim (Option-cases (get e.typ s)) [
  | inl n ↦ inr (n, insert_new_type e s n)
  | inr (d, there) ↦ inl (λ n. cc (n, there), unfold insert get in ground (arith, there))
]

find_entry-set_value :
    (t typ : ℕ) (val : List ℕ) (es : List TlvEntry) (d : TlvEntry)
    → find_entry typ es ≡ some d
    → find_entry t (set_value typ val es)
      ≡ (if typ == t then some (record { typ = typ; value = val }) else find_entry t es)
unfolding find_entry set_value
find_entry-set_value t typ val [] d h = cc
find_entry-set_value t typ val (e ∷ es) d h = ground (arith, find_entry-set_value t typ val es d)

-- `set_bytes` never panics: afterwards the type has the given value, and every other type the entry
-- it had.
pub get-set_bytes :
    (typ : ℕ) (val : List ℕ) (s : SerializedTlvStream)
    → (s' : SerializedTlvStream) × (set_bytes typ val s ≡ done s')
      × ((t : ℕ)
          → get t s' ≡ (if typ == t then some (record { typ = typ; value = val }) else get t s))
get-set_bytes typ val s = elim (Option-cases (find_entry typ s.entries)) [
  | inl n ↦
      let e : TlvEntry = record { typ = typ; value = val } in
      let (s', inserted, asc, lookups) = insert_new_type e s (unfold get in n) in
      (s', unfold set_bytes in ground (arith, n, inserted), lookups)
  | inr (d, there) ↦ (
    record { entries = set_value typ val s.entries },
    unfold set_bytes in ground (arith, there),
    λ t. unfold get in find_entry-set_value t typ val s.entries d there,
  )
]
