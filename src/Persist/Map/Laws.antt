-- ===== src/Persist/Map/Laws.antt =====
-- Lookup after each operation, and the sorted form.
use greenlight.Prelude.{◌≡◌, refl, sym, ap, ◌∙◌, none, some, [], ◌∷◌, Ordering, arith}
use mathlib.Core.Path.{subst}
use greenlight.Persist.Map.{Key, BTreeMap, cmp, lookup, insert, remove, Above, IsSorted}
use greenlight.Persist.Map.Order.{cmp_refl, cmp-eq, cmp-gt, cmp-lt_trans}

module _ {V : Type 0} where
  pub lookup-insert :
      (k j : Key) (v : V) (m : BTreeMap V)
      → lookup j (insert k v m) ≡ elim (cmp j k) [ Ordering.eq ↦ some v | _ ↦ lookup j m ]
  unfolding lookup insert
  lookup-insert k j v [] = ground arith
  lookup-insert k j v ((i, w) ∷ m) =
      ground (arith, lookup-insert k j v m, cmp-eq k i, cmp-eq j k, cmp-eq j i, cmp_refl i)

  pub lookup-Above : (k : Key) (m : BTreeMap V) → Above k m → lookup k m ≡ none
  unfolding lookup
  lookup-Above k [] h = refl
  lookup-Above k ((j, v) ∷ m) h = ground (arith, lookup-Above k m)

  pub Above-trans : (k j : Key) (m : BTreeMap V) → cmp k j ≡ Ordering.lt → Above j m → Above k m
  Above-trans k j [] h a = tt
  Above-trans k j ((i, v) ∷ m) h a = (cmp-lt_trans k j i h a.0, Above-trans k j m h a.1)

  Above-insert :
      (j k : Key) (v : V) (m : BTreeMap V)
      → cmp j k ≡ Ordering.lt
      → Above j m
      → Above j (insert k v m)
  unfolding insert
  Above-insert j k v [] h a = (h, tt)
  Above-insert j k v ((i, w) ∷ m) h a = ground (arith, Above-insert j k v m)

  pub insert-IsSorted : (k : Key) (v : V) (m : BTreeMap V) → IsSorted m → IsSorted (insert k v m)
  unfolding insert
  insert-IsSorted k v [] s = (tt, tt)
  insert-IsSorted k v ((i, w) ∷ m) s = ground (
    arith,
    insert-IsSorted k v m,
    Above-insert i k v m,
    Above-trans k i m,
    cmp-gt k i,
    cmp-eq k i,
  )

  Above-remove : (j k : Key) (m : BTreeMap V) → Above j m → Above j (remove k m)
  unfolding remove
  Above-remove j k [] a = tt
  Above-remove j k ((i, w) ∷ m) a = ground (arith, Above-remove j k m)

  pub remove-IsSorted : (k : Key) (m : BTreeMap V) → IsSorted m → IsSorted (remove k m)
  unfolding remove
  remove-IsSorted k [] s = tt
  remove-IsSorted k ((i, w) ∷ m) s = ground (arith, remove-IsSorted k m, Above-remove i k m)

  pub lookup-remove :
      (k j : Key) (m : BTreeMap V)
      → IsSorted m
      → lookup j (remove k m) ≡ elim (cmp j k) [ Ordering.eq ↦ none | _ ↦ lookup j m ]
  unfolding lookup remove
  lookup-remove k j [] s = ground arith
  lookup-remove k j ((i, w) ∷ m) s =
      ground (
        arith,
        lookup-remove k j m,
        lookup-Above i m,
        cmp-eq k i,
        cmp-eq j k,
        cmp-eq j i,
        cmp_refl i,
      )

  pub lookup_head : (k : Key) (v : V) (m : BTreeMap V) → lookup k ((k, v) ∷ m) ≡ some v
  unfolding lookup
  lookup_head k v m = ground (arith, cmp_refl k)

  lookup_tail :
      (k i : Key) (v w : V) (m n : BTreeMap V)
      → Above k m
      → Above k n
      → lookup i ((k, v) ∷ m) ≡ lookup i ((k, w) ∷ n)
      → lookup i m ≡ lookup i n
  unfolding lookup
  lookup_tail k i v w m n a b h = ground (arith, cmp-eq i k, lookup-Above k m, lookup-Above k n)

  same_head :
      (k j : Key) (v w : V) (m n : BTreeMap V)
      → Above k m
      → Above j n
      → lookup k ((k, v) ∷ m) ≡ lookup k ((j, w) ∷ n)
      → lookup j ((k, v) ∷ m) ≡ lookup j ((j, w) ∷ n)
      → cmp k j ≡ Ordering.eq
  unfolding lookup
  same_head k j v w m n a b hk hj = ground (
    arith,
    cmp_refl k,
    cmp_refl j,
    cmp-gt k j,
    lookup-Above k n,
    lookup-Above j m,
    Above-trans k j n,
    Above-trans j k m,
  )

  same_entry :
      (k j : Key) (v w : V) (m n : BTreeMap V)
      → k ≡ j
      → Above k m
      → Above j n
      → ((i : Key) → lookup i ((k, v) ∷ m) ≡ lookup i ((j, w) ∷ n))
      → (((i : Key) → lookup i m ≡ lookup i n) → m ≡ n)
      → ◌≡◌ {A = BTreeMap V} ((k, v) ∷ m) ((j, w) ∷ n)
  same_entry k j v w m n e a b h tails =
      let f : (i : Key) → lookup i ((k, v) ∷ m) ≡ lookup i ((k, w) ∷ n) =
        λ i. h i ∙ ap (λ x. lookup i ((x, w) ∷ n)) (sym e) in
      let c : Above k n = subst (λ x. Above x n) (sym e) b in
      let q : some v ≡ some w = sym (lookup_head k v m) ∙ f k ∙ lookup_head k w n in
      cc (e, q, tails (λ i. lookup_tail k i v w m n a c (f i)))

  -- Two maps with the same lookups are the same map.
  pub lookup-injective :
      (m n : BTreeMap V) → IsSorted m → IsSorted n → ((k : Key) → lookup k m ≡ lookup k n) → m ≡ n
  lookup-injective [] [] s t h = refl
  lookup-injective [] ((j, w) ∷ n) s t h =
      let e = lookup_head j w n in let f = h j in unfold lookup in cc (e, f)
  lookup-injective ((k, v) ∷ m) [] s t h =
      let e = lookup_head k v m in let f = h k in unfold lookup in cc (e, f)
  lookup-injective ((k, v) ∷ m) ((j, w) ∷ n) s t h =
      same_entry k j v w m n (cmp-eq k j (same_head k j v w m n s.0 t.0 (h k) (h j))) s.0 t.0 h
        (lookup-injective m n s.1 t.1)
