-- ===== src/Persist/Map/Order.antt =====
-- The order of the keys is a strict total order.
use greenlight.Prelude.{◌≡◌, refl, [], ◌∷◌, Ordering, arith}
use greenlight.Persist.Map.{Key, cmp}

pub cmp_refl : (a : Key) → cmp a a ≡ Ordering.eq
unfolding cmp
cmp_refl [] = refl
cmp_refl (x ∷ xs) = ground (arith, cmp_refl xs)

pub cmp-eq : (a b : Key) → cmp a b ≡ Ordering.eq → a ≡ b
unfolding cmp
cmp-eq [] [] h = refl
cmp-eq [] (y ∷ ys) h = cc
cmp-eq (x ∷ xs) [] h = cc
cmp-eq (x ∷ xs) (y ∷ ys) h = ground (arith, cmp-eq xs ys)

pub cmp-gt : (a b : Key) → cmp a b ≡ Ordering.gt → cmp b a ≡ Ordering.lt
unfolding cmp
cmp-gt [] [] h = cc
cmp-gt [] (y ∷ ys) h = cc
cmp-gt (x ∷ xs) [] h = refl
cmp-gt (x ∷ xs) (y ∷ ys) h = ground (arith, cmp-gt xs ys)

pub cmp-lt_trans :
    (a b c : Key) → cmp a b ≡ Ordering.lt → cmp b c ≡ Ordering.lt → cmp a c ≡ Ordering.lt
unfolding cmp
cmp-lt_trans a [] [] h k = cc
cmp-lt_trans [] b (z ∷ zs) h k = refl
cmp-lt_trans (x ∷ xs) [] c h k = cc
cmp-lt_trans a (y ∷ ys) [] h k = cc
cmp-lt_trans (x ∷ xs) (y ∷ ys) (z ∷ zs) h k = ground (arith, cmp-lt_trans xs ys zs)
