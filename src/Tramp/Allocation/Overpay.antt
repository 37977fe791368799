-- ===== src/Tramp/Allocation/Overpay.antt =====
-- Out of order, `find_allocation` can add up to more than the target: what a skipped channel's
-- successors have pushed stays in the vector, and the `pop` of an earlier channel removes that in
-- place of its own entry.
use greenlight.Prelude.{ℕ, ◌+◌, ◌-◌, ◌≤◌, ◌<◌, ◌≡◌, ap, some, [], ◌∷◌, arith}
use greenlight.Tramp.Allocation.{
  Channel, Allocations, find_allocation, try_allocate, try_channel, pop, push, Later, success,
  impossible, need_space,
}
use greenlight.Tramp.Allocation.Round.{try_allocate_zero}
use mathlib.Core.Path.{subst}
use greenlight.Tramp.Allocation.Picks.{contribution, total}

-- A last channel that is used up without reaching the target.
drained :
    (c : Channel) (t : ℕ) (al : Allocations)
    → c.min_htlc_out_msat ≤ c.spendable_msat
    → 0 < c.spendable_msat
    → c.spendable_msat < t
    → try_allocate (c ∷ []) t al ≡ (impossible, push al c c.spendable_msat)
unfolding try_allocate try_channel
drained c t al m s lt = ground arith

-- The rest is below the minimum of the next channel, and its successors fail.
skipped :
    (b : Channel) (later : Later) (t : ℕ) (al junk : Allocations)
    → 0 < t
    → t < b.min_htlc_out_msat
    → b.min_htlc_out_msat ≤ b.spendable_msat
    → later t al ≡ (impossible, junk)
    → try_channel b later t al ≡ (need_space (b.min_htlc_out_msat - t), junk)
unfolding try_channel
skipped b later t al junk pos lt m e = ground arith

-- Exactly the minimum is left.
filled :
    (b : Channel) (later : Later) (al : Allocations)
    → ((al' : Allocations) → later 0 al' ≡ (success, al'))
    → 0 < b.min_htlc_out_msat
    → b.min_htlc_out_msat ≤ b.spendable_msat
    → try_channel b later b.min_htlc_out_msat al ≡ (success, push al b b.min_htlc_out_msat)
unfolding try_channel
filled b later al zeros pos m = ground (arith, zeros (push al b b.min_htlc_out_msat))

-- The adjustment takes its own channel's entry for that of `junk`.
adjusted :
    (a : Channel) (later : Later) (t n : ℕ) (al junk out : Allocations)
    → a.min_htlc_out_msat ≤ a.spendable_msat
    → 0 < a.spendable_msat
    → a.spendable_msat < t
    → n ≤ a.spendable_msat - a.min_htlc_out_msat
    → later (t - a.spendable_msat) (push al a a.spendable_msat) ≡ (need_space n, junk)
    → later (t - (a.spendable_msat - n)) (push (pop junk) a (a.spendable_msat - n)) ≡ (success, out)
    → try_channel a later t al ≡ (success, out)
unfolding try_channel
adjusted a later t n al junk out m pos lt fits asked met = ground arith

module _ (a b c : Channel) (target : ℕ)
    (a_first : (a.min_htlc_out_msat ≤ a.spendable_msat)
      × (0 < a.spendable_msat)
      × (a.spendable_msat < target))
    (b_next : (target < a.spendable_msat + b.min_htlc_out_msat)
      × (b.min_htlc_out_msat ≤ b.spendable_msat)
      × (b.min_htlc_out_msat + a.min_htlc_out_msat ≤ target))
    (c_last : (c.min_htlc_out_msat ≤ c.spendable_msat)
      × (0 < c.spendable_msat)
      × (a.spendable_msat + c.spendable_msat < target)) where
  -- Where `a` cannot pay the target alone, the rest is below the minimum of `b` by no more than what
  -- `a` could give up, and `c` can pay a part of the rest but not all of it, the channels `a`, `b`
  -- and `c` in this order yield an allocation that uses `a` twice, and exceeds the target by all that
  -- `a` can spend.
  pub find_allocation-overpays :
      (al : Allocations) × (find_allocation (a ∷ b ∷ c ∷ []) target ≡ some al)
      × (al
          ≡ contribution a a.spendable_msat
            ∷ contribution a (target - b.min_htlc_out_msat)
            ∷ contribution b b.min_htlc_out_msat
            ∷ [])
      × (total al ≡ target + a.spendable_msat)
  unfolding find_allocation try_allocate pop
  find_allocation-overpays =
      let rest : ℕ = target - a.spendable_msat in
      let n : ℕ = b.min_htlc_out_msat - rest in
      let used : Allocations = contribution a a.spendable_msat ∷ [] in
      let junk : Allocations = push used c c.spendable_msat in
      let again : Allocations = push used a (a.spendable_msat - n) in
      let out : Allocations = push again b b.min_htlc_out_msat in
      let stuck : try_allocate (b ∷ c ∷ []) rest used ≡ (need_space n, junk) =
        skipped b (try_allocate (c ∷ [])) rest used junk (omega arith) (omega arith) b_next.1
          (drained c rest used c_last.0 c_last.1 (omega arith)) in
      let met : try_allocate (b ∷ c ∷ []) (target - (a.spendable_msat - n)) again ≡ (success, out) =
        subst (λ q. try_allocate (b ∷ c ∷ []) q again ≡ (success, out)) (omega arith)
          (filled b (try_allocate (c ∷ [])) again (try_allocate_zero (c ∷ [])) (omega arith)
            b_next.1) in
      let found : try_allocate (a ∷ b ∷ c ∷ []) target [] ≡ (success, out) =
        adjusted a (try_allocate (b ∷ c ∷ [])) target n [] junk out a_first.0 a_first.1 a_first.2
          (omega arith) stuck met in
      (
        out,
        ground (arith, found),
        ap
            (λ q.
              contribution a a.spendable_msat
              ∷ contribution a q
              ∷ contribution b b.min_htlc_out_msat
              ∷ [])
            (omega arith),
        omega arith,
      )
