-- ===== src/Tramp/Allocation/Picks.antt =====
-- What a sound allocation is, and that each round of `try_allocate` keeps it.
use greenlight.Prelude.{
  ℕ, ◌+◌, ◌-◌, ◌≤◌, ◌≡◌, ◌∙◌, ◌⊎◌, inl, inr, refl, ap, List, [], ◌∷◌, ◌++◌, arith, Bool-cases, leb,
}
use mathlib.Core.List.{append_assoc}
use greenlight.Tramp.Allocation.{
  Channel, ChannelContribution, AllocResult, success, impossible, need_space, Allocations, Later,
  push, pop, after_skip, after_first, after_adjust,
}

abbrev pub contribution : Channel → ℕ → ChannelContribution
contribution ch amount = record { channel = ch; contrib_msat = amount }

-- The contributions come from the channels in their order, at most one from each, and lie between
-- the channel's minimum and what it can spend.
pub data Picks : List Channel → Allocations → Type 0 where
  none : {chs : List Channel} → Picks chs []
  skip : {ch : Channel} {chs : List Channel} {al : Allocations} → Picks chs al → Picks (ch ∷ chs) al
  take :
      {ch : Channel} {chs : List Channel} {al : Allocations} (amount : ℕ)
      → ch.min_htlc_out_msat ≤ amount
      → amount ≤ ch.spendable_msat
      → Picks chs al
      → Picks (ch ∷ chs) (contribution ch amount ∷ al)

abbrev pub total : Allocations → ℕ
total [] = 0
total (a ∷ al) = a.contrib_msat + total al

-- Success adds picks of exactly the target, and a demand for space leaves the vector as it was.
abbrev pub Delivers : List Channel → ℕ → Allocations → AllocResult × Allocations → Type 0
Delivers chs t al (success, al') =
    (new : Allocations) × (al' ≡ al ++ new) × Picks chs new × (total new ≡ t)
Delivers chs t al (impossible, al') = Unit {0}
Delivers chs t al (need_space n, al') = al' ≡ al

pub pop-push : (al : Allocations) (ch : Channel) (amount : ℕ) → pop (push al ch amount) ≡ al
unfolding pop
pop-push [] ch amount = refl
pop-push (a ∷ []) ch amount = refl
pop-push (a ∷ b ∷ al) ch amount = ap (λ l. a ∷ l) (pop-push (b ∷ al) ch amount)

module _ (ch : Channel) (chs : List Channel) (t : ℕ) (al : Allocations) where
  pub deliver_unusable :
      (r : AllocResult × Allocations) → Delivers chs t al r → Delivers (ch ∷ chs) t al r
  deliver_unusable (success, al') (new, e, p, s) = (new, e, skip p, s)
  deliver_unusable (impossible, al') d = tt
  deliver_unusable (need_space n, al') d = d

  pub deliver_skip :
      (lacking : ℕ) (r : AllocResult × Allocations)
      → Delivers chs t al r
      → (r.0 ≡ success) ⊎ (r.1 ≡ al)
      → Delivers (ch ∷ chs) t al (after_skip lacking r)
  deliver_skip lacking (success, al') (new, e, p, s) h = (new, e, skip p, s)
  deliver_skip lacking (impossible, al') d h = ground arith
  deliver_skip lacking (need_space n, al') d h = d

  -- The picks of the channels behind, after `amount` from this channel.
  deliver_take :
      (amount : ℕ) (al' : Allocations)
      → ch.min_htlc_out_msat ≤ amount
      → amount ≤ ch.spendable_msat
      → amount ≤ t
      → Delivers chs (t - amount) (push al ch amount) (success, al')
      → Delivers (ch ∷ chs) t al (success, al')
  deliver_take amount al' lo hi le (new, e, p, s) = (
    contribution ch amount ∷ new,
    e ∙ append_assoc al (contribution ch amount ∷ []) new,
    take amount lo hi p,
    omega arith,
  )

  pub deliver_success :
      (amount : ℕ) (r : AllocResult × Allocations)
      → ch.min_htlc_out_msat ≤ amount
      → amount ≤ ch.spendable_msat
      → amount ≤ t
      → r.0 ≡ success
      → Delivers chs (t - amount) (push al ch amount) r
      → (al' : Allocations) × (r ≡ (success, al')) × Delivers (ch ∷ chs) t al (success, al')
  deliver_success amount (success, al') lo hi le e d =
      (al', refl, deliver_take amount al' lo hi le d)
  deliver_success amount (impossible, al') lo hi le e d = cc
  deliver_success amount (need_space n, al') lo hi le e d = cc

  module _ (later : Later) (lower upper : ℕ) (min_lower : lower ≡ ch.min_htlc_out_msat)
      (lower_upper : lower ≤ upper) (upper_spendable : upper ≤ ch.spendable_msat)
      (upper_target : upper ≤ t)
      (behind : (t' : ℕ) (al' : Allocations) → Delivers chs t' al' (later t' al')) where
    -- The second attempt succeeds.
    deliver_adjust :
        (n : ℕ)
        → n ≤ upper - lower
        → ((al' : Allocations) → (later (t - (upper - n)) al').0 ≡ success)
        → Delivers
            (ch ∷ chs)
            t
            al
            (after_adjust later t (later (t - (upper - n)) (push al ch (upper - n))))
    deliver_adjust n le ok =
        let a : ℕ = upper - n in
        let (al', e, d) =
          deliver_success a (later (t - a) (push al ch a)) (omega arith) (omega arith) (omega arith)
            (ok (push al ch a)) (behind (t - a) (push al ch a)) in
        rw e d

    pub deliver_first :
        (r : AllocResult × Allocations)
        → Delivers chs (t - upper) (push al ch upper) r
        → ((n : ℕ)
            → r.0 ≡ need_space n
            → n ≤ upper - lower
            → (al' : Allocations) → (later (t - (upper - n)) al').0 ≡ success)
        → Delivers (ch ∷ chs) t al (after_first ch later t lower upper r)
    deliver_first (success, al') d retry =
        deliver_take upper al' (omega arith) upper_spendable upper_target d
    deliver_first (impossible, al') d retry = tt
    deliver_first (need_space n, al') d retry = elim (Bool-cases (leb n (upper - lower))) [
      | inl le ↦
          rw (le, d, pop-push al ch upper)
            (deliver_adjust n (ground arith) (retry n refl (ground arith)))
      | inr gt ↦ rw (gt, d) (pop-push al ch upper)
    ]
