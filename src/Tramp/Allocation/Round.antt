-- ===== src/Tramp/Allocation/Round.antt =====
-- One round of `try_allocate`: its answer, by the answer of the channels behind.
use greenlight.Prelude.{
  ℕ, ◌-◌, ◌≤◌, ◌<◌, ◌≡◌, ◌⊎◌, inl, inr, refl, List, [], ◌∷◌, min, arith, true, false,
}
use greenlight.Tramp.Allocation.{
  Channel, AllocResult, success, impossible, need_space, Allocations, Later, push, pop, try_channel,
  try_allocate, is_unusable, after_skip, after_first,
}

pub try_allocate_zero :
    (chs : List Channel) (al : Allocations) → try_allocate chs 0 al ≡ (success, al)
unfolding try_allocate try_channel
try_allocate_zero [] al = refl
try_allocate_zero (ch ∷ chs) al = refl

pub AllocResult-cases :
    (r : AllocResult) → (r ≡ success) ⊎ (r ≡ impossible) ⊎ ((n : ℕ) × (r ≡ need_space n))
AllocResult-cases success = inl refl
AllocResult-cases impossible = inr (inl refl)
AllocResult-cases (need_space n) = inr (inr (n, refl))

module _ (ch : Channel) (later : Later) where
  pub try_channel_zero :
      (t : ℕ) (al : Allocations) → ¬ (0 < t) → try_channel ch later t al ≡ (success, al)
  unfolding try_channel
  try_channel_zero t al z = ground arith

  pub status_unusable :
      (t : ℕ) (al : Allocations)
      → 0 < t
      → is_unusable ch ≡ true
      → try_channel ch later t al ≡ later t al
  unfolding try_channel
  status_unusable t al h u = ground arith

  pub try_channel_skip :
      (t : ℕ) (al : Allocations)
      → 0 < t
      → is_unusable ch ≡ false
      → t < ch.min_htlc_out_msat
      → try_channel ch later t al ≡ after_skip (ch.min_htlc_out_msat - t) (later t al)
  unfolding try_channel
  try_channel_skip t al h u lt = ground arith

  pub try_channel_take :
      (t : ℕ) (al : Allocations)
      → 0 < t
      → is_unusable ch ≡ false
      → ch.min_htlc_out_msat ≤ t
      → try_channel ch later t al
        ≡ after_first ch later t ch.min_htlc_out_msat
            (min ch.spendable_msat t)
            (later (t - min ch.spendable_msat t) (push al ch (min ch.spendable_msat t)))
  unfolding try_channel
  try_channel_take t al h u le = ground arith

  pub status_skip :
      (t : ℕ) (al : Allocations)
      → 0 < t
      → is_unusable ch ≡ false
      → t < ch.min_htlc_out_msat
      → ((try_channel ch later t al).0 ≡ success)
        ⊎ ((try_channel ch later t al).0 ≡ need_space (ch.min_htlc_out_msat - t))
  unfolding try_channel
  status_skip t al h u lt = ground arith

  -- The first attempt, with `up` from this channel.
  abbrev pub up : ℕ → ℕ
  up t = min ch.spendable_msat t

  abbrev pub first : ℕ → Allocations → AllocResult
  first t al = (later (t - up t) (push al ch (up t))).0

  module _ (t : ℕ) (al : Allocations) (positive : 0 < t) (usable : is_unusable ch ≡ false)
      (enough : ch.min_htlc_out_msat ≤ t) where
    pub status_first : first t al ≡ success → (try_channel ch later t al).0 ≡ success
    unfolding try_channel
    status_first e = ground arith

    pub status_impossible : first t al ≡ impossible → (try_channel ch later t al).0 ≡ impossible
    unfolding try_channel
    status_impossible e = ground arith

    pub status_need :
        (s : ℕ)
        → first t al ≡ need_space s
        → up t - ch.min_htlc_out_msat < s
        → (try_channel ch later t al).0 ≡ need_space (s - (up t - ch.min_htlc_out_msat))
    unfolding try_channel
    status_need s e lt = ground arith

    pub status_adjust :
        (s : ℕ)
        → first t al ≡ need_space s
        → s ≤ up t - ch.min_htlc_out_msat
        → ((al' : Allocations) → (later (t - (up t - s)) al').0 ≡ success)
        → (try_channel ch later t al).0 ≡ success
    unfolding try_channel
    status_adjust s e le ok =
        ground (arith, ok (push (pop (later (t - up t) (push al ch (up t))).1) ch (up t - s)))
