-- ===== src/Tramp/Allocation/Bounds.antt =====
-- What holds of `find_allocation` in any order of the channels: bounds of each part, and how much can
-- be allocated at all.
use greenlight.Prelude.{
  ℕ, ◌-◌, ◌≤◌, ◌≡◌, inl, inr, some, List, [], ◌∷◌, min, arith, Bool-cases, All, All-append, leb,
  ◌==◌,
}
use native.Mathlib.Decide.{dec_lt}
use greenlight.Tramp.Allocation.{
  Channel, ChannelContribution, AllocResult, success, impossible, need_space, Allocations, Later,
  push, pop, try_channel, try_allocate, is_unusable, after_skip, after_first, after_adjust,
  find_allocation, succeeded,
}
use greenlight.Tramp.Allocation.Round.{
  try_channel_zero, status_unusable, try_channel_skip, try_channel_take,
}

-- Between the channel's minimum and what it can spend.
abbrev pub InBounds : ChannelContribution → Type 0
InBounds a =
    (a.channel.min_htlc_out_msat ≤ a.contrib_msat) × (a.contrib_msat ≤ a.channel.spendable_msat)

All-pop : (al : Allocations) → All InBounds al → All InBounds (pop al)
unfolding pop
All-pop [] h = tt
All-pop (a ∷ []) h = tt
All-pop (a ∷ b ∷ al) h = (h.0, All-pop (b ∷ al) h.1)

All-push :
    (al : Allocations) (ch : Channel) (amount : ℕ)
    → ch.min_htlc_out_msat ≤ amount
    → amount ≤ ch.spendable_msat
    → All InBounds al
    → All InBounds (push al ch amount)
All-push al ch amount lo hi h = All-append InBounds al _ h ((lo, hi), tt)

abbrev KeepsBounds : Later → Type 0
KeepsBounds f = (t : ℕ) (al : Allocations) → All InBounds al → All InBounds (f t al).1

bounds_adjust :
    (later : Later) (t : ℕ) (r : AllocResult × Allocations)
    → KeepsBounds later
    → All InBounds r.1
    → All InBounds (after_adjust later t r).1
bounds_adjust later t (success, al) k h = h
bounds_adjust later t (impossible, al) k h = k t (pop al) (All-pop al h)
bounds_adjust later t (need_space n, al) k h = k t (pop al) (All-pop al h)

bounds_skip :
    (lacking : ℕ) (r : AllocResult × Allocations)
    → All InBounds r.1
    → All InBounds (after_skip lacking r).1
bounds_skip lacking (success, al) h = h
bounds_skip lacking (impossible, al) h = h
bounds_skip lacking (need_space n, al) h = h

bounds_first :
    (ch : Channel) (later : Later) (t upper : ℕ) (r : AllocResult × Allocations)
    → KeepsBounds later
    → ch.min_htlc_out_msat ≤ upper
    → upper ≤ ch.spendable_msat
    → All InBounds r.1
    → All InBounds (after_first ch later t ch.min_htlc_out_msat upper r).1
bounds_first ch later t upper (success, al) k lo hi h = h
bounds_first ch later t upper (impossible, al) k lo hi h = h
bounds_first ch later t upper (need_space n, al) k lo hi h =
    elim (Bool-cases (leb n (upper - ch.min_htlc_out_msat))) [
      | inl le ↦
          let a : ℕ = upper - n in
          let pushed = All-push (pop al) ch a (ground arith) (omega arith) (All-pop al h) in
          rw le (
            bounds_adjust later t (later (t - a) (push (pop al) ch a)) k
              (k (t - a) (push (pop al) ch a) pushed))
      | inr gt ↦ rw gt (All-pop al h)
    ]

bounds_channel :
    (ch : Channel) (later : Later) → KeepsBounds later → KeepsBounds (try_channel ch later)
bounds_channel ch later k t al h = elim (dec_lt 0 t) [
  | no z ↦ rw (try_channel_zero ch later t al z) h
  | yes pos ↦ elim (Bool-cases (is_unusable ch)) [
    | inl u ↦ rw (status_unusable ch later t al pos u) (k t al h)
    | inr u ↦ elim (dec_lt t ch.min_htlc_out_msat) [
      | yes p ↦
          rw (try_channel_skip ch later t al pos u p)
            (bounds_skip (ch.min_htlc_out_msat - t) (later t al) (k t al h))
      | no p ↦
          let a : ℕ = min ch.spendable_msat t in
          rw (try_channel_take ch later t al pos u (omega arith)) (
            bounds_first ch later t a (later (t - a) (push al ch a)) k (ground arith) (omega arith)
              (k (t - a) (push al ch a) (All-push al ch a (ground arith) (omega arith) h)))
    ]
  ]
]

try_allocate-InBounds : (chs : List Channel) → KeepsBounds (try_allocate chs)
unfolding try_allocate
try_allocate-InBounds [] t al h = elim (Bool-cases (t == 0)) [ inl z ↦ rw z h | inr n ↦ rw n h ]
try_allocate-InBounds (ch ∷ chs) t al h =
    bounds_channel ch (try_allocate chs) (try_allocate-InBounds chs) t al h

bounds_succeeded :
    (r : AllocResult × Allocations) (al : Allocations)
    → All InBounds r.1
    → succeeded r ≡ some al
    → All InBounds al
bounds_succeeded (success, al') al h e = let same : al ≡ al' = cc e in rw same h
bounds_succeeded (impossible, al') al h e = cc
bounds_succeeded (need_space n, al') al h e = cc

-- In whatever order the channels stand, each part of an allocation that is found lies between the
-- minimum of its channel and what that channel can spend.
pub find_allocation-InBounds :
    (chs : List Channel) (t : ℕ) (al : Allocations)
    → find_allocation chs t ≡ some al
    → All InBounds al
unfolding find_allocation
find_allocation-InBounds chs t al h =
    bounds_succeeded (try_allocate chs t []) al (try_allocate-InBounds chs t [] tt) (ground arith)
