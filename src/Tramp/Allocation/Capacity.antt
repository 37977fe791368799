-- ===== src/Tramp/Allocation/Capacity.antt =====
-- How much `find_allocation` can find at all.
use greenlight.Prelude.{
  ℕ, ◌+◌, ◌-◌, ◌≤◌, ◌<◌, ◌≡◌, ◌≢◌, ◌↔◌, ◌⊎◌, inl, inr, refl, none, List, [], ◌∷◌, min, arith,
  Bool-cases, All, leb,
}
use native.Mathlib.Decide.{dec_lt}
use greenlight.Tramp.Allocation.{
  Channel, AllocResult, success, impossible, need_space, Allocations, Later, push, pop, try_channel,
  try_allocate, is_unusable, after_skip, after_first, after_adjust, find_allocation, succeeded,
}
use greenlight.Tramp.Allocation.Round.{status_unusable, try_channel_skip, try_channel_take}

abbrev pub capacity : List Channel → ℕ
capacity [] = 0
capacity (ch ∷ chs) = ch.spendable_msat + capacity chs

-- Success needs the capacity `c`.
abbrev Needs : ℕ → Later → Type 0
Needs c f = (t : ℕ) (al : Allocations) → (f t al).0 ≡ success → t ≤ c

Needs-after_adjust :
    (later : Later) (c t : ℕ) (r : AllocResult × Allocations)
    → Needs c later
    → (after_adjust later t r).0 ≡ success
    → (r.0 ≡ success) ⊎ (t ≤ c)
Needs-after_adjust later c t (success, al) k e = inl refl
Needs-after_adjust later c t (impossible, al) k e = inr (k t (pop al) e)
Needs-after_adjust later c t (need_space n, al) k e = inr (k t (pop al) e)

success-after_skip :
    (lacking : ℕ) (r : AllocResult × Allocations)
    → (after_skip lacking r).0 ≡ success
    → r.0 ≡ success
success-after_skip lacking (success, al) e = e
success-after_skip lacking (impossible, al) e = cc
success-after_skip lacking (need_space n, al) e = cc

Needs-after_first :
    (ch : Channel) (later : Later) (c t lower upper : ℕ) (r : AllocResult × Allocations)
    → Needs c later
    → upper ≤ ch.spendable_msat
    → (r.0 ≡ success → t - upper ≤ c)
    → (after_first ch later t lower upper r).0 ≡ success
    → t ≤ ch.spendable_msat + c
Needs-after_first ch later c t lower upper (success, al) k hi h e = omega (arith, h refl)
Needs-after_first ch later c t lower upper (impossible, al) k hi h e = absurd (ground arith)
Needs-after_first ch later c t lower upper (need_space n, al) k hi h e =
    elim (Bool-cases (leb n (upper - lower))) [
      | inl le ↦
          let a : ℕ = upper - n in
          elim (Needs-after_adjust later c t (later (t - a) (push (pop al) ch a)) k (rw le at e)) [
            | inl ok ↦ omega (arith, k (t - a) (push (pop al) ch a) ok)
            | inr le ↦ omega arith
          ]
      | inr gt ↦ absurd (ground arith)
    ]

Needs-try_channel :
    (ch : Channel) (later : Later) (c : ℕ)
    → Needs c later
    → Needs (ch.spendable_msat + c) (try_channel ch later)
Needs-try_channel ch later c k t al e = elim (dec_lt 0 t) [
  | no z ↦ omega arith
  | yes pos ↦ elim (Bool-cases (is_unusable ch)) [
    | inl u ↦ omega (arith, k t al (rw (status_unusable ch later t al pos u) at e))
    | inr u ↦ elim (dec_lt t ch.min_htlc_out_msat) [
      | yes p ↦
          let ok =
            success-after_skip (ch.min_htlc_out_msat - t) (later t al)
              (rw (try_channel_skip ch later t al pos u p) at e) in
          omega (arith, k t al ok)
      | no p ↦
          let a : ℕ = min ch.spendable_msat t in
          Needs-after_first ch later c t ch.min_htlc_out_msat a (later (t - a) (push al ch a)) k
            (omega arith) (λ ok. k (t - a) (push al ch a) ok)
            (rw (try_channel_take ch later t al pos u (omega arith)) at e)
    ]
  ]
]

try_allocate-Needs : (chs : List Channel) → Needs (capacity chs) (try_allocate chs)
unfolding try_allocate
try_allocate-Needs [] t al e = ground arith
try_allocate-Needs (ch ∷ chs) t al e =
    Needs-try_channel ch (try_allocate chs) (capacity chs) (try_allocate-Needs chs) t al e

succeeded_none : (r : AllocResult × Allocations) → r.0 ≢ success → succeeded r ≡ none
succeeded_none (success, al) h = absurd (h refl)
succeeded_none (impossible, al) h = refl
succeeded_none (need_space n, al) h = refl

succeeded_found : (r : AllocResult × Allocations) → r.0 ≡ success → succeeded r ≢ none
succeeded_found (success, al) e = λ h. cc
succeeded_found (impossible, al) e = λ h. cc
succeeded_found (need_space n, al) e = λ h. cc

-- More than all channels together can spend is never allocated.
pub find_allocation_insufficient :
    (chs : List Channel) (t : ℕ) → capacity chs < t → find_allocation chs t ≡ none
unfolding find_allocation
find_allocation_insufficient chs t h =
    let lost =
      succeeded_none (try_allocate chs t [])
        (λ e. absurd (omega (arith, try_allocate-Needs chs t [] e))) in
    ground (arith, lost)

-- With no minimum on any channel, `try_allocate` reaches whatever the channels can spend together.
try_allocate_free :
    (chs : List Channel) (t : ℕ) (al : Allocations)
    → All (λ d. d.min_htlc_out_msat ≡ 0) chs
    → t ≤ capacity chs
    → (try_allocate chs t al).0 ≡ success
unfolding try_allocate try_channel
try_allocate_free [] t al h le = ground arith
try_allocate_free (ch ∷ chs) t al h le =
    let a : ℕ = min ch.spendable_msat t in
    ground (arith, try_allocate_free chs t al h.1, try_allocate_free chs (t - a) (push al ch a) h.1)

-- Where no channel has a minimum, an allocation is found for every positive target up to what the
-- channels can spend together, and for no other target.
pub find_allocation_complete :
    (chs : List Channel) (t : ℕ)
    → All (λ d. d.min_htlc_out_msat ≡ 0) chs
    → (find_allocation chs t ≢ none) ↔ ((0 < t) × (t ≤ capacity chs))
find_allocation_complete chs t h = (
  λ found. elim (dec_lt 0 t) [
    | no z ↦ absurd (found (unfold find_allocation in ground arith))
    | yes pos ↦ elim (dec_lt (capacity chs) t) [
      | yes p ↦ absurd (found (find_allocation_insufficient chs t p))
      | no p ↦ (pos, omega arith)
    ]
  ],
  λ (pos, le) lost.
      succeeded_found (try_allocate chs t []) (try_allocate_free chs t [] h le)
        (unfold find_allocation in ground arith),
)
