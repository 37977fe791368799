-- ===== src/Tramp/Allocation/Retry.antt =====
-- `NeedSpace(s)` is an exact demand: with `s` more the same channels succeed. So the third attempt
-- of `try_allocate` is never made.
use greenlight.Prelude.{
  refl, ℕ, ◌+◌, ◌-◌, ◌≤◌, ◌<◌, ◌≡◌, ◌∙◌, ◌⊎◌, inl, inr, ap, List, [], ◌∷◌, arith, true, false,
  Bool-cases,
}
use native.Mathlib.Decide.{dec_lt}
use greenlight.Tramp.Allocation.Round.{
  try_allocate_zero, AllocResult-cases, up, first, status_unusable, status_skip, status_first,
  status_impossible, status_need, status_adjust,
}
use greenlight.Tramp.Allocation.{
  Channel, success, need_space, Allocations, Later, push, try_channel, try_allocate, is_unusable,
}

-- The answer at a target `q`, when `t` asked for `s` more.
abbrev pub Answers : Later → ℕ → ℕ → ℕ → Allocations → Type 0
Answers f t s q al = ((f q al).0 ≡ success) ⊎ ((q < t + s) × ((f q al).0 ≡ need_space (t + s - q)))

abbrev pub IsExact : Later → Type 0
IsExact f =
    (t s : ℕ) (al : Allocations)
    → (f t al).0 ≡ need_space s
    → (0 < t) × (0 < s) × ((q : ℕ) (al' : Allocations) → t ≤ q → q ≤ t + s → Answers f t s q al')

-- With all that was asked for, the answer is success.
pub exact_met :
    (f : Later)
    → IsExact f
    → (t s : ℕ) (al : Allocations) → (f t al).0 ≡ need_space s
    → (q : ℕ) (al' : Allocations) → q ≡ t + s
    → (f q al').0 ≡ success
exact_met f exact t s al e q al' eq =
    let (_, _, answers) = exact t s al e in
    elim (answers q al' (omega arith) (omega arith)) [
      | inl ok ↦ ok
      | inr (below, more) ↦ absurd (omega arith)
    ]

module _ (ch : Channel) (later : Later) (zeros : (al : Allocations) → later 0 al ≡ (success, al))
    (exact : IsExact later) where
  exact_unusable :
      (t s : ℕ) (al : Allocations)
      → 0 < t
      → is_unusable ch ≡ true
      → (try_channel ch later t al).0 ≡ need_space s
      → (q : ℕ) (al' : Allocations) → t ≤ q
      → q ≤ t + s
      → Answers (try_channel ch later) t s q al'
  exact_unusable t s al pos u e q al' le ge =
      let (pt, ps, f) = exact t s al (rw (status_unusable ch later t al pos u) at e) in
      rw (status_unusable ch later q al' (omega arith) u) (f q al' le ge)

  -- Exactly the minimum of a usable channel is taken from it.
  first_lower :
      (al : Allocations)
      → 0 < ch.min_htlc_out_msat
      → is_unusable ch ≡ false
      → (try_channel ch later ch.min_htlc_out_msat al).0 ≡ success
  first_lower al pos u =
      status_first ch later ch.min_htlc_out_msat al pos u (omega arith)
        (ground (arith, zeros (push al ch (up ch later ch.min_htlc_out_msat))))

  exact_skip :
      (t s : ℕ) (al : Allocations)
      → 0 < t
      → is_unusable ch ≡ false
      → t < ch.min_htlc_out_msat
      → (try_channel ch later t al).0 ≡ need_space s
      → (0 < s)
        × ((q : ℕ) (al' : Allocations)
            → t ≤ q
            → q ≤ t + s
            → Answers (try_channel ch later) t s q al')
  exact_skip t s al pos u lt e =
      let known = status_skip ch later t al pos u lt in
      (
        ground arith,
        λ q al' le ge. elim (dec_lt q ch.min_htlc_out_msat) [
          | yes p ↦ ground (arith, status_skip ch later q al' (omega arith) u p)
          | no p ↦ ground (arith, first_lower al' (omega arith) u)
        ],
      )

  -- The current channel was used up, and the channels behind ask for `n` more.
  module _ (t n : ℕ) (al : Allocations) (pos : 0 < t) (u : is_unusable ch ≡ false)
      (enough : ch.min_htlc_out_msat ≤ t) (asked : first ch later t al ≡ need_space n) where
    used_up : (up ch later t ≡ ch.spendable_msat) × (ch.spendable_msat < t)
    used_up =
        let (rest, _, _) = exact (t - up ch later t) n (push al ch (up ch later t)) asked in
        omega arith

    -- A demand that this channel can meet is met.
    adjusted_succeeds :
        n ≤ up ch later t - ch.min_htlc_out_msat → (try_channel ch later t al).0 ≡ success
    adjusted_succeeds le = status_adjust ch later t al pos u enough n asked le (λ al'.
        exact_met later exact (t - up ch later t) n (push al ch (up ch later t)) asked
          (t - (up ch later t - n)) al' (omega arith))

    exact_pass :
        up ch later t - ch.min_htlc_out_msat < n
        → (q : ℕ) (al' : Allocations) → t ≤ q
        → q ≤ t + (n - (up ch later t - ch.min_htlc_out_msat))
        → Answers (try_channel ch later) t (n - (up ch later t - ch.min_htlc_out_msat)) q al'
    exact_pass lt q al' le ge =
        let (_, _, f) = exact (t - up ch later t) n (push al ch (up ch later t)) asked in
        let used = used_up in
        elim (f (q - up ch later q) (push al' ch (up ch later q)) (omega arith) (omega arith)) [
          | inl ok ↦ inl (status_first ch later q al' (omega arith) u (omega arith) ok)
          | inr (below, more) ↦
              let n' : ℕ = t - up ch later t + n - (q - up ch later q) in
              elim (dec_lt (up ch later q - ch.min_htlc_out_msat) n') [
                | yes p ↦ inr (
                  omega arith,
                  status_need ch later q al' (omega arith) u (omega arith) n' more p
                      ∙ ap need_space (omega arith),
                )
                | no p ↦ inl (
                    status_adjust ch later q al' (omega arith) u (omega arith) n' more (omega arith)
                      (λ al''.
                        exact_met later exact (t - up ch later t) n (push al ch (up ch later t))
                          asked (q - (up ch later q - n')) al'' (omega arith)))
              ]
        ]

  target_positive :
      (t s : ℕ) (al : Allocations) → (try_channel ch later t al).0 ≡ need_space s → 0 < t
  unfolding try_channel
  target_positive t s al e = ground arith

  exact_allocate :
      (t s : ℕ) (al : Allocations)
      → 0 < t
      → is_unusable ch ≡ false
      → ch.min_htlc_out_msat ≤ t
      → (try_channel ch later t al).0 ≡ need_space s
      → (0 < s)
        × ((q : ℕ) (al' : Allocations)
            → t ≤ q
            → q ≤ t + s
            → Answers (try_channel ch later) t s q al')
  exact_allocate t s al pos u enough e = elim (AllocResult-cases (first ch later t al)) [
    | inl ok ↦ absurd (ground (arith, status_first ch later t al pos u enough ok))
    | inr (inl no_way) ↦
        absurd (ground (arith, status_impossible ch later t al pos u enough no_way))
    | inr (inr (n, asked)) ↦ elim (dec_lt (up ch later t - ch.min_htlc_out_msat) n) [
      | yes p ↦
          let same : s ≡ n - (up ch later t - ch.min_htlc_out_msat) =
            ground (arith, status_need ch later t al pos u enough n asked p) in
          rw same (omega arith, exact_pass t n al pos u enough asked p)
      | no p ↦ absurd (ground (arith, adjusted_succeeds t n al pos u enough asked (omega arith)))
    ]
  ]

  try_channel-IsExact : IsExact (try_channel ch later)
  try_channel-IsExact t s al e =
      let pos = target_positive t s al e in
      elim (Bool-cases (is_unusable ch)) [
        | inl u ↦
            let (_, ps, _) = exact t s al (rw (status_unusable ch later t al pos u) at e) in
            (pos, ps, exact_unusable t s al pos u e)
        | inr u ↦ elim (dec_lt t ch.min_htlc_out_msat) [
          | yes p ↦ let (ps, f) = exact_skip t s al pos u p e in (pos, ps, f)
          | no p ↦ let (ps, f) = exact_allocate t s al pos u (omega arith) e in (pos, ps, f)
        ]
      ]

pub try_allocate-IsExact : (chs : List Channel) → IsExact (try_allocate chs)
unfolding try_allocate
try_allocate-IsExact [] t s al e = absurd (ground arith)
try_allocate-IsExact (ch ∷ chs) t s al e =
    try_channel-IsExact ch (try_allocate chs) (try_allocate_zero chs) (try_allocate-IsExact chs) t s
      al e

-- If `try_allocate` answers `NeedSpace(s)`, then with up to `s` more, and whatever was allocated
-- before, it succeeds or asks for exactly the rest; with all of `s` it succeeds.
pub try_allocate-Answers :
    (chs : List Channel) (t s q : ℕ) (al al' : Allocations)
    → (try_allocate chs t al).0 ≡ need_space s
    → t ≤ q
    → q ≤ t + s
    → Answers (try_allocate chs) t s q al' × ((try_allocate chs (t + s) al').0 ≡ success)
try_allocate-Answers chs t s q al al' e le ge =
    let exact = try_allocate-IsExact chs in
    ((exact t s al e).2 q al' le ge, exact_met (try_allocate chs) exact t s al e (t + s) al' refl)
