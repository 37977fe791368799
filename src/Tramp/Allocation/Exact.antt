-- ===== src/Tramp/Allocation/Exact.antt =====
-- On channels in ascending order of what they can spend, `find_allocation` is sound.
use greenlight.Prelude.{
  ℕ, ◌-◌, ◌≤◌, ◌<◌, ◌≡◌, ◌⊎◌, inl, inr, refl, some, List, [], ◌∷◌, min, arith, true, false,
  Bool-cases, All, sym, ◌==◌, if◌then◌else◌,
}
use native.Mathlib.Decide.{dec_lt}
use greenlight.Tramp.Allocation.{
  Channel, AllocResult, success, impossible, need_space, Allocations, push, try_channel,
  try_allocate, is_unusable, find_allocation, succeeded,
}
use greenlight.Tramp.Allocation.Round.{
  try_allocate_zero, status_unusable, try_channel_skip, try_channel_take,
}
use mathlib.Core.List.{append-nil}
use mathlib.Core.Path.{subst}
use greenlight.Tramp.Order.Sorted.{Ascending, All-le}
use greenlight.Tramp.Allocation.Retry.{try_allocate-IsExact, exact_met}
use greenlight.Tramp.Allocation.Picks.{
  Picks, none, total, Delivers, deliver_unusable, deliver_skip, deliver_first,
}

-- Where every channel could take the whole target, a failure has left the vector as it was.
ample_keeps :
    (chs : List Channel) (t : ℕ) (al : Allocations)
    → 0 < t
    → All (λ d. t ≤ d.spendable_msat) chs
    → ((try_allocate chs t al).0 ≡ success) ⊎ ((try_allocate chs t al).1 ≡ al)
unfolding try_allocate try_channel
ample_keeps [] t al pos h = ground arith
ample_keeps (ch ∷ chs) t al pos h = ground (
  arith,
  ample_keeps chs t al pos h.1,
  try_allocate_zero chs (push al ch (min ch.spendable_msat t)),
)

module _ (ch : Channel) (chs : List Channel) (t : ℕ) (al : Allocations) (pos : 0 < t)
    (u : is_unusable ch ≡ false) where
  deliver_skipped :
      t < ch.min_htlc_out_msat
      → All (λ d. ch.spendable_msat ≤ d.spendable_msat) chs
      → Delivers chs t al (try_allocate chs t al)
      → Delivers (ch ∷ chs) t al (try_channel ch (try_allocate chs) t al)
  deliver_skipped lt h d = rw (try_channel_skip ch (try_allocate chs) t al pos u lt) (
      deliver_skip ch chs t al (ch.min_htlc_out_msat - t) (try_allocate chs t al) d
        (ample_keeps chs t al pos (All-le t ch.spendable_msat chs (ground arith) h)))

  deliver_taken :
      ch.min_htlc_out_msat ≤ t
      → ((t' : ℕ) (al' : Allocations) → Delivers chs t' al' (try_allocate chs t' al'))
      → Delivers (ch ∷ chs) t al (try_channel ch (try_allocate chs) t al)
  deliver_taken le d =
      let a : ℕ = min ch.spendable_msat t in
      let retry : (n : ℕ)
          → (try_allocate chs (t - a) (push al ch a)).0 ≡ need_space n
          → n ≤ a - ch.min_htlc_out_msat
          → (al' : Allocations) → (try_allocate chs (t - (a - n)) al').0 ≡ success =
        λ n asked fits al'.
          exact_met (try_allocate chs) (try_allocate-IsExact chs) (t - a) n (push al ch a) asked
            (t - (a - n)) al' (omega arith) in
      rw (try_channel_take ch (try_allocate chs) t al pos u le) (
        deliver_first ch chs t al (try_allocate chs) ch.min_htlc_out_msat a refl (ground arith)
          (omega arith) (omega arith) d (try_allocate chs (t - a) (push al ch a))
          (d (t - a) (push al ch a)) retry)

deliver_channel :
    (ch : Channel) (chs : List Channel) (t : ℕ) (al : Allocations)
    → 0 < t
    → All (λ d. ch.spendable_msat ≤ d.spendable_msat) chs
    → ((t' : ℕ) (al' : Allocations) → Delivers chs t' al' (try_allocate chs t' al'))
    → Delivers (ch ∷ chs) t al (try_channel ch (try_allocate chs) t al)
deliver_channel ch chs t al pos asc d = elim (Bool-cases (is_unusable ch)) [
  | inl u ↦
      rw (status_unusable ch (try_allocate chs) t al pos u)
        (deliver_unusable ch chs t al (try_allocate chs t al) (d t al))
  | inr u ↦ elim (dec_lt t ch.min_htlc_out_msat) [
    | yes p ↦ deliver_skipped ch chs t al pos u p asc (d t al)
    | no p ↦ deliver_taken ch chs t al pos u (omega arith) d
  ]
]

deliver_zero : (chs : List Channel) (al : Allocations) → Delivers chs 0 al (try_allocate chs 0 al)
deliver_zero chs al = rw (try_allocate_zero chs al) ([], sym (append-nil al), none, refl)

try_allocate-Delivers :
    (chs : List Channel) (t : ℕ) (al : Allocations)
    → Ascending chs
    → Delivers chs t al (try_allocate chs t al)
unfolding try_allocate
try_allocate-Delivers [] t al asc = delivers_end (Bool-cases (t == 0))
  where
    delivers_end :
        ((t == 0) ≡ true) ⊎ ((t == 0) ≡ false)
        → Delivers [] t al (if t == 0 then (success, al) else (impossible, al))
    delivers_end (inl z) = rw z ([], sym (append-nil al), none, ground arith)
    delivers_end (inr n) = rw n tt
try_allocate-Delivers (ch ∷ chs) t al asc =
    let behind = λ (t' : ℕ) (al' : Allocations). try_allocate-Delivers chs t' al' asc.1 in
    elim (dec_lt 0 t) [
      | yes pos ↦ deliver_channel ch chs t al pos asc.0 behind
      | no z ↦
          subst (λ q. Delivers (ch ∷ chs) q al (try_allocate (ch ∷ chs) q al)) (omega arith)
            (deliver_zero (ch ∷ chs) al)
    ]

succeeded-Delivers :
    (chs : List Channel) (t : ℕ) (r : AllocResult × Allocations) (al : Allocations)
    → Delivers chs t [] r
    → succeeded r ≡ some al
    → Picks chs al × (total al ≡ t)
succeeded-Delivers chs t (success, al') al (new, e, p, s) h =
    let same : al ≡ new = cc (h, e) in rw same (p, s)
succeeded-Delivers chs t (impossible, al') al d h = cc
succeeded-Delivers chs t (need_space n, al') al d h = cc

-- On channels in ascending order of what they can spend, an allocation that `find_allocation` finds
-- adds up to exactly the target, and picks from the channels: in their order, at most once from
-- each, and between the minimum and what the channel can spend.
pub find_allocation-picks :
    (chs : List Channel) (t : ℕ) (al : Allocations)
    → Ascending chs
    → find_allocation chs t ≡ some al
    → Picks chs al × (total al ≡ t)
unfolding find_allocation
find_allocation-picks chs t al asc h =
    succeeded-Delivers chs t (try_allocate chs t []) al (try_allocate-Delivers chs t [] asc)
      (ground arith)
