-- ===== src/Tramp/Payment/Plans.antt =====
-- What a plan of `trampolinepay` is made of.
use greenlight.Prelude.{
  ℕ, ◌+◌, ◌^◌, ◌<◌, ◌≤◌, ◌≡◌, ◌≢◌, inl, inr, some, none, Option, List, [], ◌∷◌, arith, All,
  Option-cases,
}
use greenlight.Prelude.Outcome.{ok, map_err, >>=-eq-ok}
use greenlight.Tramp.Allocation.{Channel, Allocations, find_allocation}
use greenlight.Tramp.Allocation.Bounds.{InBounds, find_allocation-InBounds}
use greenlight.Tramp.Order.{
  sort_by, by_ascending, by_descending, find_allocation_ascending_order,
  find_allocation_descending_order,
}
use greenlight.Tramp.Payment.{
  Node, TrampolinePayRequest, Decoded, Sendpay, Plan, choose_allocation, choose_amount,
  max_group_id, plan_payment, with_overpay, as_option, non_empty, peer_error, rpc_try,
  first_features, feature_guard, feature_bit, some_channels, usable_channels,
  reestablished_channels,
}

-- Every earlier group has an id up to the largest one.
max_group_id_bounds :
    (ps : List Sendpay) (m : ℕ) → max_group_id ps ≤ m → All (λ e. e.groupid ≤ m) ps
unfolding max_group_id
max_group_id_bounds [] m h = tt
max_group_id_bounds (p ∷ ps) m h = (ground arith, max_group_id_bounds ps m (ground arith))

All-below :
    (ps : List Sendpay) (m : ℕ) → All (λ e. e.groupid ≤ m) ps → All (λ e. e.groupid < m + 1) ps
All-below [] m h = tt
All-below (p ∷ ps) m h = (omega (arith, h.0), All-below ps m h.1)

non_empty_lem :
    (o : Option Allocations) (al : Allocations) → non_empty o ≡ some al → (o ≡ some al) × (al ≢ [])
non_empty_lem none al h = cc
non_empty_lem (some []) al h = cc
non_empty_lem (some (a ∷ rest)) al h = (h, λ e. cc (h, e))

-- In whichever order it was found, a chosen allocation has a part, and each part lies between the
-- minimum of its channel and what that channel can spend.
pub choose_allocation-InBounds :
    (channels : List Channel) (amount : ℕ) (al : Allocations)
    → choose_allocation channels amount ≡ ok al
    → (al ≢ []) × All InBounds al
unfolding choose_allocation find_allocation_ascending_order find_allocation_descending_order
choose_allocation-InBounds channels amount al h =
    let up = sort_by by_ascending channels in
    let down = sort_by by_descending up in
    elim (Option-cases (non_empty (find_allocation up amount))) [
      | inr (al', e) ↦
          let same : al' ≡ al = ground (arith, e) in
          let (found, some_part) = non_empty_lem (find_allocation up amount) al (rw same at e) in
          (some_part, find_allocation-InBounds up amount al found)
      | inl e ↦ elim (Option-cases (non_empty (find_allocation down amount))) [
        | inr (al', e') ↦
            let same : al' ≡ al = ground (arith, e, e') in
            let (found, some_part) =
              non_empty_lem (find_allocation down amount) al (rw same at e') in
            (some_part, find_allocation-InBounds down amount al found)
        | inl e' ↦ absurd (ground (arith, e, e'))
      ]
    ]

plan_facts :
    (ps : List Sendpay) (p : Plan) (al : Allocations)
    → p.alloc ≡ al
    → p.group_id ≡ max_group_id ps + 1
    → al ≢ []
    → All InBounds al
    → (p.alloc ≢ []) × All InBounds p.alloc × All (λ e. e.groupid < p.group_id) ps
plan_facts ps p al parts group some_part bounds =
    let fresh =
      All-below ps (max_group_id ps) (max_group_id_bounds ps (max_group_id ps) (omega arith)) in
    rw (parts, group) (some_part, bounds, fresh)

-- A planned payment has a part, keeps each part within the bounds of its channel, and has a group id
-- above those of all earlier payments of the invoice, if these are below the last `u64`.
pub plan_payment_lem :
    (n : Node) (req : TrampolinePayRequest) (node_id : ℕ) (d : Decoded) (ps : List Sendpay)
    (p : Plan)
    → plan_payment n req node_id d ps ≡ ok p
    → max_group_id ps + 1 < 2 ^ 64
    → (p.alloc ≢ []) × All InBounds p.alloc × All (λ e. e.groupid < p.group_id) ps
unfolding plan_payment
plan_payment_lem n req node_id d ps p h below =
    let (_, _, h) = >>=-eq-ok (map_err peer_error (n.await_peer node_id)) _ h in
    let (peers, _, h) = >>=-eq-ok (rpc_try (n.listpeers node_id)) _ h in
    let (features, _, h) = >>=-eq-ok (first_features n peers) _ h in
    let (_, _, h) = >>=-eq-ok (feature_guard features feature_bit) _ h in
    let (tlv, _, h) = >>=-eq-ok (choose_amount (as_option req.amount_msat) d.amount_msat) _ h in
    let (listed, _, h) = >>=-eq-ok (rpc_try (n.listpeerchannels node_id)) _ h in
    let (channels, _, h) = >>=-eq-ok (some_channels (usable_channels listed)) _ h in
    let ready = reestablished_channels n node_id channels in
    let (al, chosen, h) = >>=-eq-ok (choose_allocation ready (with_overpay n req tlv)) _ h in
    let (_, _, h) = >>=-eq-ok (rpc_try (n.preapproveinvoice req.bolt11)) _ h in
    let (some_part, bounds) = choose_allocation-InBounds ready (with_overpay n req tlv) al chosen in
    plan_facts ps p al (ground arith) (ground arith) some_part bounds
