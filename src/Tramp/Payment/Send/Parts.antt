-- ===== src/Tramp/Payment/Send/Parts.antt =====
-- The parts of a payment that succeeds.
use greenlight.Prelude.{
  ℕ, ◌+◌, ◌≡◌, ◌∙◌, refl, ap, some, none, List, [], ◌∷◌, arith, Bool-cases, inl, inr,
}
use greenlight.Prelude.Outcome.{Result, ok, ◌>>=◌, >>=-eq-ok}
use greenlight.Tlv.Stream.{SerializedTlvStream, to_bytes}
use greenlight.Tramp.ErrorCode.{TrampolineErrorCode}
use greenlight.Tramp.Allocation.{ChannelContribution, Allocations}
use greenlight.Tramp.Allocation.Picks.{total}
use greenlight.Tramp.Payment.{Node, TrampolinePayRequest, Plan, PayResponse, WaitsendpayResponse}
use greenlight.Tramp.Payment.Send.{
  Sender, SendpayRequest, send_parts, spawn_parts, pay_part, part_request, first_part_id, join_part,
  last_preimage, pay_response,
}

-- One request for each part, with the ids counted up.
abbrev pub requests :
    (ℕ → ChannelContribution → SendpayRequest) → ℕ → Allocations → List SendpayRequest
requests f id [] = []
requests f id (ch ∷ al) = f id ch ∷ requests f (id + 1) al

-- The amounts that go out.
abbrev pub sent_msat : List SendpayRequest → ℕ
sent_msat [] = 0
sent_msat (r ∷ rs) = r.hop_amount_msat + sent_msat rs

module _ (n : Node) (s : Sender) (req : TrampolinePayRequest) (p : Plan) (payload : List ℕ) where
  -- If every connection is made, and the invoice has a payment secret, each part of the allocation is
  -- requested once: with its own amount, over its own channel, and under consecutive part ids.
  pub spawn_parts-requests :
      (secret : ℕ) (id : ℕ) (al : Allocations)
      (rs : List (Result TrampolineErrorCode WaitsendpayResponse))
      → p.decoded.payment_secret ≡ some secret
      → (spawn_parts n s req p payload id al).0 ≡ ok rs
      → (spawn_parts n s req p payload id al).1
        ≡ requests (λ i ch. part_request n s req p payload i ch secret) id al
  unfolding spawn_parts pay_part
  spawn_parts-requests secret id [] rs known h = refl
  spawn_parts-requests secret id (ch ∷ al) rs known h = elim (Bool-cases (s.connect_part id)) [
    | inr off ↦ absurd (ground (arith, off))
    | inl on ↦
        let (l, rest, last) =
          >>=-eq-ok (spawn_parts n s req p payload (id + 1) al).0
            (λ l. ok (join_part n s req p payload id (pay_part n s req p payload id ch).0 ∷ l))
            {b = rs} (ground (arith, on)) in
        let tail = spawn_parts-requests secret (id + 1) al l known rest in
        ground (arith, on, tail, known)
  ]

  sent_msat-requests :
      (secret id : ℕ) (al : Allocations)
      → sent_msat (requests (λ i ch. part_request n s req p payload i ch secret) id al) ≡ total al
  unfolding part_request
  sent_msat-requests secret id [] = refl
  sent_msat-requests secret id (ch ∷ al) = omega (arith, sent_msat-requests secret (id + 1) al)

-- If a payment with a payment secret succeeds, what its requests send adds up to the allocation.
pub sent_msat-send_parts :
    (n : Node) (s : Sender) (req : TrampolinePayRequest) (p : Plan) (payload : SerializedTlvStream)
    (secret : ℕ) (r : PayResponse)
    → p.decoded.payment_secret ≡ some secret
    → (send_parts n s req p payload).0 ≡ ok r
    → sent_msat (send_parts n s req p payload).1 ≡ total p.alloc
unfolding send_parts
sent_msat-send_parts n s req p payload secret r known h =
    let spawned = spawn_parts n s req p (to_bytes payload) (first_part_id p.alloc) p.alloc in
    let (rs, every, _) =
      >>=-eq-ok spawned.0 (λ rs. last_preimage none rs >>= λ preimage. pay_response p preimage)
        {b = r} h in
    ap sent_msat (
      spawn_parts-requests n s req p (to_bytes payload) secret (first_part_id p.alloc) p.alloc rs
        known every)
    ∙ sent_msat-requests n s req p (to_bytes payload) secret (first_part_id p.alloc) p.alloc
