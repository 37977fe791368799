-- ===== src/Tramp/Payment/Send/Payload.antt =====
-- The onion payload of a payment.
use greenlight.Prelude.{ℕ, ◌≡◌, refl, some, List, arith}
use greenlight.Prelude.Run.{done}
use greenlight.Tlv.Stream.{SerializedTlvStream, get, set_tu64, new}
use greenlight.Tlv.Proto.{put_tu64}
use greenlight.Tlv.Stream.Entries.{get-set_bytes}
use greenlight.Tramp.Payment.Send.{build_payload}

-- The payload is built without a panic, and holds the invoice under type 33001 and the
-- amount under 33003.
pub get-build_payload :
    (bolt11 : List ℕ) (amount : ℕ)
    → (s : SerializedTlvStream) × (build_payload bolt11 amount ≡ done s)
      × (get 33001 s ≡ some (record { typ = 33001; value = bolt11 }))
      × (get 33003 s ≡ some (record { typ = 33003; value = put_tu64 amount }))
unfolding build_payload set_tu64
get-build_payload bolt11 amount =
    let (s1, e1, l1) = get-set_bytes 33001 bolt11 new in
    let (s2, e2, l2) = get-set_bytes 33003 (put_tu64 amount) s1 in
    (s2, rw (e1, e2) refl, ground (arith, l2 33001, l1 33001), l2 33003)
