-- ===== src/Plugin/Lsp/Jit.antt =====
-- What core-lightning is told about a payment that comes in over a new channel.
use greenlight.Prelude.{
  ℕ, ◌<◌, ◌≤◌, ◌≡◌, ◌∙◌, refl, false, true, Option, some, List, ◌∷◌, ◌++◌, take, length, codes, ltb,
  lt→ltb, arith, ◌==◌, if◌then◌else◌,
}
use greenlight.Prelude.Run.{Run, done}
use greenlight.Tlv.Proto.{put_tu64}
use greenlight.Tlv.Stream.{TlvEntry, SerializedTlvStream, get, set_tu64, to_bytes}
use greenlight.Tlv.Stream.Entries.{get-set_bytes}
use greenlight.Plugin.Lsp.{
  HtlcAcceptedRequest, payment_secret, first_invoice, amend, with_secret, jit, on_request,
  on_htlc_accepted,
}

payment_secret_long :
    (e : TlvEntry) → 32 ≤ length e.value → payment_secret e ≡ done (take 32 e.value)
unfolding payment_secret
payment_secret_long e h = let long : ltb (length e.value) 32 ≡ false = ground arith in rw long refl

-- The first 32 bytes of the secret stay, and the amount of the whole payment stands behind them.
amend_lem :
    (payload : SerializedTlvStream) (secret : TlvEntry) (total : ℕ)
    → 32 ≤ length secret.value
    → (s : SerializedTlvStream) × (amend payload secret total
        ≡ done (record { result = codes "continue"; payload = some (to_bytes s) }))
      × ((t : ℕ)
          → get t s ≡ (
              if 8 == t
              then some (record { typ = 8; value = take 32 secret.value ++ put_tu64 total })
              else get t payload))
unfolding amend
amend_lem payload secret total long =
    let (s, set, lookups) = get-set_bytes 8 (take 32 secret.value ++ put_tu64 total) payload in
    (s, rw (payment_secret_long secret long, set) refl, lookups)

-- A payment with less than its onion forwards goes on with a payload in which the amount to forward is
-- what the payment has, the payment data is the secret and the amount of the invoice, and all else is
-- as it was. The payload has a secret of 32 bytes or more, and there is an invoice with an amount.
pub on_htlc_accepted_lem :
    (listinvoices : List ℕ → Run (List (Option ℕ))) (req : HtlcAcceptedRequest) (secret : TlvEntry)
    (onion_amt total : ℕ) (later : List (Option ℕ))
    → req.onion.forward_msat ≡ some onion_amt
    → req.htlc.amount_msat < onion_amt
    → get 8 req.onion.payload ≡ some secret
    → 32 ≤ length secret.value
    → listinvoices req.htlc.payment_hash ≡ done (some total ∷ later)
    → (s : SerializedTlvStream) × (on_htlc_accepted listinvoices (some req)
        ≡ done (record { result = codes "continue"; payload = some (to_bytes s) }))
      × ((t : ℕ)
          → get t s ≡ (
              if 8 == t
              then some (record { typ = 8; value = take 32 secret.value ++ put_tu64 total })
              else if 2 == t
              then some (record { typ = 2; value = put_tu64 req.htlc.amount_msat })
              else get t req.onion.payload))
unfolding on_htlc_accepted on_request jit with_secret first_invoice set_tu64
on_htlc_accepted_lem listinvoices req secret onion_amt total later forwarded less found long
      invoices =
    let (p, set, lookups) = get-set_bytes 2 (put_tu64 req.htlc.amount_msat) req.onion.payload in
    let (s, amended, after) = amend_lem p secret total long in
    let still : get 8 p ≡ some secret = lookups 8 ∙ found in
    let smaller : ltb req.htlc.amount_msat onion_amt ≡ true = lt→ltb _ _ less in
    (
      s,
      rw (forwarded, smaller, set, still, invoices) amended,
      λ t. ground (arith, after t, lookups t),
    )
