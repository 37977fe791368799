-- ===== src/Plugin/Hooks/Streams.antt =====
-- Who hears of a payment and of a message.
use greenlight.Prelude.{ℕ, ◌≡◌, refl, ap, true, Option, some, List, [], ◌∷◌, ◌++◌, arith}
use greenlight.Prelude.Run.{done, >>=-eq-done}
use greenlight.Plugin.Hooks.{
  Event, stop, rpc_call, incoming_payment, custom_msg, OffChainPayment, InvoicePayment, Invoice,
  continue, payment_of, last_invoice, announce, on_call, on_invoice_payment, convert_tlvs,
  unwrap_or_empty, stream_incoming, stream_custommsg,
}

stream_incoming-append :
    (events : List Event) (p : OffChainPayment)
    → stream_incoming (events ++ incoming_payment p ∷ []) ≡ stream_incoming events ++ p ∷ []
unfolding stream_incoming
stream_incoming-append [] p = refl
stream_incoming-append (incoming_payment q ∷ events) p =
    ap (λ l. q ∷ l) (stream_incoming-append events p)
stream_incoming-append (stop ∷ events) p = stream_incoming-append events p
stream_incoming-append (rpc_call uri ∷ events) p = stream_incoming-append events p
stream_incoming-append (custom_msg m ∷ events) p = stream_incoming-append events p

stream_custommsg-append :
    (events : List Event) (p : OffChainPayment)
    → stream_custommsg (events ++ incoming_payment p ∷ []) ≡ stream_custommsg events
unfolding stream_custommsg
stream_custommsg-append [] p = refl
stream_custommsg-append (custom_msg m ∷ events) p =
    ap (λ l. m ∷ l) (stream_custommsg-append events p)
stream_custommsg-append (stop ∷ events) p = stream_custommsg-append events p
stream_custommsg-append (rpc_call uri ∷ events) p = stream_custommsg-append events p
stream_custommsg-append (incoming_payment q ∷ events) p = stream_custommsg-append events p

payment_of_lem :
    (from_hex : List ℕ → Option (List ℕ)) (call : InvoicePayment) (invoice : Invoice)
    (p : OffChainPayment)
    → payment_of from_hex call invoice ≡ done p
    → (p.label ≡ invoice.label)
      × (p.amount ≡ call.amount)
      × (from_hex call.preimage ≡ some p.preimage)
unfolding payment_of
payment_of_lem from_hex call invoice p h =
    let (tlvs, converted, h1) =
      >>=-eq-done (convert_tlvs from_hex (unwrap_or_empty call.extratlvs)) _ h in
    ground (arith, h1)

-- The listeners to payments hear of a payment for the last invoice with its label, once and behind what
-- they heard before, with the invoice's data and the payment's amount and preimage; the listeners to
-- messages hear nothing, and core-lightning goes on. The payment can be decoded and its fields are
-- in hex form.
pub stream_incoming-on_invoice_payment :
    (from_hex : List ℕ → Option (List ℕ)) (listinvoices : List ℕ → Option (List Invoice))
    (call : InvoicePayment) (invoices : List Invoice) (invoice : Invoice) (p : OffChainPayment)
    (events : List Event)
    → listinvoices call.label ≡ some invoices
    → last_invoice invoices ≡ some invoice
    → payment_of from_hex call invoice ≡ done p
    → (events' : List Event) × (on_invoice_payment from_hex true listinvoices (some call) events
        ≡ done (continue, events'))
      × (stream_incoming events' ≡ stream_incoming events ++ p ∷ [])
      × (stream_custommsg events' ≡ stream_custommsg events)
      × (p.label ≡ invoice.label)
      × (p.amount ≡ call.amount)
      × (from_hex call.preimage ≡ some p.preimage)
unfolding on_invoice_payment on_call announce
stream_incoming-on_invoice_payment from_hex listinvoices call invoices invoice p events listed last
      paid =
    let (label, amount, preimage) = payment_of_lem from_hex call invoice p paid in
    (
      events ++ incoming_payment p ∷ [],
      rw (listed, last, paid) refl,
      stream_incoming-append events p,
      stream_custommsg-append events p,
      label,
      amount,
      preimage,
    )
