-- ===== src/Plugin/Lsp/Tests.antt =====
-- A payment over a new channel.
use greenlight.Prelude.{
  ℕ, ◌≡◌, refl, Option, some, List, [], ◌∷◌, ◌++◌, take, codes, arith, ◌==◌, if◌then◌else◌,
}
use greenlight.Prelude.Run.{Run, done, panic}
use greenlight.Tlv.Proto.{put_tu64, be_bytes, skip_zeros}
use greenlight.Tlv.Stream.{
  TlvEntry, SerializedTlvStream, get, find_entry, to_bytes, set_bytes, set_tu64, set_value, insert,
  sort_entries, insert_sorted,
}
use greenlight.Plugin.Lsp.{
  HtlcAcceptedRequest, first_invoice, payment_secret, with_secret, amend, jit, on_request,
  on_htlc_accepted,
}
use greenlight.Plugin.Lsp.Jit.{on_htlc_accepted_lem}

abbrev secret : TlvEntry
secret = record { typ = 8; value = codes "0123456789abcdef0123456789abcdef" ++ 7 ∷ 208 ∷ [] }

abbrev incoming : HtlcAcceptedRequest
incoming = record {
  onion = record {
    payload = record { entries = record { typ = 2; value = 7 ∷ 208 ∷ [] } ∷ secret ∷ [] };
    forward_msat = some 2000;
  };
  htlc = record { amount_msat = 1500; payment_hash = codes "h" };
}

abbrev listinvoices : List ℕ → Run (List (Option ℕ))
listinvoices hash = done (some 2000 ∷ [])

on_htlc_accepted_lem_example :
    (s : SerializedTlvStream) × (on_htlc_accepted listinvoices (some incoming)
      ≡ done (record { result = codes "continue"; payload = some (to_bytes s) }))
    × ((t : ℕ)
        → get t s ≡ (
            if 8 == t
            then some (record { typ = 8; value = take 32 secret.value ++ put_tu64 2000 })
            else if 2 == t
            then some (record { typ = 2; value = put_tu64 1500 })
            else get t incoming.onion.payload))
unfolding get find_entry
on_htlc_accepted_lem_example =
    on_htlc_accepted_lem listinvoices incoming secret 2000 2000 [] refl (omega arith) refl
      (omega arith) refl

-- A secret that is too short ends the hook with a panic.
abbrev short : HtlcAcceptedRequest
short = record incoming {
  onion = record {
    payload = record { entries = record { typ = 8; value = 1 ∷ [] } ∷ [] };
    forward_msat = some 2000;
  };
}

short_secret : on_htlc_accepted listinvoices (some short) ≡ panic
unfolding on_htlc_accepted on_request jit with_secret amend set_tu64 set_bytes put_tu64 be_bytes
    skip_zeros set_value insert get find_entry sort_entries insert_sorted first_invoice
    payment_secret
short_secret = refl
