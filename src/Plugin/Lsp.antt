-- ===== src/Plugin/Lsp.antt =====
-- `on_htlc_accepted` of libs/gl-plugin/src/lsp.rs: the payload of a payment that an LSP forwards over a
-- channel it opens for it is amended. serde_json and core-lightning's invoices are parameters.
pub mod Jit
mod Tests
use greenlight.Prelude.{
  ℕ, Option, none, some, List, [], ◌∷◌, ◌++◌, if◌then◌else◌, ltb, codes, length, take,
}
use greenlight.Prelude.Run.{Run, done, fail, panic, ◌>>=◌}
use greenlight.Tlv.Proto.{put_tu64}
use greenlight.Tlv.Stream.{TlvEntry, SerializedTlvStream, get, set_tu64, set_bytes, to_bytes}

pub record Onion : Type 0 where
  pub payload : SerializedTlvStream
  pub forward_msat : Option ℕ

pub record Htlc : Type 0 where
  pub amount_msat : ℕ
  pub payment_hash : List ℕ

pub record HtlcAcceptedRequest : Type 0 where
  pub onion : Onion
  pub htlc : Htlc

pub record HtlcAcceptedResponse : Type 0 where
  pub result : List ℕ
  pub payload : Option (List ℕ)

abbrev pub continue : HtlcAcceptedResponse
continue = record { result = codes "continue"; payload = none }

-- `unwrap_or_continue!`
abbrev pub unwrap_or_continue :
    {A : Type 0} → Option A → (A → Run HtlcAcceptedResponse) → Run HtlcAcceptedResponse
unwrap_or_continue none next = done continue
unwrap_or_continue (some a) next = next a

-- `value[0..32]`
unfoldable pub payment_secret : TlvEntry → Run (List ℕ)
payment_secret e = if ltb (length e.value) 32 then panic else done (take 32 e.value)

unfoldable pub first_invoice : List (Option ℕ) → Option (Option ℕ)
first_invoice [] = none
first_invoice (amount_msat ∷ invoices) = some amount_msat

unfoldable pub amend : SerializedTlvStream → TlvEntry → ℕ → Run HtlcAcceptedResponse
amend payload secret total_msat = do
  ps ← payment_secret secret
  amended ← set_bytes 8 (ps ++ put_tu64 total_msat) payload
  done (record { result = codes "continue"; payload = some (to_bytes amended) })

-- `listinvoices` gives the amounts of the invoices with a payment hash; it fails where the call does.
module _ (listinvoices : List ℕ → Run (List (Option ℕ))) where
  unfoldable pub with_secret :
      HtlcAcceptedRequest → SerializedTlvStream → TlvEntry → Run HtlcAcceptedResponse
  with_secret req payload secret = do
    invoices ← listinvoices req.htlc.payment_hash
    unwrap_or_continue (first_invoice invoices)
        λ invoice. unwrap_or_continue invoice λ total_msat. amend payload secret total_msat

  unfoldable pub jit : HtlcAcceptedRequest → Run HtlcAcceptedResponse
  unfolding first_invoice payment_secret
  jit req = do
    payload ← set_tu64 2 req.htlc.amount_msat req.onion.payload
    unwrap_or_continue (get 8 payload) λ secret. with_secret req payload secret

  unfoldable pub on_request : HtlcAcceptedRequest → Run HtlcAcceptedResponse
  on_request req = unwrap_or_continue req.onion.forward_msat λ onion_amt.
      (let amended = jit req in
        if ltb req.htlc.amount_msat onion_amt then amended else done continue)

  -- `decoded` is what serde_json makes of the value.
  unfoldable pub on_htlc_accepted : Option HtlcAcceptedRequest → Run HtlcAcceptedResponse
  on_htlc_accepted decoded = unwrap_or_continue decoded on_request
