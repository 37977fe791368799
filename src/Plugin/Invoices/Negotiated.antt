-- ===== src/Plugin/Invoices/Negotiated.antt =====
-- With whom the channel of an invoice is negotiated, and for what.
use greenlight.Prelude.{
  ℕ, ◌≡◌, true, false, Option, none, some, List, [], ◌∷◌, ◌++◌, ap, All, arith, Bool-cases, inl,
  inr, sym,
}
use greenlight.Prelude.Run.{done, ok_or, >>=-eq-done, done_injective}
use greenlight.Plugin.Invoices.{
  Rpc, LspInvoiceCall, InvoiceResponse, LspInvoiceResponse, offering, get_lsps_offers, first_offer,
  from_call, from_response, negotiated_call, negotiate,
}

-- The LSP is a peer whose offer came in, and no peer in front of it has that.
pub record IsFirstOffer (rpc : Rpc) (peers : List (List ℕ)) (lsp : List ℕ) : Type 0 where
  pub before : List (List ℕ)
  pub after : List (List ℕ)
  pub split : peers ≡ before ++ lsp ∷ after
  pub silent : All (λ p. rpc.lsp_getinfo p ≡ false) before
  pub offers : rpc.lsp_getinfo lsp ≡ true

first_offer-cons :
    (rpc : Rpc) (p lsp : List ℕ) (peers : List (List ℕ))
    → rpc.lsp_getinfo p ≡ false
    → IsFirstOffer rpc peers lsp
    → IsFirstOffer rpc (p ∷ peers) lsp
first_offer-cons rpc p lsp peers h first = record {
  before = p ∷ first.before;
  after = first.after;
  split = ap (λ l. p ∷ l) first.split;
  silent = (h, first.silent);
  offers = first.offers;
}

first_offer-offering :
    (rpc : Rpc) (peers : List (List ℕ)) (lsp : List ℕ)
    → first_offer (offering rpc peers) ≡ done lsp
    → IsFirstOffer rpc peers lsp
unfolding offering
first_offer-offering rpc [] lsp h = cc
first_offer-offering rpc (p ∷ peers) lsp h = elim (Bool-cases (rpc.lsp_getinfo p)) [
  | inl offered ↦
      let same : p ≡ lsp = ground (arith, offered, h) in
      record {
        before = [];
        after = peers;
        split = ap (λ q. q ∷ peers) same;
        silent = tt;
        offers = cc (same, offered);
      }
  | inr missing ↦
      first_offer-cons rpc p lsp peers missing
        (first_offer-offering rpc peers lsp (ground (arith, missing, h)))
]

from_response-bolt11 :
    (rpc : Rpc) (o : InvoiceResponse) (r : LspInvoiceResponse)
    → from_response rpc o ≡ done r
    → (r.bolt11 ≡ o.bolt11)
      × (rpc.from_hex o.payment_hash ≡ some r.payment_hash)
      × (rpc.from_hex o.payment_secret ≡ some r.payment_secret)
unfolding from_response
from_response-bolt11 rpc o r h = ground arith

-- What a negotiated invoice stands on: the LSP, and the LSP plugin's answer to the request for it.
pub record Negotiated (rpc : Rpc) (req : LspInvoiceCall) (r : LspInvoiceResponse) : Type 0 where
  pub peers : List (List ℕ)
  pub version : List ℕ
  pub lsp : List ℕ
  pub res : InvoiceResponse
  pub listed : rpc.listpeers ≡ some peers
  pub versioned : rpc.version ≡ some version
  pub first : IsFirstOffer rpc peers lsp
  pub answered : negotiated_call rpc version (from_call lsp req) ≡ some res
  pub bolt11 : r.bolt11 ≡ res.bolt11
  pub payment_hash : rpc.from_hex res.payment_hash ≡ some r.payment_hash
  pub payment_secret : rpc.from_hex res.payment_secret ≡ some r.payment_secret

ok_or-eq-done : {A : Type 0} (o : Option A) (a : A) → ok_or o ≡ done a → o ≡ some a
ok_or-eq-done none a h = cc
ok_or-eq-done (some b) a h = ap some (done_injective a b (sym h))

-- A negotiated invoice is the LSP plugin's answer to the caller's request, sent to the first of the peers
-- whose offer came in.
pub negotiate_lem :
    (rpc : Rpc) (req : LspInvoiceCall) (r : LspInvoiceResponse)
    → negotiate rpc req ≡ done r
    → Negotiated rpc req r
unfolding negotiate get_lsps_offers
negotiate_lem rpc req r h =
    let (version, versioned, h1) = >>=-eq-done (ok_or rpc.version) _ h in
    let (lsps, offered, h2) = >>=-eq-done (get_lsps_offers rpc) _ h1 in
    let (lsp, first, h3) = >>=-eq-done (first_offer lsps) _ h2 in
    let (res, answered, h4) =
      >>=-eq-done (ok_or (negotiated_call rpc version (from_call lsp req))) _ h3 in
    let (peers, listed, h5) =
      >>=-eq-done (ok_or rpc.listpeers) (λ p. done (offering rpc p)) offered in
    let same : first_offer (offering rpc peers) ≡ done lsp = cc (h5, first) in
    let (bolt11, hash, secret) = from_response-bolt11 rpc res r h4 in
    record {
      peers = peers;
      version = version;
      lsp = lsp;
      res = res;
      listed = ok_or-eq-done _ _ listed;
      versioned = ok_or-eq-done _ _ versioned;
      first = first_offer-offering rpc peers lsp same;
      answered = ok_or-eq-done _ _ answered;
      bolt11 = bolt11;
      payment_hash = hash;
      payment_secret = secret;
    }
