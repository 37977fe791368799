-- ===== src/Plugin/Invoices/Capacity.antt =====
-- When an invoice is created without a new channel.
use greenlight.Prelude.{
  ℕ, ◌+◌, ◌*◌, ◌%◌, ◌^◌, ◌<◌, ◌≡◌, ◌∙◌, refl, Bool, true, false, ◌&&◌, Option, none, some, List, [],
  ◌∷◌, ltb, arith, if◌then◌else◌,
}
use greenlight.Plugin.Invoices.{
  PeerChannel, Rpc, LspInvoiceCall, receivable_of, sum_receivable, get_receivable_capacity,
  saturating_mul, has_sufficient_capacity, regular_invoice, negotiate, lsp_invoice,
}

-- The share of a channel: of one that is connected and in normal operation, what the peer can send.
abbrev pub share : Bool → Bool → Option ℕ → ℕ
share true true (some a) = a
share connected normal receivable = 0

-- What can be received over the channels, as a number without a bound.
unfoldable pub capacity : List PeerChannel → ℕ
capacity [] = 0
capacity (c ∷ channels) = share c.peer_connected c.is_normal c.receivable_msat + capacity channels

receivable_of_lem :
    (c : PeerChannel) → receivable_of c ≡ share c.peer_connected c.is_normal c.receivable_msat
unfolding receivable_of
receivable_of_lem c = by_cases c.peer_connected c.is_normal c.receivable_msat
  where
    by_cases :
        (connected normal : Bool) (receivable : Option ℕ)
        → (if connected && normal then elim receivable [ none ↦ 0 | some a ↦ a ] else 0)
          ≡ share connected normal receivable
    by_cases true true (some a) = refl
    by_cases true true none = refl
    by_cases true false receivable = refl
    by_cases false normal receivable = refl

sum_receivable_lem :
    (total : ℕ) (channels : List PeerChannel)
    → total + capacity channels < 2 ^ 64
    → sum_receivable total channels ≡ total + capacity channels
unfolding sum_receivable capacity
sum_receivable_lem total [] h = omega arith
sum_receivable_lem total (c ∷ channels) h =
    let e : (total + receivable_of c) % 2 ^ 64
        ≡ total + share c.peer_connected c.is_normal c.receivable_msat =
      rw (receivable_of_lem c) (omega arith) in
    rw e (
      sum_receivable_lem (total + share c.peer_connected c.is_normal c.receivable_msat) channels
        (omega arith)
      ∙ omega arith)

get_receivable_capacity_lem :
    (rpc : Rpc) (channels : List PeerChannel)
    → rpc.listpeerchannels ≡ some channels
    → capacity channels < 2 ^ 64
    → get_receivable_capacity rpc ≡ some (capacity channels)
unfolding get_receivable_capacity
get_receivable_capacity_lem rpc channels h small =
    let zero_based : sum_receivable 0 channels ≡ capacity channels =
      sum_receivable_lem 0 channels (omega arith) ∙ omega arith in
    rw (h, zero_based) refl

has_sufficient_capacity_lem :
    (rpc : Rpc) (channels : List PeerChannel) (amount : ℕ)
    → rpc.listpeerchannels ≡ some channels
    → capacity channels < 2 ^ 64
    → amount * 105 < 2 ^ 64
    → has_sufficient_capacity rpc amount ≡ ltb (105 * amount) (100 * (capacity channels + 1))
unfolding has_sufficient_capacity saturating_mul
has_sufficient_capacity_lem rpc channels amount h small fits =
    ground (arith, get_receivable_capacity_lem rpc channels h small)

-- An invoice about an amount is created without a new channel if 105 percent of the amount, rounded down,
-- can be received over the connected channels in normal operation, and else an LSP is asked. Neither
-- the capacity nor 105 times the amount exceeds 64 bits.
pub lsp_invoice-capacity :
    (rpc : Rpc) (channels : List PeerChannel) (req : LspInvoiceCall)
    → rpc.listpeerchannels ≡ some channels
    → capacity channels < 2 ^ 64
    → req.amount_msat * 105 < 2 ^ 64
    → 0 < req.amount_msat
    → lsp_invoice rpc req ≡ (
        if ltb (105 * req.amount_msat) (100 * (capacity channels + 1))
        then regular_invoice rpc req
        else negotiate rpc req)
unfolding lsp_invoice
lsp_invoice-capacity rpc channels req h small fits positive =
    ground (arith, has_sufficient_capacity_lem rpc channels req.amount_msat h small fits)
