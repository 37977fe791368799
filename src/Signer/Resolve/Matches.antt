-- ===== src/Signer/Resolve/Matches.antt =====
-- Which messages the resolver lets pass.
use greenlight.Prelude.{
  Any, ℕ, ◌≡◌, ◌↔◌, inl, inr, true, List, [], ◌∷◌, bytes_eq_refl, bytes_eq→eq, arith, Bool-cases,
}
use greenlight.Prelude.Outcome.{ok}
use greenlight.Signer.Model.{
  Request, gl_config_call, send_pay_call, sign_message_call, fund_channel_call, lsp_invoice_call,
  invoice_call, pay_call, pre_approve_invoice_call, trampoline_pay_call, plain,
}
use greenlight.Signer.Resolve.{
  Message, sign_message, preapprove_invoice, needs_no_context, accepts, match_context, try_resolve,
}

-- The calls that justify that an invoice is paid.
abbrev pub Pays : List ℕ → Request → Type 0
Pays invstring r = elim r [
  | pay_call bolt11 ↦ invstring ≡ bolt11
  | pre_approve_invoice_call bolt11 ↦ invstring ≡ bolt11
  | trampoline_pay_call bolt11 ↦ invstring ≡ bolt11
  | _ ↦ ⊥
]

-- The call that justifies that a message is signed.
abbrev pub Signs : List ℕ → Request → Type 0
Signs message r = elim r [ sign_message_call m ↦ message ≡ m | _ ↦ ⊥ ]

accepts-Pays :
    (invstring : List ℕ) (r : Request)
    → accepts (preapprove_invoice invstring) r ≡ true
    → Pays invstring r
unfolding accepts
accepts-Pays i (gl_config_call a) h = cc
accepts-Pays i (send_pay_call b) h = cc
accepts-Pays i (sign_message_call k) h = cc
accepts-Pays i (fund_channel_call id) h = cc
accepts-Pays i lsp_invoice_call h = cc
accepts-Pays i invoice_call h = cc
accepts-Pays i (pay_call b) h = bytes_eq→eq i b h
accepts-Pays i (pre_approve_invoice_call b) h = bytes_eq→eq i b h
accepts-Pays i (trampoline_pay_call b) h = bytes_eq→eq i b h
accepts-Pays i (plain method) h = cc

Pays-accepts :
    (invstring : List ℕ) (r : Request)
    → Pays invstring r
    → accepts (preapprove_invoice invstring) r ≡ true
unfolding accepts
Pays-accepts i (gl_config_call a) h = absurd h
Pays-accepts i (send_pay_call b) h = absurd h
Pays-accepts i (sign_message_call k) h = absurd h
Pays-accepts i (fund_channel_call id) h = absurd h
Pays-accepts i lsp_invoice_call h = absurd h
Pays-accepts i invoice_call h = absurd h
Pays-accepts i (pay_call b) h = rw h (bytes_eq_refl b)
Pays-accepts i (pre_approve_invoice_call b) h = rw h (bytes_eq_refl b)
Pays-accepts i (trampoline_pay_call b) h = rw h (bytes_eq_refl b)
Pays-accepts i (plain method) h = absurd h

accepts-Signs :
    (message : List ℕ) (r : Request) → accepts (sign_message message) r ≡ true → Signs message r
unfolding accepts
accepts-Signs m (gl_config_call a) h = cc
accepts-Signs m (send_pay_call b) h = cc
accepts-Signs m (sign_message_call k) h = bytes_eq→eq m k h
accepts-Signs m (fund_channel_call id) h = cc
accepts-Signs m lsp_invoice_call h = cc
accepts-Signs m invoice_call h = cc
accepts-Signs m (pay_call b) h = cc
accepts-Signs m (pre_approve_invoice_call b) h = cc
accepts-Signs m (trampoline_pay_call b) h = cc
accepts-Signs m (plain method) h = cc

Signs-accepts :
    (message : List ℕ) (r : Request) → Signs message r → accepts (sign_message message) r ≡ true
unfolding accepts
Signs-accepts m (gl_config_call a) h = absurd h
Signs-accepts m (send_pay_call b) h = absurd h
Signs-accepts m (sign_message_call k) h = rw h (bytes_eq_refl k)
Signs-accepts m (fund_channel_call id) h = absurd h
Signs-accepts m lsp_invoice_call h = absurd h
Signs-accepts m invoice_call h = absurd h
Signs-accepts m (pay_call b) h = absurd h
Signs-accepts m (pre_approve_invoice_call b) h = absurd h
Signs-accepts m (trampoline_pay_call b) h = absurd h
Signs-accepts m (plain method) h = absurd h

module _ (req : Message) (P : Request → Type 0)
    (accepts-P : (r : Request) → accepts req r ≡ true → P r)
    (P-accepts : (r : Request) → P r → accepts req r ≡ true) (ctx : List Request) where
  match_context-Any : (rs : List Request) → match_context req ctx rs ≡ ok tt → Any P rs
  unfolding match_context
  match_context-Any [] h = cc
  match_context-Any (r ∷ rs) h = elim (Bool-cases (accepts req r)) [
    | inl e ↦ inl (accepts-P r e)
    | inr e ↦ inr (match_context-Any rs (ground (arith, e)))
  ]

  Any-match_context : (rs : List Request) → Any P rs → match_context req ctx rs ≡ ok tt
  unfolding match_context
  Any-match_context [] h = absurd h
  Any-match_context (r ∷ rs) (inl p) = ground (arith, P-accepts r p)
  Any-match_context (r ∷ rs) (inr p) = ground (arith, Any-match_context rs p)

-- The resolver lets a request to preapprove an invoice pass exactly if a pending call, a payment, a
-- preapproval or a trampoline payment, names this invoice.
pub try_resolve-Pays :
    (invstring : List ℕ) (ctx : List Request)
    → (try_resolve (preapprove_invoice invstring) ctx ≡ ok tt) ↔ Any (Pays invstring) ctx
unfolding try_resolve needs_no_context
try_resolve-Pays i ctx = (
  match_context-Any (preapprove_invoice i) (Pays i) (accepts-Pays i) (Pays-accepts i) ctx ctx,
  Any-match_context (preapprove_invoice i) (Pays i) (accepts-Pays i) (Pays-accepts i) ctx ctx,
)

-- A message is signed exactly if a pending call asks for the signature of this message.
pub try_resolve-Signs :
    (message : List ℕ) (ctx : List Request)
    → (try_resolve (sign_message message) ctx ≡ ok tt) ↔ Any (Signs message) ctx
unfolding try_resolve needs_no_context
try_resolve-Signs m ctx = (
  match_context-Any (sign_message m) (Signs m) (accepts-Signs m) (Signs-accepts m) ctx ctx,
  Any-match_context (sign_message m) (Signs m) (accepts-Signs m) (Signs-accepts m) ctx ctx,
)
