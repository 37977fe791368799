-- ===== src/Signer/Auth.antt =====
-- `GreenlightAuthorizer::authorize` of libs/gl-client/src/signer/auth.rs. `Invoice::from_str` is the
-- parameter `from_str`, and the error is without its text.
use greenlight.Prelude.{ℕ, ◌≡◌, refl, ap, Option, some, List, [], ◌∷◌, map, arith}
use greenlight.Prelude.Outcome.{Result, ok, ◌>>=◌, ok_or, >>=-eq-ok}
use greenlight.Signer.Model.{
  Request, gl_config_call, send_pay_call, sign_message_call, fund_channel_call, lsp_invoice_call,
  invoice_call, pay_call, pre_approve_invoice_call, trampoline_pay_call, plain,
}

-- The invoices of the payments, in their order.
abbrev pub pay_invoices : List Request → List (List ℕ)
pay_invoices [] = []
pay_invoices (r ∷ rs) = elim r [ pay_call bolt11 ↦ bolt11 ∷ pay_invoices rs | _ ↦ pay_invoices rs ]

module _ {I : Type 0} (from_str : List ℕ → Option I) where
  unfoldable pub authorize : List Request → Result (Unit {0}) (List I)
  authorize [] = ok []
  authorize (r ∷ rs) =
      let rest = authorize rs in
      elim r [
        | pay_call bolt11 ↦
            ok_or tt (from_str bolt11) >>= λ inv. rest >>= λ approvals. ok (inv ∷ approvals)
        | _ ↦ rest
      ]

  -- If requests are authorized, the approvals are the parsed invoices of the pending payments, one for
  -- each in their order, and no other call adds an approval.
  pub authorize_lem :
      (rs : List Request) (approvals : List I)
      → authorize rs ≡ ok approvals
      → map some approvals ≡ map from_str (pay_invoices rs)
  unfolding authorize
  authorize_lem [] approvals h = let none_left : approvals ≡ [] = ground arith in rw none_left refl
  authorize_lem (pay_call bolt11 ∷ rs) approvals h =
      let (inv, parsed, h) = >>=-eq-ok (ok_or tt (from_str bolt11)) _ h in
      let (others, rest, last) = >>=-eq-ok (authorize rs) _ h in
      let known : from_str bolt11 ≡ some inv = ground arith in
      let all : approvals ≡ inv ∷ others = ground arith in
      rw (all, known) (ap (λ l. some inv ∷ l) (authorize_lem rs others rest))
  authorize_lem (gl_config_call a ∷ rs) approvals h = authorize_lem rs approvals h
  authorize_lem (send_pay_call b ∷ rs) approvals h = authorize_lem rs approvals h
  authorize_lem (sign_message_call m ∷ rs) approvals h = authorize_lem rs approvals h
  authorize_lem (fund_channel_call id ∷ rs) approvals h = authorize_lem rs approvals h
  authorize_lem (lsp_invoice_call ∷ rs) approvals h = authorize_lem rs approvals h
  authorize_lem (invoice_call ∷ rs) approvals h = authorize_lem rs approvals h
  authorize_lem (pre_approve_invoice_call b ∷ rs) approvals h = authorize_lem rs approvals h
  authorize_lem (trampoline_pay_call b ∷ rs) approvals h = authorize_lem rs approvals h
  authorize_lem (plain method ∷ rs) approvals h = authorize_lem rs approvals h
