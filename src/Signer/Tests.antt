-- ===== src/Signer/Tests.antt =====
-- The resolver and the authorizer on a few pending calls.
use greenlight.Prelude.{Any, ℕ, ◌≡◌, ◌↔◌, refl, Option, some, List, [], ◌∷◌, codes}
use greenlight.Prelude.Outcome.{ok}
use greenlight.Signer.Resolve.{preapprove_invoice, try_resolve}
use greenlight.Signer.Model.{Request, pay_call, trampoline_pay_call, lsp_invoice_call}
use greenlight.Signer.Resolve.Matches.{Pays, try_resolve-Pays}
use greenlight.Signer.Auth.{authorize}

abbrev calls : List Request
calls = lsp_invoice_call ∷ trampoline_pay_call (codes "lnbc2") ∷ pay_call (codes "lnbc1") ∷ []

try_resolve-Pays_example :
    (try_resolve (preapprove_invoice (codes "lnbc1")) calls ≡ ok tt)
    ↔ Any (Pays (codes "lnbc1")) calls
try_resolve-Pays_example = try_resolve-Pays (codes "lnbc1") calls

-- An invoice is kept as it stands.
abbrev parse : List ℕ → Option (List ℕ)
parse text = some text

authorize_run : authorize parse calls ≡ ok (codes "lnbc1" ∷ [])
unfolding authorize
authorize_run = refl
