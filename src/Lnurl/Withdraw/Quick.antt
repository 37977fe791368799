-- ===== src/Lnurl/Withdraw/Quick.antt =====
-- What a withdrawal asks for, and what becomes of the invoice.
use greenlight.Prelude.{ℕ, ◌≡◌, sym, ap, Option, none, some, List, []}
use greenlight.Prelude.Run.{done, ok_or, done_injective, >>=-eq-done}
use greenlight.Lnurl.Withdraw.{
  Web, WithdrawRequestResponse, Withdrawn, parse_withdraw_request_response_from_url, or_web,
  get_withdraw_request_response, build_withdraw_request_callback_url, withdraw,
}

ok_or-eq : {A : Type 0} (o : Option A) (a : A) → ok_or o ≡ done a → o ≡ some a
ok_or-eq none a h = cc h
ok_or-eq (some b) a h = ap some (sym (done_injective b a h))

-- A withdrawal that succeeds has got the response that the parameters of the LNURL's URL give or else the
-- web, an invoice of the node for the amount whatever the response's limits are, and a URL for it
-- that it did not call.
pub withdraw_lem :
    (web : Web) (node_invoice : ℕ → List ℕ → Option (List ℕ)) (lnurl : List ℕ) (amount : ℕ)
    (w : Withdrawn)
    → withdraw web node_invoice lnurl amount ≡ done w
    → (url bolt11 callback_url : List ℕ) × (response : WithdrawRequestResponse) × (quick : Option
        WithdrawRequestResponse)
      × (web.parse_lnurl lnurl ≡ some url)
      × (parse_withdraw_request_response_from_url web url ≡ done quick)
      × (or_web web url quick ≡ done response)
      × (node_invoice amount response.default_description ≡ some bolt11)
      × (build_withdraw_request_callback_url web response bolt11 ≡ done callback_url)
      × (w ≡ record {
        amount_msat = amount;
        description = response.default_description;
        called = [];
      })
unfolding withdraw get_withdraw_request_response
withdraw_lem web node_invoice lnurl amount w h =
    let (response, got, h1) = >>=-eq-done (get_withdraw_request_response web lnurl) _ h in
    let (url, parsed, h2) = >>=-eq-done (ok_or (web.parse_lnurl lnurl)) _ got in
    let (quick, tried, h3) = >>=-eq-done (parse_withdraw_request_response_from_url web url) _ h2 in
    let (bolt11, asked, h4) =
      >>=-eq-done (ok_or (node_invoice amount response.default_description)) _ h1 in
    let (callback_url, built, h5) =
      >>=-eq-done (build_withdraw_request_callback_url web response bolt11) _ h4 in
    (
      url,
      bolt11,
      callback_url,
      response,
      quick,
      ok_or-eq _ url parsed,
      tried,
      h3,
      ok_or-eq _ bolt11 asked,
      built,
      done_injective _ w h5,
    )
