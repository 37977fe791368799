-- ===== src/Lnurl/Pay/Checked.antt =====
-- What an invoice has passed that is paid.
use greenlight.Prelude.{
  ℕ, ◌≡◌, ◌≤◌, refl, Bool, true, false, Option, none, some, List, arith, bytes_eq, bytes_eq→eq, leb,
  codes,
}
use greenlight.Prelude.Run.{done, >>=-eq-done, done_injective, ensure, ok_or}
use greenlight.Lnurl.Pay.{
  PayRequestResponse, Invoice, Web, ensure_amount_is_within_range, validate_pay_request_response,
  amount_or_default, ensure_amount, description_hash, validate_invoice_from_callback_response,
  identifier_url, resolve_lnurl_to_invoice,
}

ensure-done : (b : Bool) (u : Unit {0}) → ensure b ≡ done u → b ≡ true
ensure-done true u h = refl
ensure-done false u h = cc

ok_or-done : {A : Type 0} (o : Option A) (a : A) → ok_or o ≡ done a → o ≡ some a
ok_or-done none a h = cc
ok_or-done (some b) a h = cc

leb→le : (a b : ℕ) → leb a b ≡ true → a ≤ b
leb→le a b h = ground (arith, h)

validate_pay_request_response_lem :
    (web : Web) (identifier : List ℕ) (resp : PayRequestResponse) (amount : ℕ) (u : Unit {0})
    → validate_pay_request_response web identifier resp amount ≡ done u
    → (resp.tag ≡ codes "payRequest") × (resp.min_sendable ≤ amount) × (amount ≤ resp.max_sendable)
unfolding validate_pay_request_response ensure_amount_is_within_range
validate_pay_request_response_lem web identifier resp amount u h =
    let (t, tagged, h1) = >>=-eq-done (ensure (bytes_eq resp.tag (codes "payRequest"))) _ h in
    let (r, ranged, h2) = >>=-eq-done (ensure_amount_is_within_range web resp amount) _ h1 in
    let (e, enough, last) = >>=-eq-done (ensure (leb resp.min_sendable amount)) _ ranged in
    (
      bytes_eq→eq resp.tag _ (ensure-done _ t tagged),
      leb→le _ _ (ensure-done _ e enough),
      leb→le _ _ (ensure-done _ r last),
    )

ensure_amount-done :
    (o : Option ℕ) (amount : ℕ) (u : Unit {0})
    → ensure_amount o amount ≡ done u
    → amount_or_default o ≡ amount
ensure_amount-done none amount u h = ground (arith, h)
ensure_amount-done (some a) amount u h = ground (arith, h)

-- An identifier that is resolved to an invoice: the server's answer is a pay request that allows the
-- amount, and the invoice asks for exactly the amount, none counting as 0, and commits to the metadata of
-- the answer.
pub resolve_lnurl_to_invoice_lem :
    (web : Web) (identifier : List ℕ) (amount : ℕ) (text : List ℕ)
    → resolve_lnurl_to_invoice web identifier amount ≡ done text
    → (url : List ℕ) × ((resp : PayRequestResponse) × ((pr : List ℕ) × ((invoice : Invoice)
            × (identifier_url web identifier ≡ done url)
            × (web.get_pay_request_response url ≡ some resp)
            × (resp.tag ≡ codes "payRequest")
            × (resp.min_sendable ≤ amount)
            × (amount ≤ resp.max_sendable)
            × (web.parse_invoice pr ≡ some invoice)
            × (amount_or_default invoice.amount_milli_satoshis ≡ amount)
            × (description_hash web invoice ≡ web.digest resp.metadata)
            × (text ≡ invoice.text))))
unfolding resolve_lnurl_to_invoice validate_invoice_from_callback_response
resolve_lnurl_to_invoice_lem web identifier amount text h =
    let (url, located, h1) = >>=-eq-done (identifier_url web identifier) _ h in
    let (resp, got, h2) = >>=-eq-done (ok_or (web.get_pay_request_response url)) _ h1 in
    let (u, valid, h3) =
      >>=-eq-done (validate_pay_request_response web identifier resp amount) _ h2 in
    let (callback_url, built, h4) =
      >>=-eq-done (ok_or (web.with_amount resp.callback amount)) _ h3 in
    let (pr, answered, h5) =
      >>=-eq-done (ok_or (web.get_pay_request_callback_response callback_url)) _ h4 in
    let (invoice, parsed, h6) = >>=-eq-done (ok_or (web.parse_invoice pr)) _ h5 in
    let (w, checked, h7) =
      >>=-eq-done (validate_invoice_from_callback_response web invoice amount resp.metadata) _ h6 in
    let (x, same, hashed) =
      >>=-eq-done (ensure_amount invoice.amount_milli_satoshis amount) _ checked in
    let (tagged, enough, within) =
      validate_pay_request_response_lem web identifier resp amount u valid in
    (
      url,
      (
        resp,
        (
          pr,
          (
            invoice,
            located,
            ok_or-done _ resp got,
            tagged,
            enough,
            within,
            ok_or-done _ invoice parsed,
            ensure_amount-done _ amount x same,
            bytes_eq→eq _ _ (ensure-done _ w hashed),
            done_injective invoice.text text h7,
          ),
        ),
      ),
    )
