-- ===== src/Lnurl/Pay/Tests.antt =====
-- A lightning address whose server answers well.
use greenlight.Prelude.{
  ℕ, ◌≡◌, ◌≤◌, refl, false, none, some, List, [], ◌∷◌, ◌++◌, codes, bytes_eq, starts_with,
}
use greenlight.Prelude.Run.{done}
use greenlight.Signer.Rune.{split}
use greenlight.Lnurl.Pay.{
  PayRequestResponse, Invoice, Web, is_lnurl, ensure_amount_is_within_range, extract_description,
  last_description, find_identifier, check_identifier, validate_pay_request_response,
  amount_or_default, description_hash, validate_invoice_from_callback_response, address_url,
  parse_lightning_address, identifier_url, resolve_lnurl_to_invoice,
}
use greenlight.Lnurl.Pay.Checked.{resolve_lnurl_to_invoice_lem}

abbrev answer : PayRequestResponse
answer = record {
  callback = codes "https://b.c/cb";
  max_sendable = 9000;
  min_sendable = 1;
  tag = codes "payRequest";
  metadata = codes "m";
}

abbrev invoice : Invoice
invoice = record {
  amount_milli_satoshis = some 500;
  direct = false;
  description = codes "#m";
  text = codes "lnbc5";
}

abbrev web : Web
web = record {
  trimmed = λ t. t;
  parse_lnurl = λ t. none;
  get_pay_request_response = λ url. some answer;
  with_amount = λ url n. some url;
  get_pay_request_callback_response = λ url. some (codes "lnbc5");
  parse_invoice = λ pr. some invoice;
  parse_metadata = λ m. some (
      (codes "text/plain" ∷ codes "tea" ∷ [])
      ∷ (codes "text/identifier" ∷ codes "a@b.c" ∷ [])
      ∷ []);
  digest = λ m. codes "#" ++ m;
}

resolved_run : resolve_lnurl_to_invoice web (codes "a@b.c") 500 ≡ done (codes "lnbc5")
unfolding resolve_lnurl_to_invoice identifier_url is_lnurl parse_lightning_address address_url split
    validate_pay_request_response ensure_amount_is_within_range extract_description last_description
    check_identifier find_identifier validate_invoice_from_callback_response description_hash
    bytes_eq starts_with
resolved_run = refl

resolve_lnurl_to_invoice_lem_example :
    (url : List ℕ) × ((resp : PayRequestResponse) × ((pr : List ℕ) × ((i : Invoice)
          × (identifier_url web (codes "a@b.c") ≡ done url)
          × (web.get_pay_request_response url ≡ some resp)
          × (resp.tag ≡ codes "payRequest")
          × (resp.min_sendable ≤ 500)
          × (500 ≤ resp.max_sendable)
          × (web.parse_invoice pr ≡ some i)
          × (amount_or_default i.amount_milli_satoshis ≡ 500)
          × (description_hash web i ≡ web.digest resp.metadata)
          × (codes "lnbc5" ≡ i.text))))
resolve_lnurl_to_invoice_lem_example =
    resolve_lnurl_to_invoice_lem web (codes "a@b.c") 500 (codes "lnbc5") resolved_run
