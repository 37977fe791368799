-- ===== src/Lnurl/Pay.antt =====
-- `resolve_lnurl_to_invoice` and its checks, libs/gl-client/src/lnurl/pay/mod.rs. HTTP, bech32, URLs,
-- JSON, the parser of invoices and SHA-256 are the record `Web`; log lines are left out.
pub mod Checked
mod Tests
use greenlight.Prelude.{
  ℕ, ◌+◌, Bool, true, false, not, Option, none, some, List, [], ◌∷◌, ◌++◌, ◌==◌, ◌||◌,
  if◌then◌else◌, bytes_eq, starts_with, codes, leb,
}
use greenlight.Prelude.Run.{Run, done, fail, panic, ◌>>=◌, ensure, ok_or}
use greenlight.Signer.Rune.{split}
use greenlight.Signer.Check.{is_empty}

pub record PayRequestResponse : Type 0 where
  pub callback : List ℕ
  pub max_sendable : ℕ
  pub min_sendable : ℕ
  pub tag : List ℕ
  pub metadata : List ℕ

-- `Bolt11Invoice`: its amount, and the text or the hash of its description.
pub record Invoice : Type 0 where
  pub amount_milli_satoshis : Option ℕ
  pub direct : Bool
  pub description : List ℕ
  pub text : List ℕ

-- `trimmed` is `trim().to_uppercase()`, `parse_lnurl` gives the URL of an LNURL, and `with_amount` adds
-- the amount to a URL.
pub record Web : Type 0 where
  pub trimmed : List ℕ → List ℕ
  pub parse_lnurl : List ℕ → Option (List ℕ)
  pub get_pay_request_response : List ℕ → Option PayRequestResponse
  pub with_amount : List ℕ → ℕ → Option (List ℕ)
  pub get_pay_request_callback_response : List ℕ → Option (List ℕ)
  pub parse_invoice : List ℕ → Option Invoice
  pub parse_metadata : List ℕ → Option (List (List (List ℕ)))
  pub digest : List ℕ → List ℕ

module _ (web : Web) where
  unfoldable pub is_lnurl : List ℕ → Bool
  is_lnurl identifier = starts_with (web.trimmed identifier) (codes "LNURL")

  unfoldable pub ensure_amount_is_within_range : PayRequestResponse → ℕ → Run (Unit {0})
  ensure_amount_is_within_range resp amount = do
    enough ← ensure (leb resp.min_sendable amount)
    ensure (leb amount resp.max_sendable)

-- `entry[0]` and `entry[1]`
abbrev pub at_0 : List (List ℕ) → Run (List ℕ)
at_0 [] = panic
at_0 (t ∷ entry) = done t

abbrev pub at_1 : List (List ℕ) → Run (List ℕ)
at_1 [] = panic
at_1 (t ∷ []) = panic
at_1 (t ∷ v ∷ entry) = done v

-- The last plain text.
unfoldable pub last_description : List ℕ → List (List (List ℕ)) → Run (List ℕ)
last_description description [] = done description
last_description description (entry ∷ entries) = do
  typ ← at_0 entry
  next ← (if bytes_eq typ (codes "text/plain") then at_1 entry else done description)
  last_description next entries

unfoldable pub extract_description : Web → PayRequestResponse → Run (List ℕ)
extract_description web resp = do
  entries ← ok_or (web.parse_metadata resp.metadata)
  last_description [] entries

-- The first entry of one of the two types.
unfoldable pub find_identifier : List (List (List ℕ)) → Run (List ℕ)
find_identifier [] = done []
find_identifier (entry ∷ entries) = do
  typ ← at_0 entry
  (let rest = find_identifier entries in
      if bytes_eq typ (codes "text/email") || bytes_eq typ (codes "text/identifier")
      then at_1 entry
      else rest)

unfoldable pub check_identifier : Web → List ℕ → PayRequestResponse → Run (Unit {0})
check_identifier web identifier resp = do
  entries ← ok_or (web.parse_metadata resp.metadata)
  found ← find_identifier entries
  some_found ← ensure (not (is_empty found))
  ensure (bytes_eq found identifier)

unfoldable pub validate_pay_request_response :
    Web → List ℕ → PayRequestResponse → ℕ → Run (Unit {0})
validate_pay_request_response web identifier resp amount = do
  tagged ← ensure (bytes_eq resp.tag (codes "payRequest"))
  ranged ← ensure_amount_is_within_range web resp amount
  description ← extract_description web resp
  if is_lnurl web identifier then done tt else check_identifier web identifier resp

abbrev pub amount_or_default : Option ℕ → ℕ
amount_or_default none = 0
amount_or_default (some a) = a

-- An amount that differs is an error, whose text unwraps the amount.
abbrev pub ensure_amount : Option ℕ → ℕ → Run (Unit {0})
ensure_amount none amount = if 0 == amount then done tt else panic
ensure_amount (some a) amount = if a == amount then done tt else fail

unfoldable pub description_hash : Web → Invoice → List ℕ
description_hash web invoice =
    if invoice.direct then web.digest invoice.description else invoice.description

unfoldable pub validate_invoice_from_callback_response : Web → Invoice → ℕ → List ℕ → Run (Unit {0})
validate_invoice_from_callback_response web invoice amount metadata = do
  same ← ensure_amount invoice.amount_milli_satoshis amount
  ensure (bytes_eq (description_hash web invoice) (web.digest metadata))

-- The two parts of an address.
unfoldable pub address_url : List (List ℕ) → Run (List ℕ)
address_url (username ∷ domain ∷ []) = do
  named ← ensure (not (is_empty username))
  hosted ← ensure (not (is_empty domain))
  done (codes "https://" ++ (domain ++ (codes "/.well-known/lnurlp/" ++ username)))
address_url [] = fail
address_url (a ∷ []) = fail
address_url (a ∷ b ∷ c ∷ parts) = fail

unfoldable pub parse_lightning_address : List ℕ → Run (List ℕ)
parse_lightning_address address = address_url (split b'@' [] address)

unfoldable pub identifier_url : Web → List ℕ → Run (List ℕ)
identifier_url web identifier =
    if is_lnurl web identifier
    then ok_or (web.parse_lnurl identifier)
    else parse_lightning_address identifier

unfoldable pub resolve_lnurl_to_invoice : Web → List ℕ → ℕ → Run (List ℕ)
resolve_lnurl_to_invoice web identifier amount = do
  url ← identifier_url web identifier
  resp ← ok_or (web.get_pay_request_response url)
  valid ← validate_pay_request_response web identifier resp amount
  callback_url ← ok_or (web.with_amount resp.callback amount)
  pr ← ok_or (web.get_pay_request_callback_response callback_url)
  invoice ← ok_or (web.parse_invoice pr)
  checked ← validate_invoice_from_callback_response web invoice amount resp.metadata
  done invoice.text

-- The methods of `LNURL` in libs/gl-client/src/lnurl/mod.rs; `node_pay` is the node's answer to `pay`.
unfoldable pub get_pay_request_response : Web → List ℕ → Run PayRequestResponse
get_pay_request_response web lnurl = do
  url ← ok_or (web.parse_lnurl lnurl)
  resp ← ok_or (web.get_pay_request_response url)
  tagged ← ensure (bytes_eq resp.tag (codes "payRequest"))
  done resp

unfoldable pub get_pay_request_callback_response : Web → List ℕ → ℕ → List ℕ → Run (List ℕ)
get_pay_request_callback_response web base_callback_url amount metadata = do
  url ← ok_or (web.with_amount base_callback_url amount)
  pr ← ok_or (web.get_pay_request_callback_response url)
  invoice ← ok_or (web.parse_invoice pr)
  checked ← validate_invoice_from_callback_response web invoice amount metadata
  done pr

unfoldable pub pay : {P : Type 0} → Web → (List ℕ → Option P) → List ℕ → ℕ → Run P
pay web node_pay identifier amount = do
  invoice ← resolve_lnurl_to_invoice web identifier amount
  ok_or (node_pay invoice)
