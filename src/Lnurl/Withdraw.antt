-- ===== src/Lnurl/Withdraw.antt =====
-- Withdrawals by LNURL: `get_withdraw_request_response` and `withdraw` of libs/gl-client/src/lnurl/mod.rs, and
-- libs/gl-client/src/lnurl/withdraw/mod.rs. HTTP, bech32 and URLs are parameters.
pub mod Quick
mod Tests
use greenlight.Prelude.{ℕ, Option, none, some, List, [], ◌∷◌, codes, bytes_eq, if◌then◌else◌}
use greenlight.Prelude.Run.{Run, done, fail, panic, unwrap, ok_or, ◌>>=◌}
use greenlight.Prelude.Decimal.{parse_u64}

pub record WithdrawRequestResponse : Type 0 where
  pub tag : List ℕ
  pub callback : List ℕ
  pub k1 : List ℕ
  pub default_description : List ℕ
  pub min_withdrawable : ℕ
  pub max_withdrawable : ℕ

-- `query_pairs` gives the parameters of a URL, and `with_pairs` appends some; `get_withdrawal_request_response`
-- is the answer over HTTP.
pub record Web : Type 0 where
  pub parse_lnurl : List ℕ → Option (List ℕ)
  pub query_pairs : List ℕ → Option (List (List ℕ × List ℕ))
  pub with_pairs : List ℕ → List (List ℕ × List ℕ) → Option (List ℕ)
  pub get_withdrawal_request_response : List ℕ → Option WithdrawRequestResponse

-- A value of the map that the parameters are collected in: the last one for a key.
unfoldable pub query_value : List ℕ → List (List ℕ × List ℕ) → Option (List ℕ)
query_value key [] = none
query_value key ((k, v) ∷ pairs) = elim (query_value key pairs) [
  | some later ↦ some later
  | none ↦ if bytes_eq k key then some v else none
]

infixl 5 ◌>>?◌
abbrev ◌>>?◌ : {A B : Type 0} → Option A → (A → Option B) → Option B
none >>? next = none
some a >>? next = next a

-- `convert_value_field_from_str_to_u64`: a parameter that is missing or no number is an error.
unfoldable pub convert_value_field_from_str_to_u64 : List ℕ → List (List ℕ × List ℕ) → Option ℕ
unfolding query_value
convert_value_field_from_str_to_u64 field_name pairs = query_value field_name pairs >>? parse_u64

-- `from_value` behind the conversion of the two amounts: all other fields have to be there.
unfoldable pub response_of : List (List ℕ × List ℕ) → Option WithdrawRequestResponse
unfolding convert_value_field_from_str_to_u64
response_of pairs = convert_value_field_from_str_to_u64 (codes "minWithdrawable") pairs >>? λ least.
    convert_value_field_from_str_to_u64 (codes "maxWithdrawable") pairs >>? λ most.
    query_value (codes "tag") pairs >>? λ tag. query_value (codes "callback") pairs >>? λ callback.
    query_value (codes "k1") pairs >>? λ k1.
    query_value (codes "defaultDescription") pairs >>? λ description. some (record {
      tag = tag;
      callback = callback;
      k1 = k1;
      default_description = description;
      min_withdrawable = least;
      max_withdrawable = most;
    })

-- A URL that cannot be parsed panics.
unfoldable pub parse_withdraw_request_response_from_url :
    Web → List ℕ → Run (Option WithdrawRequestResponse)
unfolding response_of
parse_withdraw_request_response_from_url web url = do
  pairs ← unwrap (web.query_pairs url)
  done (response_of pairs)

-- Without a quick withdrawal the response is got from the web.
abbrev pub or_web : Web → List ℕ → Option WithdrawRequestResponse → Run WithdrawRequestResponse
or_web web url (some w) = done w
or_web web url none = ok_or (web.get_withdrawal_request_response url)

unfoldable pub get_withdraw_request_response : Web → List ℕ → Run WithdrawRequestResponse
get_withdraw_request_response web lnurl = do
  url ← ok_or (web.parse_lnurl lnurl)
  quick ← parse_withdraw_request_response_from_url web url
  or_web web url quick

unfoldable pub build_withdraw_request_callback_url :
    Web → WithdrawRequestResponse → List ℕ → Run (List ℕ)
build_withdraw_request_callback_url web response invoice =
    ok_or
      (web.with_pairs response.callback ((codes "k1", response.k1) ∷ (codes "pr", invoice) ∷ []))

-- What a withdrawal does: the invoice that the node is asked for, and the URLs that are called.
pub record Withdrawn : Type 0 where
  pub amount_msat : ℕ
  pub description : List ℕ
  pub called : List (List ℕ)

-- `node_invoice` is the bolt11 that the node answers with. The future of the last call is dropped before
-- it is polled, so that its URL is not called.
unfoldable pub withdraw : Web → (ℕ → List ℕ → Option (List ℕ)) → List ℕ → ℕ → Run Withdrawn
withdraw web node_invoice lnurl amount_msats = do
  response ← get_withdraw_request_response web lnurl
  bolt11 ← ok_or (node_invoice amount_msats response.default_description)
  callback_url ← build_withdraw_request_callback_url web response bolt11
  done (record {
    amount_msat = amount_msats;
    description = response.default_description;
    called = [];
  })
