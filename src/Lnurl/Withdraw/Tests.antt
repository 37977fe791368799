-- ===== src/Lnurl/Withdraw/Tests.antt =====
-- A quick withdrawal whose response is in the URL.
use greenlight.Prelude.{ℕ, ◌≡◌, refl, none, some, List, [], ◌∷◌, codes, bytes_eq}
use greenlight.Prelude.Run.{done}
use greenlight.Prelude.Decimal.{parse_u64, is_digit, digits_from}
use greenlight.Lnurl.Withdraw.{
  Web, Withdrawn, response_of, query_value, convert_value_field_from_str_to_u64,
  parse_withdraw_request_response_from_url, get_withdraw_request_response,
  build_withdraw_request_callback_url, withdraw,
}

abbrev pairs : List (List ℕ × List ℕ)
pairs =
    (codes "tag", codes "withdrawRequest")
    ∷ (codes "k1", codes "K")
    ∷ (codes "callback", codes "c")
    ∷ (codes "defaultDescription", codes "d")
    ∷ (codes "minWithdrawable", codes "1")
    ∷ (codes "maxWithdrawable", codes "20")
    ∷ []

abbrev web : Web
web = record {
  parse_lnurl = some;
  query_pairs = λ url. some pairs;
  with_pairs = λ url more. some url;
  get_withdrawal_request_response = λ url. none;
}

abbrev withdrawn : Withdrawn
withdrawn = record { amount_msat = 21; description = codes "d"; called = [] }

-- More than may be withdrawn.
withdraw_run : withdraw web (λ amount d. some (codes "lnbc")) (codes "u") 21 ≡ done withdrawn
unfolding withdraw get_withdraw_request_response parse_withdraw_request_response_from_url
    response_of convert_value_field_from_str_to_u64 query_value build_withdraw_request_callback_url
    bytes_eq parse_u64 is_digit digits_from
withdraw_run = refl
