-- ===== src/Plugin/Messages.antt =====
-- Amounts and fee rates as text, as core-lightning and the plugin exchange them:
-- libs/gl-plugin/src/requests.rs, libs/gl-plugin/src/responses.rs and libs/gl-plugin/src/messages.rs.
pub mod Amounts
mod Tests
use greenlight.Prelude.{
  ℕ, zero, suc, ◌+◌, ◌-◌, ◌*◌, ◌%◌, ◌^◌, Bool, Option, none, some, List, [], ◌∷◌, ◌++◌, ◌==◌,
  if◌then◌else◌, bytes_eq, codes, ltb, length, take, drop, ℤ, pos, negsuc,
}
use greenlight.Prelude.Run.{Run, done, fail, panic, unwrap, ok_or, ensure, ◌>>=◌}
use greenlight.Prelude.Decimal.{is_digit, parse_u64, parse_i64, show_u64}

-- `Amount` and `Feerate` of requests.rs
pub data Amount : Type 0 where
  millisatoshi satoshi bitcoin : ℕ → Amount
  all any : Amount

pub data Feerate : Type 0 where
  normal slow urgent : Feerate
  per_kw per_kb : ℕ → Feerate

unfoldable pub serialize : Amount → List ℕ
serialize (millisatoshi a) = show_u64 a ++ codes "msat"
serialize (satoshi a) = show_u64 a ++ codes "sat"
serialize (bitcoin a) = show_u64 a ++ codes "btc"
serialize all = codes "all"
serialize any = codes "any"

unfoldable pub serialize_feerate : Feerate → List ℕ
serialize_feerate normal = codes "normal"
serialize_feerate slow = codes "slow"
serialize_feerate urgent = codes "urgent"
serialize_feerate (per_kb n) = show_u64 n ++ codes "perkb"
serialize_feerate (per_kw n) = show_u64 n ++ codes "perkw"

-- `partition(|c| c.is_digit(10))`
unfoldable pub partition : List ℕ → List ℕ × List ℕ
partition [] = ([], [])
partition (c ∷ cs) =
    let (nums, exts) = partition cs in if is_digit c then (c ∷ nums, exts) else (nums, c ∷ exts)

unfoldable pub multiplier : List ℕ → Run ℕ
multiplier ext =
    if bytes_eq ext (codes "msat")
    then done 1
    else if bytes_eq ext (codes "sat")
    then done 1000
    else if bytes_eq ext (codes "btc")
    then done 100000000000
    else fail

-- `visit_str` in `amt_from_str_or_int`; the product wraps around.
unfoldable pub amt_from_parts : List ℕ → List ℕ → Run ℕ
amt_from_parts nums exts = do
  mult ← multiplier exts
  num ← unwrap (parse_u64 nums)
  done ((num * mult) % 2 ^ 64)

unfoldable pub amt_from_str : List ℕ → Run ℕ
unfolding amt_from_parts
amt_from_str v = let (nums, exts) = partition v in amt_from_parts nums exts

-- A JSON number or a string.
pub data Scalar : Type 0 where
  number : ℕ → Scalar
  text : List ℕ → Scalar

unfoldable pub amt_from_str_or_int : Scalar → Run ℕ
amt_from_str_or_int (number v) = done v
amt_from_str_or_int (text v) = amt_from_str v

-- `s.ends_with("msat")` and the part in front of it.
unfoldable pub numpart : List ℕ → Run (List ℕ)
numpart s =
    let n = length s in
    if ltb n 4
    then fail
    else if bytes_eq (drop (n - 4) s) (codes "msat")
    then done (take (n - 4) s)
    else fail

-- `MSatVisitor` of responses.rs, and `Display` of `MSat`.
unfoldable pub msat_from : Scalar → Run ℕ
unfolding numpart
msat_from (number v) = done v
msat_from (text s) = do n ← numpart s; ok_or (parse_u64 n)

unfoldable pub msat_fmt : ℕ → List ℕ
msat_fmt n = show_u64 n ++ codes "msat"

-- `Amount::from_string` of messages.rs, and `_amount_to_string`.
unfoldable pub from_string : List ℕ → Run ℤ
from_string s = do n ← numpart s; ok_or (parse_i64 n)

unfoldable pub amount_to_string : ℤ → List ℕ
amount_to_string (pos n) = show_u64 n ++ codes "msat"
amount_to_string (negsuc n) = b'-' ∷ (show_u64 (suc n) ++ codes "msat")
