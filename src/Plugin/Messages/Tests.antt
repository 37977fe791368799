-- ===== src/Plugin/Messages/Tests.antt =====
-- Amounts in their units.
use greenlight.Prelude.{◌≡◌, refl, bytes_eq, codes, negsuc, arith}
use greenlight.Prelude.Run.{done, panic, fail}
use greenlight.Prelude.Decimal.{is_digit, parse_u64, parse_i64, show_u64}
use greenlight.Plugin.Messages.{
  satoshi, per_kb, text, serialize, serialize_feerate, partition, multiplier, amt_from_parts,
  amt_from_str, amt_from_str_or_int, numpart, msat_from, from_string, amount_to_string,
}
use greenlight.Plugin.Messages.Amounts.{amt_from_str-serialize}

amt_from_str-serialize_example : amt_from_str_or_int (text (serialize (satoshi 21))) ≡ done 21000
amt_from_str-serialize_example = amt_from_str-serialize (satoshi 21) (omega arith)

-- Digits are read wherever they stand, and a unit with no number ends the reader with a panic.
scattered :
    (amt_from_str (codes "1m2sat") ≡ done 12)
    × (amt_from_str (codes "msat") ≡ panic)
    × (amt_from_str (codes "1000000000btc") ≡ done 7766279631452241920)
unfolding amt_from_str amt_from_parts partition multiplier is_digit parse_u64 bytes_eq
scattered = (refl, refl, refl)

-- The other reader takes neither, and a plus sign.
strict :
    (msat_from (text (codes "1m2sat")) ≡ fail)
    × (msat_from (text (codes "msat")) ≡ fail)
    × (msat_from (text (codes "+5msat")) ≡ done 5)
unfolding msat_from numpart parse_u64 is_digit bytes_eq
strict = (refl, refl, refl)

negative : from_string (amount_to_string (negsuc 4)) ≡ done (negsuc 4)
unfolding from_string amount_to_string numpart parse_i64 show_u64 is_digit bytes_eq
negative = refl

feerate : serialize_feerate (per_kb 253) ≡ codes "253perkb"
unfolding serialize_feerate show_u64
feerate = refl
