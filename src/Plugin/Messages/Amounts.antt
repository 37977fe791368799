-- ===== src/Plugin/Messages/Amounts.antt =====
-- Amounts are read back as they were written.
use greenlight.Prelude.{
  ℕ, ◌+◌, ◌-◌, ◌*◌, ◌%◌, ◌^◌, ◌<◌, ◌≡◌, ◌∙◌, refl, ap, false, Option, none, some, List, [], ◌∷◌,
  ◌++◌, bytes_eq, codes, ltb, length, length-append, take-append, drop-append, arith, All,
}
use greenlight.Prelude.Run.{Run, done, fail}
use greenlight.Prelude.Decimal.{
  is_digit, show_u64, AreDigits, show_u64-AreDigits, parse_u64-show_u64,
}
use greenlight.Plugin.Messages.{
  Amount, millisatoshi, satoshi, bitcoin, all, any, text, serialize, partition, multiplier,
  amt_from_parts, amt_from_str, amt_from_str_or_int, numpart, msat_from, msat_fmt,
}

abbrev AreOthers : List ℕ → Type 0
AreOthers cs = All (λ c. is_digit c ≡ false) cs

partition_of_others : (ext : List ℕ) → AreOthers ext → partition ext ≡ ([], ext)
unfolding partition
partition_of_others [] h = refl
partition_of_others (c ∷ ext) h = rw (partition_of_others ext h.1, h.0) refl

partition-append :
    (num ext : List ℕ) → AreDigits num → AreOthers ext → partition (num ++ ext) ≡ (num, ext)
unfolding partition
partition-append [] ext h k = partition_of_others ext k
partition-append (c ∷ num) ext h k = rw (partition-append num ext h.1 k, h.0) refl

amt_from_str-show_u64 :
    (n mult : ℕ) (ext : List ℕ)
    → n < 2 ^ 64
    → AreOthers ext
    → multiplier ext ≡ done mult
    → amt_from_str (show_u64 n ++ ext) ≡ done ((n * mult) % 2 ^ 64)
unfolding amt_from_str amt_from_parts
amt_from_str-show_u64 n mult ext h others unit =
    rw
      (
        partition-append (show_u64 n) ext (show_u64-AreDigits n) others,
        unit,
        parse_u64-show_u64 n h,
      )
      refl

-- What an amount is worth, and whether its number and its worth have 64 bits.
abbrev pub msat_of : Amount → Option ℕ
msat_of (millisatoshi a) = some a
msat_of (satoshi a) = some (a * 1000)
msat_of (bitcoin a) = some (a * 100000000000)
msat_of all = none
msat_of any = none

abbrev pub Fits : Option ℕ → Type 0
Fits none = Unit {0}
Fits (some v) = v < 2 ^ 64

abbrev pub read_as : Option ℕ → Run ℕ
read_as none = fail
read_as (some v) = done v

-- An amount whose worth has 64 bits is read back with its worth in millisatoshi; `all` and `any` are
-- errors.
pub amt_from_str-serialize :
    (a : Amount) → Fits (msat_of a) → amt_from_str_or_int (text (serialize a)) ≡ read_as (msat_of a)
unfolding amt_from_str_or_int serialize multiplier bytes_eq is_digit
amt_from_str-serialize (millisatoshi a) h =
    amt_from_str-show_u64 a 1 (codes "msat") h (refl, (refl, (refl, (refl, tt)))) refl
    ∙ ap done (omega (arith, h))
amt_from_str-serialize (satoshi a) h =
    amt_from_str-show_u64 a 1000 (codes "sat") (omega (arith, h)) (refl, (refl, (refl, tt))) refl
    ∙ ap done (omega (arith, h))
amt_from_str-serialize (bitcoin a) h =
    amt_from_str-show_u64 a 100000000000 (codes "btc") (omega (arith, h)) (refl, (refl, (refl, tt)))
      refl
    ∙ ap done (omega (arith, h))
amt_from_str-serialize all h = unfold amt_from_str amt_from_parts partition in refl
amt_from_str-serialize any h = unfold amt_from_str amt_from_parts partition in refl

numpart-append : (num : List ℕ) → numpart (num ++ codes "msat") ≡ done num
unfolding numpart bytes_eq
numpart-append num =
    let n : length (num ++ codes "msat") ≡ length num + 4 = length-append num (codes "msat") in
    let long : ltb (length num + 4) 4 ≡ false = ground arith in
    let cut : length num + 4 - 4 ≡ length num = omega arith in
    rw (n, long, cut, drop-append num (codes "msat"), take-append num (codes "msat")) refl

-- An `MSat` that is printed is read back, by both readers of amounts.
pub msat_from-msat_fmt :
    (n : ℕ)
    → n < 2 ^ 64
    → (msat_from (text (msat_fmt n)) ≡ done n) × (amt_from_str_or_int (text (msat_fmt n)) ≡ done n)
unfolding msat_from msat_fmt
msat_from-msat_fmt n h = (
  rw (numpart-append (show_u64 n), parse_u64-show_u64 n h) refl,
  unfold serialize in amt_from_str-serialize (millisatoshi n) h,
)
