-- ===== src/Prelude/Decimal.antt =====
-- Numbers as decimal text: Rust's `Display`, and `from_str` of the integers with a bound.
use Prim.Native.Nat.{ℕ, zero, suc, ◌+◌, ◌-◌, ◌*◌, ◌/◌, ◌%◌, ◌^◌, ◌<◌}
use mathlib.Core.Path.{◌≡◌, ◌∙◌, refl}
use mathlib.Core.Logic.{inl, inr}
use mathlib.Core.Bool.{Bool, true, ◌&&◌}
use mathlib.Core.Option.{Option, none, some}
use mathlib.Core.List.{List, [], ◌∷◌, ◌++◌}
use native.Mathlib.Omega.{arith}
use greenlight.Prelude.Tests.{ltb, leb, ◌==◌, if◌then◌else◌, Bool-cases}
use greenlight.Prelude.Int.{ℤ, pos, negsuc}
use greenlight.Prelude.Lists.{All}

unfoldable pub is_digit : ℕ → Bool
is_digit c = leb b'0' c && leb c b'9'

-- Digits one after the other; a number that reaches the bound is an error.
unfoldable pub digits_from : ℕ → ℕ → List ℕ → Option ℕ
unfolding is_digit
digits_from bound acc [] = some acc
digits_from bound acc (c ∷ cs) =
    let next = acc * 10 + (c - b'0') in
    let rest = digits_from bound next cs in if is_digit c && ltb next bound then rest else none

abbrev pub some_digits : ℕ → List ℕ → Option ℕ
some_digits bound [] = none
some_digits bound (c ∷ cs) = digits_from bound 0 (c ∷ cs)

-- `u64::from_str`: a plus sign may stand in front.
unfoldable pub parse_u64 : List ℕ → Option ℕ
unfolding digits_from
parse_u64 [] = none
parse_u64 (c ∷ cs) = if c == b'+' then some_digits (2 ^ 64) cs else some_digits (2 ^ 64) (c ∷ cs)

abbrev pub negated : Option ℕ → Option ℤ
negated none = none
negated (some zero) = some (pos 0)
negated (some (suc n)) = some (negsuc n)

abbrev pub nonnegative : Option ℕ → Option ℤ
nonnegative none = none
nonnegative (some n) = some (pos n)

-- `i64::from_str`
unfoldable pub parse_i64 : List ℕ → Option ℤ
unfolding digits_from
parse_i64 [] = none
parse_i64 (c ∷ cs) =
    if c == b'-'
    then negated (some_digits (2 ^ 63 + 1) cs)
    else if c == b'+'
    then nonnegative (some_digits (2 ^ 63) cs)
    else nonnegative (some_digits (2 ^ 63) (c ∷ cs))

-- The digits of a number; the fuel is a bound on how many there are.
unfoldable pub digits : ℕ → ℕ → List ℕ
digits zero n = []
digits (suc fuel) n =
    let front = digits fuel (n / 10) in
    if ltb n 10 then (b'0' + n) ∷ [] else front ++ (b'0' + n % 10) ∷ []

-- A `u64` has at most 20 digits.
unfoldable pub show_u64 : ℕ → List ℕ
unfolding digits
show_u64 n = digits 20 n

unfoldable pow10 : ℕ → ℕ
pow10 zero = 1
pow10 (suc n) = 10 * pow10 n

digits_from-append :
    (bound acc : ℕ) (xs : List ℕ) (d n : ℕ)
    → d < 10
    → digits_from bound acc xs ≡ some n
    → n * 10 + d < bound
    → digits_from bound acc (xs ++ (b'0' + d) ∷ []) ≡ some (n * 10 + d)
unfolding digits_from is_digit
digits_from-append bound acc [] d n small h fits = ground arith
digits_from-append bound acc (c ∷ cs) d n small h fits =
    ground (arith, digits_from-append bound (acc * 10 + (c - b'0')) cs d n small)

digits_from-digits :
    (bound fuel n : ℕ) → n < bound → n < pow10 fuel → digits_from bound 0 (digits fuel n) ≡ some n
unfolding digits pow10
digits_from-digits bound zero n fits small = unfold digits_from in ground arith
digits_from-digits bound (suc fuel) n fits small = elim (Bool-cases (ltb n 10)) [
  | inl one ↦ unfold digits_from is_digit in ground (arith, one)
  | inr more ↦
      let ih = digits_from-digits bound fuel (n / 10) (omega arith) (omega arith) in
      let parsed =
        digits_from-append bound 0 (digits fuel (n / 10)) (n % 10) (n / 10) (omega arith) ih
          (omega arith) in
      ground (arith, more, parsed)
]

abbrev pub AreDigits : List ℕ → Type 0
AreDigits cs = All (λ d. is_digit d ≡ true) cs

AreDigits-append :
    (cs : List ℕ) (d : ℕ) → AreDigits cs → is_digit d ≡ true → AreDigits (cs ++ d ∷ [])
AreDigits-append [] d h k = (k, tt)
AreDigits-append (c ∷ cs) d h k = (h.0, AreDigits-append cs d h.1 k)

digits-AreDigits : (fuel n : ℕ) → AreDigits (digits fuel n)
unfolding digits
digits-AreDigits zero n = tt
digits-AreDigits (suc fuel) n = elim (Bool-cases (ltb n 10)) [
  | inl one ↦
      let d : is_digit (b'0' + n) ≡ true = unfold is_digit in ground (arith, one) in rw one (d, tt)
  | inr more ↦
      let d : is_digit (b'0' + n % 10) ≡ true = unfold is_digit in ground arith in
      rw more (AreDigits-append _ _ (digits-AreDigits fuel (n / 10)) d)
]

pub show_u64-AreDigits : (n : ℕ) → AreDigits (show_u64 n)
unfolding show_u64
show_u64-AreDigits n = digits-AreDigits 20 n

abbrev IsNonempty : List ℕ → Type 0
IsNonempty cs = (c : ℕ) × (rest : List ℕ) × (cs ≡ c ∷ rest)

append-IsNonempty : (cs : List ℕ) (d : ℕ) → IsNonempty (cs ++ d ∷ [])
append-IsNonempty [] d = (d, [], refl)
append-IsNonempty (c ∷ cs) d = (c, cs ++ d ∷ [], refl)

digits-IsNonempty : (fuel n : ℕ) → IsNonempty (digits (suc fuel) n)
unfolding digits
digits-IsNonempty fuel n = elim (Bool-cases (ltb n 10)) [
  | inl one ↦ (b'0' + n, [], rw one refl)
  | inr more ↦
      let (c, rest, e) = append-IsNonempty (digits fuel (n / 10)) (b'0' + n % 10) in
      (c, rest, rw more e)
]

parse_u64_of_digits :
    (cs : List ℕ) → IsNonempty cs → AreDigits cs → parse_u64 cs ≡ digits_from (2 ^ 64) 0 cs
unfolding parse_u64 is_digit
parse_u64_of_digits [] (c, rest, e) h = cc e
parse_u64_of_digits (c ∷ cs) more h = ground (arith, h.0)

-- A number of 64 bits is read back from its text.
pub parse_u64-show_u64 : (n : ℕ) → n < 2 ^ 64 → parse_u64 (show_u64 n) ≡ some n
unfolding show_u64 pow10
parse_u64-show_u64 n h =
    parse_u64_of_digits _ (digits-IsNonempty 19 n) (digits-AreDigits 20 n)
    ∙ digits_from-digits (2 ^ 64) 20 n h (omega arith)
