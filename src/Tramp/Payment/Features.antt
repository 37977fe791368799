-- ===== src/Tramp/Payment/Features.antt =====
-- The feature bits of a peer as one big-endian number.
use greenlight.Prelude.{
  ℕ, zero, suc, ◌+◌, ◌-◌, ◌*◌, ◌/◌, ◌%◌, ◌<◌, ◌≡◌, ◌∙◌, refl, ap, sym, false, List, [], ◌∷◌, drop,
  arith, All, if◌then◌else◌, ◌==◌,
}
use greenlight.Prelude.Outcome.{ok, err}
use mathlib.Core.Path.{subst}
use greenlight.Tlv.Proto.{from_be}
use greenlight.Tramp.ErrorCode.{TrampolineErrorCode}
use greenlight.Tramp.Payment.{bit_set, reverse_onto, byte_has, feature_guard}

abbrev from_le : List ℕ → ℕ
from_le [] = 0
from_le (b ∷ bs) = b + 256 * from_le bs

from_be-reverse_onto : (acc bs : List ℕ) → from_be (from_le acc) bs ≡ from_le (reverse_onto acc bs)
unfolding from_be reverse_onto
from_be-reverse_onto acc [] = refl
from_be-reverse_onto acc (b ∷ bs) =
    ap (λ n. from_be n bs) (omega arith) ∙ from_be-reverse_onto (b ∷ acc) bs

reverse_onto-All :
    (acc bs : List ℕ)
    → All (λ b. b < 256) acc
    → All (λ b. b < 256) bs
    → All (λ b. b < 256) (reverse_onto acc bs)
unfolding reverse_onto
reverse_onto-All acc [] h k = h
reverse_onto-All acc (b ∷ bs) h k = reverse_onto-All (b ∷ acc) bs (k.0, h) k.1

bit_set_zero : (k : ℕ) → bit_set k 0 ≡ false
unfolding bit_set
bit_set_zero zero = ground arith
bit_set_zero (suc k) = ap (bit_set k) (omega arith) ∙ bit_set_zero k

-- The number with `k + 1` zero bits put below it.
unfoldable shifted : ℕ → ℕ → ℕ
shifted zero r = 2 * r
shifted (suc k) r = 2 * shifted k r

shifted_twice : (k r : ℕ) → shifted k (2 * r) ≡ 2 * shifted k r
unfolding shifted
shifted_twice zero r = refl
shifted_twice (suc k) r = ap (λ n. 2 * n) (shifted_twice k r)

-- Within a byte's width the bits above do not count.
bit_set_below : (k b r : ℕ) → bit_set k (b + shifted k r) ≡ bit_set k b
unfolding bit_set shifted
bit_set_below zero b r = ap (λ n. n == 1) (omega arith)
bit_set_below (suc k) b r = ap (bit_set k) (omega arith) ∙ bit_set_below k (b / 2) r

byte_shifted : (j k r : ℕ) → k + j ≡ 7 → (q : ℕ) × (256 * r ≡ shifted k q)
unfolding shifted
byte_shifted zero k r h =
    let seven : 7 ≡ k = omega arith in
    let byte : 256 * r ≡ shifted 7 r = omega arith in
    (r, subst (λ n. 256 * r ≡ shifted n r) seven byte)
byte_shifted (suc j) k r h =
    let (q, e) = byte_shifted j (suc k) r (omega arith) in (2 * q, e ∙ sym (shifted_twice k q))

bit_set_low : (k b r : ℕ) → k < 8 → bit_set k (b + 256 * r) ≡ bit_set k b
bit_set_low k b r h =
    let (q, e) = byte_shifted (7 - k) k r (omega arith) in
    ap (λ n. bit_set k (b + n)) e ∙ bit_set_below k b q

above : ℕ → ℕ
above k = suc (suc (suc (suc (suc (suc (suc (suc k)))))))

bit_set_high : (k b r : ℕ) → b < 256 → bit_set (above k) (b + 256 * r) ≡ bit_set k r
unfolding bit_set above
bit_set_high k b r h = ap (bit_set k) (omega arith)

-- The position of bit `r` of the byte `q`.
at : ℕ → ℕ → ℕ
at zero r = r
at (suc q) r = above (at q r)

at_lem : (q r : ℕ) → at q r ≡ 8 * q + r
unfolding at above
at_lem zero r = omega arith
at_lem (suc q) r = omega (arith, at_lem q r)

byte_has-drop :
    (q r : ℕ) (l : List ℕ)
    → r < 8
    → All (λ b. b < 256) l
    → byte_has r (drop q l) ≡ bit_set (at q r) (from_le l)
unfolding byte_has at
byte_has-drop zero r [] h k = sym (bit_set_zero r)
byte_has-drop (suc q) r [] h k = sym (bit_set_zero (above (at q r)))
byte_has-drop zero r (b ∷ bs) h k = sym (bit_set_low r b (from_le bs) h)
byte_has-drop (suc q) r (b ∷ bs) h k =
    byte_has-drop q r bs h k.1 ∙ sym (bit_set_high (at q r) b (from_le bs) k.0)

-- On bytes, the guard passes exactly if the bit is set in the features, read as one big-endian
-- number, and it fails as an unsupported feature if not.
pub feature_guard-from_be :
    (features : List ℕ) (bit : ℕ)
    → All (λ b. b < 256) features
    → feature_guard features bit ≡ (
        if bit_set bit (from_be 0 features)
        then ok tt
        else err TrampolineErrorCode.feature_not_supported)
unfolding feature_guard
feature_guard-from_be features bit h =
    let l = reverse_onto [] features in
    let found =
      byte_has-drop (bit / 8) (bit % 8) l (omega arith) (reverse_onto-All [] features tt h) in
    let position : at (bit / 8) (bit % 8) ≡ bit = at_lem (bit / 8) (bit % 8) ∙ omega arith in
    rw (found, position, from_be-reverse_onto [] features) refl
