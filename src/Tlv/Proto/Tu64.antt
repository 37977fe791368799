-- ===== src/Tlv/Proto/Tu64.antt =====
-- Truncated 64-bit numbers: `put_tu64` drops leading zero bytes, `get_tu64` knows four widths.
use greenlight.Prelude.{
  ℕ, zero, suc, ◌/◌, ◌%◌, ◌^◌, ◌<◌, ◌≡◌, ◌≢◌, ◌∙◌, refl, ap, sym, Bool, ◌&&◌, ◌||◌, List, [], ◌∷◌,
  ◌++◌, length, length-append, take-length, drop-length, arith, ltb, leb, ◌==◌, if◌then◌else◌,
  Bool-cases, inl, inr,
}
use greenlight.Prelude.Run.{done, panic}
use mathlib.Core.Path.{subst}
use native.Mathlib.Decide.{dec_lt}
use native.Mathlib.Nat.{pow-suc}
use greenlight.Tlv.Proto.{be_bytes, from_be, get_uint, get_tu64, skip_zeros, put_tu64}
use greenlight.Tlv.Proto.RoundTrip.{from_be-be_bytes}

skip_zeros-append_nil :
    (xs ys : List ℕ) → skip_zeros xs ≡ [] → skip_zeros (xs ++ ys) ≡ skip_zeros ys
unfolding skip_zeros
skip_zeros-append_nil [] ys h = refl
skip_zeros-append_nil (x ∷ xs) ys h = ground (arith, skip_zeros-append_nil xs ys)

skip_zeros-append :
    (xs ys : List ℕ) → skip_zeros xs ≢ [] → skip_zeros (xs ++ ys) ≡ skip_zeros xs ++ ys
unfolding skip_zeros
skip_zeros-append [] ys h = absurd (h refl)
skip_zeros-append (x ∷ xs) ys h = elim (Bool-cases (x == 0)) [
  | inl z ↦ rw z (skip_zeros-append xs ys (rw z at h))
  | inr n ↦ rw n refl
]

from_be-skip_zeros : (bs : List ℕ) → from_be 0 (skip_zeros bs) ≡ from_be 0 bs
unfolding skip_zeros from_be
from_be-skip_zeros [] = refl
from_be-skip_zeros (b ∷ bs) = ground (arith, from_be-skip_zeros bs)

-- The bytes of `v` without leading zeros: how many there are.
abbrev pub byte_len : ℕ → ℕ → ℕ
byte_len zero v = 0
byte_len (suc n) v = if v == 0 then 0 else suc (byte_len n (v / 256))

skip_zeros-zero : (n : ℕ) → skip_zeros (be_bytes n 0) ≡ []
unfolding be_bytes
skip_zeros-zero zero = unfold skip_zeros in refl
skip_zeros-zero (suc n) =
    skip_zeros-append_nil (be_bytes n 0) (0 ∷ []) (skip_zeros-zero n) ∙ unfold skip_zeros in refl

length_zero : (xs : List ℕ) → 0 < length xs → xs ≢ []
length_zero [] h = elim h [ ]
length_zero (x ∷ xs) h = λ e. cc

byte_len-zero : (n : ℕ) → byte_len n 0 ≡ 0
byte_len-zero zero = refl
byte_len-zero (suc n) = refl

byte_len_pos : (n v : ℕ) → 0 < v → v < 256 ^ n → 0 < byte_len n v
byte_len_pos zero v pos h = absurd (omega arith)
byte_len_pos (suc n) v pos h = ground arith

byte_len-suc : (n v : ℕ) → 0 < v → byte_len (suc n) v ≡ suc (byte_len n (v / 256))
byte_len-suc n v pos = ground arith

-- The last byte, when the bytes before it are all zero, and when they are not.
skip_last : (n v : ℕ) → 0 < v → v < 256 → skip_zeros (be_bytes n 0 ++ v % 256 ∷ []) ≡ v ∷ []
skip_last n v pos small =
    skip_zeros-append_nil (be_bytes n 0) (v % 256 ∷ []) (skip_zeros-zero n)
    ∙ unfold skip_zeros in ground arith

length-skip_zeros : (n v : ℕ) → v < 256 ^ n → length (skip_zeros (be_bytes n v)) ≡ byte_len n v
unfolding be_bytes
length-skip_zeros zero v h = unfold skip_zeros in refl
length-skip_zeros (suc n) zero h = ap length (skip_zeros-zero (suc n))
length-skip_zeros (suc n) (suc k) h =
    let v : ℕ = suc k in
    let ih = length-skip_zeros n (v / 256) (omega (arith, pow-suc 256 n)) in
    elim (dec_lt v 256) [
      | yes small ↦
          let none_before : v / 256 ≡ 0 = omega arith in
          rw (byte_len-suc n v (omega arith), none_before)
            (ap length (skip_last n v (omega arith) small) ∙ ap suc (sym (byte_len-zero n)))
      | no more ↦
          let some_before = byte_len_pos n (v / 256) (omega arith) (omega (arith, pow-suc 256 n)) in
          rw (byte_len-suc n v (omega arith)) (
            ap length (
              skip_zeros-append (be_bytes n (v / 256)) (v % 256 ∷ [])
                (length_zero (skip_zeros (be_bytes n (v / 256))) (omega arith)))
            ∙ length-append (skip_zeros (be_bytes n (v / 256))) (v % 256 ∷ [])
            ∙ omega arith)
    ]

abbrev pub readable : ℕ → Bool
readable u = ltb 0 u && ltb u (2 ^ 16) || leb (2 ^ 24) u && ltb u (2 ^ 32) || leb (2 ^ 56) u

readable-byte_len :
    (u : ℕ)
    → u < 2 ^ 64
    → readable u
      ≡ (byte_len 8 u == 1 || byte_len 8 u == 2 || byte_len 8 u == 4 || byte_len 8 u == 8)
readable-byte_len u h = ground arith

get_uint_all : (buf : List ℕ) (n : ℕ) → length buf ≡ n → get_uint n buf ≡ done (from_be 0 buf, [])
get_uint_all buf n h = subst (λ k. get_uint k buf ≡ done (from_be 0 buf, [])) h all
  where
    all : get_uint (length buf) buf ≡ done (from_be 0 buf, [])
    all = unfold get_uint in ground (arith, take-length buf, drop-length buf)

get_tu64_all :
    (buf : List ℕ)
    → get_tu64 buf ≡ (
        if length buf == 1 || length buf == 2 || length buf == 4 || length buf == 8
        then done (from_be 0 buf, [])
        else panic)
unfolding get_tu64
get_tu64_all buf =
    ground (arith, get_uint_all buf 1, get_uint_all buf 2, get_uint_all buf 4, get_uint_all buf 8)

-- A number written by `put_tu64` reads back by `get_tu64` exactly if it fills one, two, four or eight
-- bytes. On any other, such as zero and the numbers of three bytes, `get_tu64` panics.
pub get-put_tu64 :
    (u : ℕ) → u < 2 ^ 64 → get_tu64 (put_tu64 u) ≡ (if readable u then done (u, []) else panic)
unfolding put_tu64
get-put_tu64 u h =
    get_tu64_all (skip_zeros (be_bytes 8 u))
    ∙ rw
        (
          length-skip_zeros 8 u (omega arith),
          from_be-skip_zeros (be_bytes 8 u),
          from_be-be_bytes 8 u (omega arith),
          readable-byte_len u h,
        )
        refl
