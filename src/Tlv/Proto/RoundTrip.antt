-- ===== src/Tlv/Proto/RoundTrip.antt =====
-- Reading back what was written.
use greenlight.Prelude.{
  ℕ, zero, suc, ◌+◌, ◌*◌, ◌/◌, ◌%◌, ◌^◌, ◌<◌, ◌≤◌, ◌≡◌, ◌∙◌, refl, List, [], ◌∷◌, ◌++◌, length,
  length-append, take, drop, take-append, drop-append, arith, ltb, false,
}
use greenlight.Prelude.Run.{done}
use native.Mathlib.Decide.{dec_lt}
use mathlib.Core.Path.{subst}
use native.Mathlib.Nat.{pow-suc}
use greenlight.Tlv.Proto.{be_bytes, from_be, get_uint, get_wide, get_compact_size, put_compact_size}

pub length-be_bytes : (n v : ℕ) → length (be_bytes n v) ≡ n
unfolding be_bytes
length-be_bytes zero v = refl
length-be_bytes (suc n) v =
    length-append (be_bytes n (v / 256)) _ ∙ omega (arith, length-be_bytes n (v / 256))

pub from_be-append :
    (acc b : ℕ) (bs : List ℕ) → from_be acc (bs ++ b ∷ []) ≡ from_be acc bs * 256 + b
unfolding from_be
from_be-append acc b [] = refl
from_be-append acc b (c ∷ bs) = from_be-append (acc * 256 + c) b bs

pub from_be-be_bytes : (n v : ℕ) → v < 256 ^ n → from_be 0 (be_bytes n v) ≡ v
unfolding be_bytes
from_be-be_bytes zero v h = unfold from_be in ground arith
from_be-be_bytes (suc n) v h =
    rw (from_be-append 0 (v % 256) (be_bytes n (v / 256)))
      (omega (arith, from_be-be_bytes n (v / 256) (omega (arith, pow-suc 256 n))))

pub get_uint-be_bytes :
    (n v : ℕ) (rest : List ℕ) → v < 256 ^ n → get_uint n (be_bytes n v ++ rest) ≡ done (v, rest)
unfolding get_uint
get_uint-be_bytes n v rest h =
    let len = length-be_bytes n v in
    let enough : ltb (length (be_bytes n v ++ rest)) n ≡ false =
      ground (arith, len, length-append (be_bytes n v) rest) in
    let taken : take n (be_bytes n v ++ rest) ≡ be_bytes n v =
      subst (λ k. take k (be_bytes n v ++ rest) ≡ be_bytes n v) len
        (take-append (be_bytes n v) rest) in
    let dropped : drop n (be_bytes n v ++ rest) ≡ rest =
      subst (λ k. drop k (be_bytes n v ++ rest) ≡ rest) len (drop-append (be_bytes n v) rest) in
    rw (enough, taken, dropped, from_be-be_bytes n v h) refl

-- The first byte of a compact size, and what it announces.
get_first : (b : ℕ) (rest : List ℕ) → get_compact_size (b ∷ rest) ≡ get_wide b rest
unfolding get_compact_size get_uint from_be
get_first b rest = ground arith

put_one : (v : ℕ) → v < 253 → put_compact_size v ≡ v ∷ []
unfolding put_compact_size be_bytes
put_one v h = ground arith

put_two : (v : ℕ) → 253 ≤ v → v < 0x1_0000 → put_compact_size v ≡ 253 ∷ be_bytes 2 v
unfolding put_compact_size
put_two v h k = ground arith

put_four : (v : ℕ) → 0x1_0000 ≤ v → v < 0x1_0000_0000 → put_compact_size v ≡ 254 ∷ be_bytes 4 v
unfolding put_compact_size
put_four v h k = ground arith

put_eight : (v : ℕ) → 0x1_0000_0000 ≤ v → put_compact_size v ≡ 255 ∷ be_bytes 8 v
unfolding put_compact_size
put_eight v h = ground arith

-- A compact size reads back as it was written, with whatever follows it left in the buffer.
pub get-put_compact_size :
    (v : ℕ) (rest : List ℕ)
    → v < 2 ^ 64
    → get_compact_size (put_compact_size v ++ rest) ≡ done (v, rest)
get-put_compact_size v rest h = elim (dec_lt v 253) [
  | yes p ↦ rw (put_one v p, get_first) (ground arith)
  | no p ↦ elim (dec_lt v 0x1_0000) [
    | yes q ↦ rw (put_two v (omega arith) q, get_first) (get_uint-be_bytes 2 v rest (omega arith))
    | no q ↦ elim (dec_lt v 0x1_0000_0000) [
      | yes r ↦
          rw (put_four v (omega arith) r, get_first) (get_uint-be_bytes 4 v rest (omega arith))
      | no r ↦ rw (put_eight v (omega arith), get_first) (get_uint-be_bytes 8 v rest (omega arith))
    ]
  ]
]

-- A compact size takes one byte at least.
pub length-put_compact_size : (v : ℕ) → 1 ≤ length (put_compact_size v)
unfolding put_compact_size
length-put_compact_size v = ground (arith, length-be_bytes 1 v)
