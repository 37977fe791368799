-- ===== src/Tlv/Proto.antt =====
-- `ProtoBuf` and `ProtoBufMut` of libs/gl-plugin/src/tlv.rs: the numbers of the Lightning protocol in
-- a byte buffer. Reading beyond the end of a `bytes::Buf` panics.
pub mod RoundTrip
pub mod Tu64
use greenlight.Prelude.{
  ℕ, zero, suc, ◌+◌, ◌*◌, ◌/◌, ◌%◌, ◌^◌, ◌<◌, List, [], ◌∷◌, ◌++◌, length, take, drop, ltb, leb,
  ◌==◌, if◌then◌else◌,
}
use greenlight.Prelude.Run.{Run, done, panic, ◌>>=◌}

-- The `n` low bytes of a number, the highest one first, and back.
unfoldable pub be_bytes : ℕ → ℕ → List ℕ
be_bytes zero v = []
be_bytes (suc n) v = be_bytes n (v / 256) ++ v % 256 ∷ []

unfoldable pub from_be : ℕ → List ℕ → ℕ
from_be acc [] = acc
from_be acc (b ∷ bs) = from_be (acc * 256 + b) bs

-- `get_u8`, `get_u16`, `get_u32` and `get_u64`, by the number of bytes.
unfoldable pub get_uint : ℕ → List ℕ → Run (ℕ × List ℕ)
get_uint n buf = if ltb (length buf) n then panic else done (from_be 0 (take n buf), drop n buf)

-- The arms of the match on the first byte.
abbrev pub get_wide : ℕ → List ℕ → Run (ℕ × List ℕ)
get_wide v rest =
    if v == 253
    then get_uint 2 rest
    else if v == 254
    then get_uint 4 rest
    else if v == 255
    then get_uint 8 rest
    else done (v, rest)

unfoldable pub get_compact_size : List ℕ → Run (ℕ × List ℕ)
get_compact_size buf = do (v, rest) ← get_uint 1 buf; get_wide v rest

-- The width is what remains of the buffer.
unfoldable pub get_tu64 : List ℕ → Run (ℕ × List ℕ)
get_tu64 buf =
    let l = length buf in
    if l == 1
    then get_uint 1 buf
    else if l == 2
    then get_uint 2 buf
    else if l == 4
    then get_uint 4 buf
    else if l == 8
    then get_uint 8 buf
    else panic

unfoldable pub put_compact_size : ℕ → List ℕ
put_compact_size cs =
    if leb cs 0xfc
    then be_bytes 1 cs
    else if leb cs 0xffff
    then 253 ∷ be_bytes 2 cs
    else if leb cs 0xffff_ffff
    then 254 ∷ be_bytes 4 cs
    else 255 ∷ be_bytes 8 cs

-- `skip_while(|&x| x == 0)`
unfoldable pub skip_zeros : List ℕ → List ℕ
skip_zeros [] = []
skip_zeros (b ∷ bs) = if b == 0 then skip_zeros bs else b ∷ bs

unfoldable pub put_tu64 : ℕ → List ℕ
put_tu64 u = skip_zeros (be_bytes 8 u)
