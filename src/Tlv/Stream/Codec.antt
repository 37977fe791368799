-- ===== src/Tlv/Stream/Codec.antt =====
-- Streams as bytes, and back.
use greenlight.Prelude.{
  ℕ, zero, suc, ◌^◌, ◌<◌, ◌≤◌, ◌≡◌, refl, List, [], ◌∷◌, ◌++◌, length, length-append, take-append,
  drop-append, arith, ltb, All, false,
}
use mathlib.Core.List.{append_assoc}
use greenlight.Prelude.Run.{done}
use greenlight.Tlv.Proto.{put_compact_size}
use greenlight.Tlv.Proto.RoundTrip.{get-put_compact_size, length-put_compact_size}
use greenlight.Tlv.Stream.{
  TlvEntry, SerializedTlvStream, entry_bytes, put_entries, to_bytes, copy_to_bytes, get_entry,
  from_loop, from_bytes, deserialize,
}

-- What a `u64` type and a `usize` length allow.
abbrev pub IsEntry : TlvEntry → Type 0
IsEntry e = (e.typ < 2 ^ 64) × (length e.value < 2 ^ 64)

copy_to_bytes_append :
    (value rest : List ℕ) → copy_to_bytes (length value) (value ++ rest) ≡ done (value, rest)
unfolding copy_to_bytes
copy_to_bytes_append value rest =
    let enough : ltb (length (value ++ rest)) (length value) ≡ false =
      ground (arith, length-append value rest) in
    rw (enough, take-append value rest, drop-append value rest) refl

get_entry-entry_bytes :
    (e : TlvEntry) (rest : List ℕ) → IsEntry e → get_entry (entry_bytes e ++ rest) ≡ done (e, rest)
unfolding get_entry entry_bytes
get_entry-entry_bytes e rest h =
    rw
      (
        append_assoc (put_compact_size e.typ) (put_compact_size (length e.value) ++ e.value) rest,
        append_assoc (put_compact_size (length e.value)) e.value rest,
        get-put_compact_size e.typ _ h.0,
        get-put_compact_size (length e.value) (e.value ++ rest) h.1,
        copy_to_bytes_append e.value rest,
      )
      refl

length-entry_bytes : (e : TlvEntry) → 2 ≤ length (entry_bytes e)
unfolding entry_bytes
length-entry_bytes e = omega (
  arith,
  length-append (put_compact_size e.typ) (put_compact_size (length e.value) ++ e.value),
  length-append (put_compact_size (length e.value)) e.value,
  length-put_compact_size e.typ,
  length-put_compact_size (length e.value),
)

from_loop-put_entries :
    (es : List TlvEntry) (fuel : ℕ)
    → All IsEntry es
    → length (put_entries es) ≤ fuel
    → from_loop fuel (put_entries es) ≡ done es
unfolding put_entries from_loop
from_loop-put_entries [] zero h le = refl
from_loop-put_entries [] (suc fuel) h le = refl
from_loop-put_entries (e ∷ es) zero h le =
    absurd (omega (arith, length-append (entry_bytes e) (put_entries es), length-entry_bytes e))
from_loop-put_entries (e ∷ es) (suc fuel) h le =
    let size = length-append (entry_bytes e) (put_entries es) in
    let more : ltb (length (entry_bytes e ++ put_entries es)) 2 ≡ false =
      ground (arith, size, length-entry_bytes e) in
    let ih = from_loop-put_entries es fuel h.1 (omega (arith, size, length-entry_bytes e)) in
    rw (more, get_entry-entry_bytes e (put_entries es) h.0, ih) refl

-- A stream whose types and lengths are `u64`s reads back as it was written.
pub from_bytes-to_bytes :
    (s : SerializedTlvStream) → All IsEntry s.entries → from_bytes (to_bytes s) ≡ done s
unfolding from_bytes to_bytes
from_bytes-to_bytes s h =
    rw (from_loop-put_entries s.entries (length (put_entries s.entries)) h (omega arith)) refl

-- `deserialize` reads whatever follows the length prefix: its result does not depend on the length
-- that the prefix states.
pub deserialize-put_compact_size :
    (l : ℕ) (buf : List ℕ) → l < 2 ^ 64 → deserialize (put_compact_size l ++ buf) ≡ from_bytes buf
unfolding deserialize
deserialize-put_compact_size l buf h = rw (get-put_compact_size l buf h) refl
