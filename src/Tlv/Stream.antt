-- ===== src/Tlv/Stream.antt =====
-- `SerializedTlvStream` of libs/gl-plugin/src/tlv.rs.
pub mod Entries
pub mod Codec
pub mod Fuel
use greenlight.Prelude.{
  ℕ, zero, suc, ◌+◌, ◌-◌, Bool, Option, none, some, List, [], ◌∷◌, ◌++◌, length, take, drop, ltb,
  leb, ◌==◌, if◌then◌else◌,
}
use greenlight.Prelude.Run.{Run, done, fail, panic, unwrap, ◌>>=◌}
use greenlight.Tlv.Proto.{get_compact_size, put_compact_size, put_tu64}

pub record TlvEntry : Type 0 where
  pub typ : ℕ
  pub value : List ℕ

pub record SerializedTlvStream : Type 0 where
  pub entries : List TlvEntry

abbrev pub new : SerializedTlvStream
new = record { entries = [] }

-- `iter().filter(|e| e.typ == typ).next()`
unfoldable pub find_entry : ℕ → List TlvEntry → Option TlvEntry
find_entry typ [] = none
find_entry typ (e ∷ es) = if e.typ == typ then some e else find_entry typ es

unfoldable pub get : ℕ → SerializedTlvStream → Option TlvEntry
unfolding find_entry
get typ s = find_entry typ s.entries

-- `sort_by(|a, b| a.typ.partial_cmp(&b.typ))`, a stable sort, by insertion.
unfoldable pub insert_sorted : TlvEntry → List TlvEntry → List TlvEntry
insert_sorted e [] = e ∷ []
insert_sorted e (d ∷ es) = if leb e.typ d.typ then e ∷ d ∷ es else d ∷ insert_sorted e es

unfoldable pub sort_entries : List TlvEntry → List TlvEntry
unfolding insert_sorted
sort_entries [] = []
sort_entries (e ∷ es) = insert_sorted e (sort_entries es)

-- An entry of the type that is there is an error.
unfoldable pub insert : TlvEntry → SerializedTlvStream → Run SerializedTlvStream
unfolding sort_entries
insert e s = elim (get e.typ s) [
  | some old ↦ fail
  | none ↦ done (record { entries = sort_entries (s.entries ++ e ∷ []) })
]

-- `entries[i].value = val` at the first position of the type.
unfoldable pub set_value : ℕ → List ℕ → List TlvEntry → List TlvEntry
set_value typ val [] = []
set_value typ val (e ∷ es) =
    if e.typ == typ then record e { value = val } ∷ es else e ∷ set_value typ val es

-- The `Err` of `insert` would be unwrapped.
abbrev pub unwrap_insert : Run SerializedTlvStream → Run SerializedTlvStream
unwrap_insert (done s) = done s
unwrap_insert fail = panic
unwrap_insert panic = panic

unfoldable pub set_bytes : ℕ → List ℕ → SerializedTlvStream → Run SerializedTlvStream
unfolding set_value
set_bytes typ val s = elim (find_entry typ s.entries) [
  | some e ↦ done (record { entries = set_value typ val s.entries })
  | none ↦ unwrap_insert (insert (record { typ = typ; value = val }) s)
]

unfoldable pub set_tu64 : ℕ → ℕ → SerializedTlvStream → Run SerializedTlvStream
set_tu64 typ val s = set_bytes typ (put_tu64 val) s

unfoldable pub entry_bytes : TlvEntry → List ℕ
entry_bytes e = put_compact_size e.typ ++ (put_compact_size (length e.value) ++ e.value)

unfoldable pub put_entries : List TlvEntry → List ℕ
put_entries [] = []
put_entries (e ∷ es) = entry_bytes e ++ put_entries es

unfoldable pub to_bytes : SerializedTlvStream → List ℕ
unfolding put_entries
to_bytes s = put_entries s.entries

-- `copy_to_bytes` panics if less is left.
unfoldable pub copy_to_bytes : ℕ → List ℕ → Run (List ℕ × List ℕ)
copy_to_bytes len buf = if ltb (length buf) len then panic else done (take len buf, drop len buf)

unfoldable pub get_entry : List ℕ → Run (TlvEntry × List ℕ)
get_entry buf = do
  (typ, rest) ← get_compact_size buf
  (len, rest) ← get_compact_size rest
  (value, rest) ← copy_to_bytes len rest
  done (record { typ = typ; value = value }, rest)

-- `while b.remaining() >= 2`; a single last byte is left unread. On fuel: each round reads two bytes
-- at least.
unfoldable pub from_loop : ℕ → List ℕ → Run (List TlvEntry)
from_loop zero buf = done []
from_loop (suc fuel) buf =
    let rounds = do (e, rest) ← get_entry buf; es ← from_loop fuel rest; done (e ∷ es)
    in if ltb (length buf) 2 then done [] else rounds

unfoldable pub from_bytes : List ℕ → Run SerializedTlvStream
unfolding from_loop
from_bytes s = do es ← from_loop (length s) s; done (record { entries = es })

-- `deserialize` behind the hex decoding: `b.take(l)` limits the buffer, and `into_inner()` gives the
-- buffer back without the limit.
unfoldable pub deserialize : List ℕ → Run SerializedTlvStream
deserialize buf = do (l, b) ← get_compact_size buf; from_bytes b
