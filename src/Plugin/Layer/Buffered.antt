-- ===== src/Plugin/Layer/Buffered.antt =====
-- The buffered body is the body, up to the limit.
use greenlight.Prelude.{
  ℕ, ◌+◌, ◌≡◌, refl, false, none, some, List, [], ◌∷◌, ◌++◌, map, if◌then◌else◌, ltb, length,
  length-append, arith, Bool-cases, inl, inr,
}
use mathlib.Core.List.{append_assoc, append-nil}
use greenlight.Prelude.Run.{done}
use greenlight.Plugin.Layer.{buffer, max_message_size}

-- The chunks behind one another.
unfoldable pub whole : List (List ℕ) → List ℕ
whole [] = []
whole (chunk ∷ chunks) = chunk ++ whole chunks

-- `buffer` gives the whole body, or refuses it, by its length alone.
pub buffer_lem :
    (buf : List ℕ) (chunks : List (List ℕ))
    → ltb max_message_size (length buf) ≡ false
    → buffer buf (map some chunks)
      ≡ done (
          if ltb max_message_size (length (buf ++ whole chunks))
          then none
          else some (buf ++ whole chunks))
unfolding buffer whole
buffer_lem buf [] h = rw (append-nil buf, h) refl
buffer_lem buf (chunk ∷ chunks) h =
    elim (Bool-cases (ltb max_message_size (length buf + length chunk))) [
      | inl over ↦
          ground
            (arith, length-append buf (chunk ++ whole chunks), length-append chunk (whole chunks))
      | inr fits ↦
          let e : ltb max_message_size (length (buf ++ chunk)) ≡ false =
            rw (length-append buf chunk) fits in
          rw (fits, ← append_assoc buf chunk (whole chunks)) (buffer_lem (buf ++ chunk) chunks e)
    ]
