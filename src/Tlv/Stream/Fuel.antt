-- ===== src/Tlv/Stream/Fuel.antt =====
-- `from_bytes` reads two bytes at least in each round, so its rounds never run out.
use greenlight.Prelude.{
  ℕ, zero, suc, ◌+◌, ◌<◌, ◌≤◌, ◌≡◌, refl, List, ◌∷◌, length, length-drop, arith, ltb, Bool-cases,
  inl, inr,
}
use greenlight.Prelude.Run.{Run, done, fail, panic, ◌>>=◌, >>=-eq-done}
use greenlight.Tlv.Proto.{get_compact_size, get_uint, get_wide}
use greenlight.Tlv.Stream.{TlvEntry, copy_to_bytes, get_entry, from_loop}

get_uint-shrinks :
    (n : ℕ) (buf : List ℕ) (v : ℕ) (rest : List ℕ)
    → get_uint n buf ≡ done (v, rest)
    → length rest + n ≡ length buf
unfolding get_uint
get_uint-shrinks n buf v rest e = ground (arith, length-drop n buf)

get_wide-shrinks :
    (b : ℕ) (buf : List ℕ) (v : ℕ) (rest : List ℕ)
    → get_wide b buf ≡ done (v, rest)
    → length rest ≤ length buf
get_wide-shrinks b buf v rest e = ground (
  arith,
  get_uint-shrinks 2 buf v rest,
  get_uint-shrinks 4 buf v rest,
  get_uint-shrinks 8 buf v rest,
)

get_compact_size-shrinks :
    (buf : List ℕ) (v : ℕ) (rest : List ℕ)
    → get_compact_size buf ≡ done (v, rest)
    → length rest < length buf
unfolding get_compact_size
get_compact_size-shrinks buf v rest e =
    let ((b, s), first, wide) = >>=-eq-done (get_uint 1 buf) (λ r. get_wide r.0 r.1) e in
    omega (arith, get_uint-shrinks 1 buf b s first, get_wide-shrinks b s v rest wide)

copy_to_bytes-shrinks :
    (len : ℕ) (buf value rest : List ℕ)
    → copy_to_bytes len buf ≡ done (value, rest)
    → length rest ≤ length buf
unfolding copy_to_bytes
copy_to_bytes-shrinks len buf value rest e = ground (arith, length-drop len buf)

get_entry-shrinks :
    (buf : List ℕ) (e : TlvEntry) (rest : List ℕ)
    → get_entry buf ≡ done (e, rest)
    → length rest + 2 ≤ length buf
unfolding get_entry
get_entry-shrinks buf e rest h =
    let ((typ, s), first, then_) = >>=-eq-done (get_compact_size buf) _ h in
    let ((len, t), second, then_) = >>=-eq-done (get_compact_size s) _ then_ in
    let ((value, u), third, last) = >>=-eq-done (copy_to_bytes len t) _ then_ in
    omega (
      arith,
      get_compact_size-shrinks buf typ s first,
      get_compact_size-shrinks s len t second,
      copy_to_bytes-shrinks len t value u third,
      rest_is last,
    )
  where
    rest_is :
        {a b : TlvEntry} {u v : List ℕ}
        → ◌≡◌ {A = Run (TlvEntry × List ℕ)} (done (a, u)) (done (b, v))
        → length u ≡ length v
    rest_is q = ground arith

-- With rounds for every two bytes, more rounds change nothing: the loop ends by its own test.
pub from_loop_fuel :
    (f g : ℕ) (buf : List ℕ) → length buf ≤ f → length buf ≤ g → from_loop f buf ≡ from_loop g buf
unfolding from_loop
from_loop_fuel zero zero buf hf hg = refl
from_loop_fuel zero (suc g) buf hf hg = ground arith
from_loop_fuel (suc f) zero buf hf hg = ground arith
from_loop_fuel (suc f) (suc g) buf hf hg = elim (Bool-cases (ltb (length buf) 2)) [
  | inl short ↦ rw short refl
  | inr long ↦ rw long (same_rounds (get_entry buf) refl (λ rest a b. from_loop_fuel f g rest a b))
]
  where
    same_rounds :
        (r : Run (TlvEntry × List ℕ))
        → get_entry buf ≡ r
        → ((rest : List ℕ)
            → length rest ≤ f
            → length rest ≤ g
            → from_loop f rest ≡ from_loop g rest)
        → (r >>= λ p. from_loop f p.1 >>= λ es. done (p.0 ∷ es))
          ≡ (r >>= λ p. from_loop g p.1 >>= λ es. done (p.0 ∷ es))
    same_rounds (done (e, rest)) q ih =
        let le = get_entry-shrinks buf e rest q in rw (ih rest (omega arith) (omega arith)) refl
    same_rounds fail q ih = refl
    same_rounds panic q ih = refl
