-- ===== src/Signer/Sign/Lengths.antt =====
-- What is signed, and how long a signature is.
use greenlight.Prelude.{
  ℕ, ◌≡◌, ◌≤◌, ◌-◌, refl, Option, none, some, List, [], ◌∷◌, length, take, drop, arith, leb,
  length-drop, zero, suc, ap, map, inl, inr, Bool-cases,
}
use greenlight.Prelude.Run.{done, done_injective, >>=-eq-done, assert, ensure, unwrap}
use greenlight.Signer.Sign.{
  Hsm, range, index, sign_message, StartupMessage, handle_all, zip_messages, as_vecs,
  get_startup_messages,
}

length-take_le : (n : ℕ) (xs : List ℕ) → n ≤ length xs → length (take n xs) ≡ n
length-take_le zero xs h = refl
length-take_le (suc n) [] h = absurd (omega (arith, h))
length-take_le (suc n) (x ∷ xs) h = ap suc (length-take_le n xs (omega (arith, h)))

length-range :
    (from to : ℕ) (bytes part : List ℕ) → range from to bytes ≡ done part → length part ≡ to - from
length-range from to bytes part h = elim (Bool-cases (leb to (length bytes))) [
  | inr beyond ↦ absurd (ground (arith, beyond, h))
  | inl within ↦
      let same : part ≡ take (to - from) (drop from bytes) = ground (arith, within, h) in
      rw same (
        length-take_le (to - from) (drop from bytes)
          (ground (arith, within, length-drop from bytes)))
]

ensure-leb : (a b : ℕ) (u : Unit {0}) → ensure (leb a b) ≡ done u → a ≤ b
ensure-leb a b u h = ground (arith, h)

-- A message is signed only if it has at most 65535 bytes, and the signature, which stands behind the two
-- bytes of the answer's type, has 64 bytes.
pub sign_message_lem :
    {M : Type 0} (hsm : Hsm M) (msg sig : List ℕ) (recovery_id : ℕ)
    → sign_message hsm msg ≡ done (sig, recovery_id)
    → (length msg ≤ 65535) × (length sig ≡ 64)
unfolding sign_message
sign_message_lem hsm msg sig recovery_id h =
    let (u, short, h1) = >>=-eq-done (ensure (leb (length msg) 65535)) _ h in
    let (w, made, h2) = >>=-eq-done (ensure hsm.ready) _ h1 in
    let (complete_sig, signed, h3) = >>=-eq-done (unwrap (hsm.sign msg)) _ h2 in
    let (part, cut, h4) = >>=-eq-done (range 2 66 complete_sig) _ h3 in
    let (id, last, h5) = >>=-eq-done (index 66 complete_sig) _ h4 in
    let same : sig ≡ part = ap (λ p. p.0) (done_injective _ (sig, recovery_id) h5) in
    (ensure-leb (length msg) 65535 u short, rw same (length-range 2 66 complete_sig part cut))

map-zip_messages :
    (rs as_ : List (List ℕ))
    → length rs ≡ length as_
    → (map (λ m. m.request) (zip_messages rs as_) ≡ rs)
      × (map (λ m. m.response) (zip_messages rs as_) ≡ as_)
unfolding zip_messages
map-zip_messages [] [] h = (refl, refl)
map-zip_messages [] (a ∷ as_) h = absurd (omega (arith, h))
map-zip_messages (r ∷ rs) [] h = absurd (omega (arith, h))
map-zip_messages (r ∷ rs) (a ∷ as_) h =
    let (e, g) = map-zip_messages rs as_ (omega (arith, h)) in
    (ap (λ l. r ∷ l) e, ap (λ l. a ∷ l) g)

handle_all_lem :
    {M : Type 0} (hsm : Hsm M) (as_vec : M → List ℕ) (requests : List M) (responses : List (List ℕ))
    → handle_all hsm requests ≡ done responses
    → (length (as_vecs as_vec requests) ≡ length responses)
      × (map some responses ≡ map hsm.handle requests)
unfolding handle_all as_vecs
handle_all_lem hsm as_vec [] responses h =
    let none_left : responses ≡ [] = ground (arith, h) in rw none_left (refl, refl)
handle_all_lem hsm as_vec (m ∷ ms) responses h =
    let (u, made, h1) = >>=-eq-done (assert hsm.ready) _ h in
    let (response, handled, h2) = >>=-eq-done (unwrap (hsm.handle m)) _ h1 in
    let (later, rest, h3) = >>=-eq-done (handle_all hsm ms) _ h2 in
    let all = done_injective _ responses h3 in
    let (len, answered) = handle_all_lem hsm as_vec ms later rest in
    let one : hsm.handle m ≡ some response = ground (arith, handled) in
    rw (all, one) (ap suc len, ap (λ l. some response ∷ l) answered)

-- The startup messages are the init request and then the other requests in their order, each with what
-- the handler answers to it.
pub get_startup_messages_lem :
    {M : Type 0} (hsm : Hsm M) (as_vec : M → List ℕ) (initreq : M)
    (init_reply : Option (Option (List ℕ))) (requests : List M) (messages : List StartupMessage)
    → get_startup_messages hsm as_vec initreq init_reply requests ≡ done messages
    → (responses : List (List ℕ)) × ((reply : Option (List ℕ)) × (init_reply ≡ some reply)
        × (map some responses ≡ map hsm.handle requests)
        × (map (λ m. m.request) messages ≡ as_vec initreq ∷ as_vecs as_vec requests)
        × (map (λ m. m.response) messages ≡ (elim reply [ none ↦ [] | some r ↦ r ]) ∷ responses))
unfolding get_startup_messages
get_startup_messages_lem hsm as_vec initreq init_reply requests messages h =
    let (reply, replied, h1) = >>=-eq-done (unwrap init_reply) _ h in
    let (responses, handled, h2) = >>=-eq-done (handle_all hsm requests) _ h1 in
    let (len, answered) = handle_all_lem hsm as_vec requests responses handled in
    let (asked, told) = map-zip_messages (as_vecs as_vec requests) responses len in
    let all = done_injective _ messages h2 in
    (
      responses,
      (reply, ground (arith, replied), answered, rw (all, asked) refl, rw (all, told) refl),
    )
