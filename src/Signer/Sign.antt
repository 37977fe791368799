-- ===== src/Signer/Sign.antt =====
-- What the user's own device may sign: `sign_message`, `sign_challenge`, `sign_device_key` and
-- `sign_invoice` of libs/gl-client/src/signer/mod.rs, and the bytes of the init message. The handler of
-- VLS is a parameter: whether it could be made, and what it answers.
pub mod Lengths
use greenlight.Prelude.{
  ℕ, ◌+◌, ◌-◌, ◌==◌, Bool, true, false, not, Option, none, some, List, [], ◌∷◌, if◌then◌else◌,
  length, take, drop, leb, ltb,
}
use greenlight.Prelude.Run.{Run, done, fail, panic, ◌>>=◌, assert, ensure, ok_or, unwrap}

-- `ready` is `self.handler()`; `sign` handles a `SignMessage`, `from_vec` parses a message and `handle`
-- handles it.
pub record Hsm (M : Type 0) : Type 0 where
  pub ready : Bool
  pub sign : List ℕ → Option (List ℕ)
  pub from_vec : List ℕ → Option M
  pub handle : M → Option (List ℕ)

-- `bytes[from..to]` and `bytes[i]`, which panic beyond the end.
abbrev pub range : ℕ → ℕ → List ℕ → Run (List ℕ)
range from to bytes =
    if leb to (length bytes) then done (take (to - from) (drop from bytes)) else panic

abbrev pub index : ℕ → List ℕ → Run ℕ
index i bytes = elim (drop i bytes) [ [] ↦ panic | b ∷ rest ↦ done b ]

-- The signature and the recovery id. A failure to sign panics.
unfoldable pub sign_message : {M : Type 0} → Hsm M → List ℕ → Run (List ℕ × ℕ)
sign_message hsm msg = do
  short ← ensure (leb (length msg) 65535)
  made ← ensure hsm.ready
  complete_sig ← unwrap (hsm.sign msg)
  sig ← range 2 66 complete_sig
  recovery_id ← index 66 complete_sig
  done (sig, recovery_id)

unfoldable pub sign_challenge : {M : Type 0} → Hsm M → List ℕ → Run (List ℕ)
sign_challenge hsm challenge = do
  right ← ensure (length challenge == 32)
  signed ← sign_message hsm challenge
  done signed.0

unfoldable pub sign_device_key : {M : Type 0} → Hsm M → List ℕ → Run (List ℕ)
sign_device_key hsm key = do
  right ← ensure (length key == 65)
  signed ← sign_message hsm key
  done signed.0

unfoldable pub sign_invoice : {M : Type 0} → Hsm M → List ℕ → Run (List ℕ)
sign_invoice hsm msg = do
  short ← ensure (leb (length msg) 65535)
  made ← ensure hsm.ready
  parsed ← ok_or (hsm.from_vec msg)
  sig ← ok_or (hsm.handle parsed)
  range 2 67 sig

-- `response` is the answer to the legacy init message, if it could be handled.
unfoldable pub legacy_bip32_ext_key : Bool → Option (List ℕ) → List ℕ
legacy_bip32_ext_key ready response =
    if ready
    then elim response [
      | none ↦ []
      | some initmsg ↦ if leb (length initmsg) 35 then [] else drop 35 initmsg
    ]
    else []

-- `init_reply` is the answer to `initreq`: none if it could not be handled, and it may be empty.
-- `requests` are the messages that lightningd asks at the start, and `as_vec` their bytes.
pub record StartupMessage : Type 0 where
  pub request : List ℕ
  pub response : List ℕ

unfoldable pub handle_all : {M : Type 0} → Hsm M → List M → Run (List (List ℕ))
handle_all hsm [] = done []
handle_all hsm (m ∷ ms) = do
  made ← assert hsm.ready
  response ← unwrap (hsm.handle m)
  responses ← handle_all hsm ms
  done (response ∷ responses)

unfoldable pub zip_messages : List (List ℕ) → List (List ℕ) → List StartupMessage
zip_messages [] responses = []
zip_messages (r ∷ rs) [] = []
zip_messages (r ∷ rs) (a ∷ as_) = (record { request = r; response = a }) ∷ zip_messages rs as_

unfoldable pub as_vecs : {M : Type 0} → (M → List ℕ) → List M → List (List ℕ)
as_vecs as_vec [] = []
as_vecs as_vec (m ∷ ms) = as_vec m ∷ as_vecs as_vec ms

unfoldable pub get_startup_messages :
    {M : Type 0}
    → Hsm M
    → (M → List ℕ)
    → M
    → Option (Option (List ℕ))
    → List M
    → Run (List StartupMessage)
get_startup_messages hsm as_vec initreq init_reply requests = do
  reply ← unwrap init_reply
  responses ← handle_all hsm requests
  let init : StartupMessage = record {
    request = as_vec initreq;
    response = elim reply [ none ↦ [] | some r ↦ r ];
  }
  done (init ∷ zip_messages (as_vecs as_vec requests) responses)
