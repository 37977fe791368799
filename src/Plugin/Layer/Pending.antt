-- ===== src/Plugin/Layer/Pending.antt =====
-- A call that is signed is in the context while it is handled, with its whole body, and no longer.
use greenlight.Prelude.{
  ℕ, ◌≤◌, ◌<◌, ◌≡◌, ◌≢◌, ◌∙◌, refl, sym, ap, false, Option, none, some, List, [], ◌∷◌, ◌++◌, map,
  if◌then◌else◌, ltb, length, arith, Bool-cases, inl, inr, All, bytes_eq,
}
use greenlight.Prelude.Run.{done, unwrap, done_injective, >>=-eq-done}
use greenlight.Plugin.Context.{Request, Context, snapshot, add_request, remove_request}
use greenlight.Plugin.Context.Pending.{snapshot-remove_request}
use greenlight.Plugin.Layer.{
  HttpRequest, Base64, Layer, Entered, too_large, unsigned, pending, header, timestamp_of,
  max_message_size, buffer, credentials, record_call, dispatch, enter, leave,
}
use greenlight.Plugin.Layer.Buffered.{whole, buffer_lem}

-- How the call of a URI with these headers and chunks is handled, and the context it is handled in.
abbrev pub IsHandled :
    List ℕ
    → Option (List ℕ × List ℕ × List ℕ)
    → List (List ℕ)
    → Context
    → Context
    → Entered
    → Type 0
IsHandled uri headers chunks ctx ctx' too_large =
    (headers ≢ none) × (max_message_size < length (whole chunks)) × (ctx' ≡ ctx)
IsHandled uri headers chunks ctx ctx' (unsigned body) =
    (headers ≡ none) × (body ≡ map some chunks) × (ctx' ≡ ctx)
IsHandled uri headers chunks ctx ctx' (pending req buf) =
    (headers ≡ some (req.pubkey, req.signature, req.rune))
    × (req.uri ≡ uri)
    × (req.payload ≡ buf)
    × (buf ≡ whole chunks)
    × (length (whole chunks) ≤ max_message_size)
    × (ctx' ≡ add_request req ctx)

some_present : {A : Type 0} (a : A) → ◌≢◌ {A = Option A} (some a) none
some_present a = cc

record_call_lem :
    (uri : List ℕ) (timestamp : Option ℕ) (headers : List ℕ × List ℕ × List ℕ)
    (chunks : List (List ℕ)) (layer : Layer) (r : Entered × Layer)
    → record_call uri timestamp headers
        (if ltb max_message_size (length (whole chunks)) then none else some (whole chunks))
        layer
      ≡ r
    → IsHandled uri (some headers) chunks layer.ctx r.1.ctx r.0
unfolding record_call
record_call_lem uri timestamp (pk, sig, rune) chunks layer r h =
    elim (Bool-cases (ltb max_message_size (length (whole chunks)))) [
      | inl over ↦ rw (← h, over) (some_present (pk, sig, rune), ground arith, refl)
      | inr fits ↦ rw (← h, fits) (refl, refl, refl, refl, ground arith, refl)
    ]

dispatch_lem :
    (uri : List ℕ) (timestamp : Option ℕ) (headers : Option (List ℕ × List ℕ × List ℕ))
    (chunks : List (List ℕ)) (layer : Layer) (r : Entered × Layer)
    → dispatch uri timestamp headers (map some chunks) layer ≡ done r
    → IsHandled uri headers chunks layer.ctx r.1.ctx r.0
unfolding dispatch
dispatch_lem uri timestamp none chunks layer r h =
    let same : (unsigned (map some chunks), layer) ≡ r = sym (done_injective _ r h) in
    rw (← same) (refl, refl, refl)
dispatch_lem uri timestamp (some headers) chunks layer r h =
    let (buf, buffered, last) = >>=-eq-done (buffer [] (map some chunks)) _ h in
    let all_of = done_injective _ buf (sym (buffer_lem [] chunks refl) ∙ buffered) in
    record_call_lem uri timestamp headers chunks layer r (
      ap (λ o. record_call uri timestamp headers o layer) (sym all_of)
      ∙ sym (done_injective _ r last))

pub enter_lem :
    (b : Base64) (request : HttpRequest) (uri : List ℕ) (chunks : List (List ℕ)) (layer : Layer)
    (e : Entered) (layer' : Layer)
    → request.uri ≡ some uri
    → request.body ≡ map some chunks
    → enter b request layer ≡ done (e, layer')
    → IsHandled uri
        (credentials
          (header b.standard_no_pad request.glauthpubkey)
          (header b.standard_no_pad request.glauthsig)
          (header b.url_safe request.glrune))
        chunks
        layer.ctx
        layer'.ctx
        e
unfolding enter
enter_lem b request uri chunks layer e layer' named readable h =
    let (u, there, h1) = >>=-eq-done (unwrap request.uri) _ h in
    let (timestamp, read, h2) =
      >>=-eq-done (timestamp_of (header b.standard_no_pad request.glts)) _ h1 in
    let same : u ≡ uri = ground (arith, named, there) in
    let ran : dispatch uri timestamp
          (credentials (header b.standard_no_pad request.glauthpubkey)
            (header b.standard_no_pad request.glauthsig) (header b.url_safe request.glrune))
          (map some chunks) (record layer { rpc_calls = layer.rpc_calls ++ u ∷ [] })
        ≡ done (e, layer') =
      rw (← same, ← readable) h2 in
    dispatch_lem uri timestamp _ chunks _ (e, layer') ran

credentials-eq :
    (p s r : Option (List ℕ)) (pk sig rune : List ℕ)
    → credentials p s r ≡ some (pk, sig, rune)
    → s ≡ some sig
credentials-eq none s r pk sig rune h = cc
credentials-eq (some p) none r pk sig rune h = cc
credentials-eq (some p) (some s) none pk sig rune h = cc
credentials-eq (some p) (some s) (some r) pk sig rune h = cc

-- None of the calls has the signature.
abbrev pub IsFresh : List ℕ → List Request → Type 0
IsFresh sig requests = All (λ a. bytes_eq a.signature sig ≡ false) requests

leave_lem :
    (uri : List ℕ) (headers : Option (List ℕ × List ℕ × List ℕ)) (chunks : List (List ℕ))
    (ctx : Context) (e : Entered) (layer' : Layer) (between : List Request)
    → IsHandled uri headers chunks ctx layer'.ctx e
    → ((pk sig rune : List ℕ)
        → headers ≡ some (pk, sig, rune)
        → IsFresh sig ctx.requests × IsFresh sig between)
    → snapshot
        (leave e (record layer' { ctx = record { requests = layer'.ctx.requests ++ between } })).ctx
      ≡ snapshot ctx ++ between
unfolding leave snapshot
leave_lem uri headers chunks ctx too_large layer' between (present, big, same) fresh =
    ap (λ c. c.requests ++ between) same
leave_lem uri headers chunks ctx (unsigned body) layer' between (none_signed, read, same) fresh =
    ap (λ c. c.requests ++ between) same
leave_lem uri headers chunks ctx (pending req buf) layer' between
      (signed, named, held, read, fits, added) fresh =
    let (before, later) = fresh req.pubkey req.signature req.rune signed in
    ap (λ c. (remove_request req (record { requests = c.requests ++ between })).requests) added
    ∙ unfold snapshot in snapshot-remove_request req ctx between before later

-- After a call has been handled the pending calls are those from before and those that came in between,
-- in their order, whether or not the call was signed or refused, if none of them has the signature in
-- the call's headers. The call's body can be read.
pub leave-enter :
    (b : Base64) (request : HttpRequest) (uri : List ℕ) (chunks : List (List ℕ)) (layer : Layer)
    (e : Entered) (layer' : Layer) (between : List Request)
    → request.uri ≡ some uri
    → request.body ≡ map some chunks
    → enter b request layer ≡ done (e, layer')
    → ((sig : List ℕ)
        → header b.standard_no_pad request.glauthsig ≡ some sig
        → IsFresh sig layer.ctx.requests × IsFresh sig between)
    → snapshot
        (leave e (record layer' { ctx = record { requests = layer'.ctx.requests ++ between } })).ctx
      ≡ snapshot layer.ctx ++ between
leave-enter b request uri chunks layer e layer' between named readable h fresh =
    leave_lem uri _ chunks layer.ctx e layer' between
      (enter_lem b request uri chunks layer e layer' named readable h)
      λ pk sig rune signed. fresh sig (credentials-eq _ _ _ pk sig rune signed)
