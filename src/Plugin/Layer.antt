-- ===== src/Plugin/Layer.antt =====
-- `SignatureContextService` of libs/gl-plugin/src/node/mod.rs: the layer in front of the node's services,
-- which keeps a call in the context of pending calls while it is handled. What the layer does before
-- the inner service is called is `enter`, and what it does afterwards `leave`: other calls come and go in
-- between. The decoders of base64 are parameters.
pub mod Buffered
pub mod Pending
mod Tests
use greenlight.Prelude.{ℕ, ◌+◌, Option, none, some, List, [], ◌∷◌, ◌++◌, if◌then◌else◌, ltb, length}
use greenlight.Prelude.Run.{Run, done, panic, unwrap, ◌>>=◌}
use greenlight.Tlv.Proto.{get_uint}
use greenlight.Plugin.Context.{Context, Request, add_request, remove_request}

-- The headers are as they came; a chunk of the body is absent where reading it failed.
pub record HttpRequest : Type 0 where
  pub uri : Option (List ℕ)
  pub glauthpubkey : Option (List ℕ)
  pub glauthsig : Option (List ℕ)
  pub glts : Option (List ℕ)
  pub glrune : Option (List ℕ)
  pub body : List (Option (List ℕ))

pub record Base64 : Type 0 where
  pub standard_no_pad : List ℕ → Option (List ℕ)
  pub url_safe : List ℕ → Option (List ℕ)

-- `rpc_calls` are the URIs that were broadcast.
pub record Layer : Type 0 where
  pub ctx : Context
  pub rpc_calls : List (List ℕ)

-- How the inner service is called: not at all, with the body as it comes, or with the buffered body of a
-- call that is in the context.
pub data Entered : Type 0 where
  too_large : Entered
  unsigned : List (Option (List ℕ)) → Entered
  pending : Request → List ℕ → Entered

-- `get(..).and_then(|k| decode(k).ok())`
abbrev pub header : (List ℕ → Option (List ℕ)) → Option (List ℕ) → Option (List ℕ)
header decode none = none
header decode (some k) = decode k

-- `get_u64` panics on fewer than eight bytes.
unfoldable pub timestamp_of : Option (List ℕ) → Run (Option ℕ)
timestamp_of none = done none
timestamp_of (some s) = do (t, rest) ← get_uint 8 s; done (some t)

abbrev pub max_message_size : ℕ
max_message_size = 4000000

-- The loop over the chunks; `none` is a body that is too large.
unfoldable pub buffer : List ℕ → List (Option (List ℕ)) → Run (Option (List ℕ))
buffer buf [] = done (some buf)
buffer buf (none ∷ chunks) = panic
buffer buf (some chunk ∷ chunks) =
    let rest = buffer (buf ++ chunk) chunks in
    if ltb max_message_size (length buf + length chunk) then done none else rest

-- All three headers, or none.
abbrev pub credentials :
    Option (List ℕ) → Option (List ℕ) → Option (List ℕ) → Option (List ℕ × List ℕ × List ℕ)
credentials (some pk) (some sig) (some rune) = some (pk, sig, rune)
credentials none sig rune = none
credentials (some pk) none rune = none
credentials (some pk) (some sig) none = none

unfoldable pub record_call :
    List ℕ → Option ℕ → (List ℕ × List ℕ × List ℕ) → Option (List ℕ) → Layer → Entered × Layer
record_call uri timestamp headers none layer = (too_large, layer)
record_call uri timestamp (pk, sig, rune) (some buf) layer =
    let req : Request = record {
      pubkey = pk;
      signature = sig;
      rune = rune;
      payload = buf;
      uri = uri;
      timestamp = timestamp;
    } in
    (pending req buf, record layer { ctx = add_request req layer.ctx })

unfoldable pub dispatch :
    List ℕ
    → Option ℕ
    → Option (List ℕ × List ℕ × List ℕ)
    → List (Option (List ℕ))
    → Layer
    → Run (Entered × Layer)
unfolding buffer
dispatch uri timestamp none body layer = done (unsigned body, layer)
dispatch uri timestamp (some headers) body layer = do
  buf ← buffer [] body
  done (record_call uri timestamp headers buf layer)

unfoldable pub enter : Base64 → HttpRequest → Layer → Run (Entered × Layer)
unfolding timestamp_of record_call
enter b request layer = do
  uri ← unwrap request.uri
  timestamp ← timestamp_of (header b.standard_no_pad request.glts)
  dispatch uri timestamp
      (credentials (header b.standard_no_pad request.glauthpubkey)
        (header b.standard_no_pad request.glauthsig) (header b.url_safe request.glrune))
      request.body (record layer { rpc_calls = layer.rpc_calls ++ uri ∷ [] })

-- After the inner service has answered.
unfoldable pub leave : Entered → Layer → Layer
leave too_large layer = layer
leave (unsigned body) layer = layer
leave (pending req buf) layer = record layer { ctx = remove_request req layer.ctx }
