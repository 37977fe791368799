-- ===== src/Client/Service.antt =====
-- `AuthService` of libs/gl-client/src/node/service.rs: the client of a node signs each of its calls. The
-- key pair, base64 and the clock are parameters.
pub mod Signed
mod Tests
use greenlight.Prelude.{ℕ, ◌^◌, Option, none, some, List, [], ◌∷◌, ◌++◌, ltb}
use greenlight.Prelude.Run.{Run, done, panic, ok_or, ensure, ◌>>=◌}
use greenlight.Tlv.Proto.{be_bytes}
use greenlight.Plugin.Layer.{HttpRequest}

-- `rune` is base64 text as it is.
pub record AuthService : Type 0 where
  pub public_key : List ℕ
  pub sign : List ℕ → List ℕ
  pub rune : List ℕ

-- `body.data().await.unwrap().unwrap()`: the first chunk.
abbrev pub first_chunk : List (Option (List ℕ)) → Run (List ℕ)
first_chunk [] = panic
first_chunk (none ∷ body) = panic
first_chunk (some data_ ∷ body) = done data_

-- `time` is in milliseconds, none for a time before 1970; it has to be a `u64`.
unfoldable pub call :
    (List ℕ → List ℕ) → AuthService → Option ℕ → List ℕ → List (Option (List ℕ)) → Run HttpRequest
call encode s time uri body = do
  t ← ok_or time
  payload ← first_chunk body
  fits ← ensure (ltb t (2 ^ 64))
  done (record {
    uri = some uri;
    glauthpubkey = some (encode s.public_key);
    glauthsig = some (encode (s.sign (payload ++ be_bytes 8 t)));
    glts = some (encode (be_bytes 8 t));
    glrune = some s.rune;
    body = some payload ∷ [];
  })
