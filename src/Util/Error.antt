-- ===== src/Util/Error.antt =====
-- The error type of libs/gl-util/src/error.rs and its way through a gRPC status. serde_json and the
-- printing of numbers are parameters; an error that is the source of another is its text.
pub mod Transfer
mod Tests
use greenlight.Prelude.{ℕ, Option, none, some, List, [], ◌∷◌, ◌++◌, ℤ, codes}
use greenlight.Prelude.Outcome.{Result, ok, err, ◌>>=◌, ok_or}

-- `ErrorCode` and `ErrorStatusConversionExt`; `S` is `tonic::Code`.
pub record ErrorCode (C S : Type 0) : Type 0 where
  pub code : C → ℤ
  pub from_code : ℤ → Option C
  pub status_code : C → S

pub record GrpcErrorDetails : Type 0 where
  pub code : ℤ
  pub hint : Option (List ℕ)

pub record GrpcErrorInfo (S : Type 0) : Type 0 where
  pub code : ℤ
  pub message : List ℕ
  pub hint : Option (List ℕ)
  pub grpc_code : S

-- `tonic::Status`
pub record Status (S : Type 0) : Type 0 where
  pub code : S
  pub message : List ℕ
  pub details : List ℕ

pub record Error (C : Type 0) : Type 0 where
  pub code : C
  pub message : List ℕ
  pub hint : Option (List ℕ)
  pub context : Option (List ℕ)
  pub source : Option (List ℕ)

-- Writing may fail.
pub record Json : Type 0 where
  pub to_vec : GrpcErrorDetails → Option (List ℕ)
  pub from_slice : List ℕ → Option GrpcErrorDetails
  pub decimal : ℤ → List ℕ

pub data ParsingError : Type 0 where
  no_details : ParsingError
  unknown_code : ℤ → ParsingError

abbrev pub new : {C : Type 0} → C → List ℕ → Error C
new code message = record {
  code = code;
  message = message;
  hint = none;
  context = none;
  source = none;
}

abbrev pub with_hint : {C : Type 0} → Error C → List ℕ → Error C
with_hint e hint = record e { hint = some hint }

abbrev pub with_context : {C : Type 0} → Error C → List ℕ → Error C
with_context e context = record e { context = some context }

abbrev pub with_source : {C : Type 0} → Error C → List ℕ → Error C
with_source e source = record e { source = some source }

abbrev pub map_code : {C T : Type 0} → Error C → T → Error T
map_code e new_code = record {
  code = new_code;
  message = e.message;
  hint = e.hint;
  context = e.context;
  source = e.source;
}

-- The text that stands for details that could not be written.
unfoldable pub fallback : Json → ℤ → List ℕ → List ℕ
fallback json code message =
    codes "{\"code\":"
    ++ (json.decimal code ++ (codes ",\"message\":\"" ++ (message ++ codes "\"}")))

unfoldable pub to_status : {C S : Type 0} → ErrorCode C S → Json → Error C → Status S
to_status ec json value =
    let code = ec.code value.code in
    record {
      code = ec.status_code value.code;
      message = value.message;
      details = elim (json.to_vec (record { code = code; hint = value.hint })) [
        | some bytes ↦ bytes
        | none ↦ fallback json code value.message
      ];
    }

unfoldable pub info_of : {S : Type 0} → Json → Status S → Result ParsingError (GrpcErrorInfo S)
info_of json value = do
  parsed ← ok_or no_details (json.from_slice value.details)
  ok (record {
    code = parsed.code;
    message = value.message;
    hint = parsed.hint;
    grpc_code = value.code;
  })

unfoldable pub try_from :
    {C S : Type 0} → ErrorCode C S → Json → Status S → Result ParsingError (Error C)
try_from ec json value = do
  grpc_err ← info_of json value
  code ← ok_or (unknown_code grpc_err.code) (ec.from_code grpc_err.code)
  ok (record {
    code = code;
    message = grpc_err.message;
    hint = grpc_err.hint;
    context = none;
    source = none;
  })
