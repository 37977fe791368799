-- ===== src/Plugin/Layer/Tests.antt =====
-- A signed call in two chunks while another is pending.
use greenlight.Prelude.{
  ℕ, ◌≡◌, refl, sym, ap, ◌∙◌, Option, none, some, List, [], ◌∷◌, ◌++◌, map, codes,
}
use greenlight.Prelude.Run.{done, panic}
use greenlight.Tlv.Proto.{get_uint, from_be}
use greenlight.Plugin.Context.{Request, snapshot, add_request}
use greenlight.Plugin.Layer.{
  HttpRequest, Base64, Layer, pending, timestamp_of, buffer, record_call, dispatch, enter, leave,
}
use greenlight.Plugin.Layer.Pending.{leave-enter}

-- Headers that are their own decoding.
abbrev plain : Base64
plain = record { standard_no_pad = some; url_safe = some }

abbrev call : List ℕ → Request
call sig = record {
  pubkey = codes "k";
  signature = sig;
  rune = codes "r";
  payload = codes "abc";
  uri = codes "/cln.Node/Pay";
  timestamp = some 7;
}

abbrev chunks : List (List ℕ)
chunks = codes "ab" ∷ codes "c" ∷ []

abbrev request : HttpRequest
request = record {
  uri = some (codes "/cln.Node/Pay");
  glauthpubkey = some (codes "k");
  glauthsig = some (codes "s");
  glts = some (0 ∷ 0 ∷ 0 ∷ 0 ∷ 0 ∷ 0 ∷ 0 ∷ 7 ∷ []);
  glrune = some (codes "r");
  body = map some chunks;
}

abbrev layer : Layer
layer = record { ctx = record { requests = call (codes "t") ∷ [] }; rpc_calls = [] }

abbrev entered : Layer
entered = record {
  ctx = record { requests = call (codes "t") ∷ call (codes "s") ∷ [] };
  rpc_calls = codes "/cln.Node/Pay" ∷ [];
}

enter_run : enter plain request layer ≡ done (pending (call (codes "s")) (codes "abc"), entered)
unfolding enter timestamp_of dispatch buffer record_call get_uint from_be add_request
enter_run = refl

leave-enter_example :
    snapshot
      (leave (pending (call (codes "s")) (codes "abc")) (record entered {
        ctx = record { requests = entered.ctx.requests ++ call (codes "u") ∷ [] };
      })).ctx
    ≡ snapshot layer.ctx ++ call (codes "u") ∷ []
unfolding greenlight.Prelude.bytes_eq
leave-enter_example =
    leave-enter plain request (codes "/cln.Node/Pay") chunks layer _ entered (call (codes "u") ∷ [])
      refl refl enter_run
      λ sig same. let e : codes "s" ≡ sig = cc same in rw (← e) ((refl, tt), (refl, tt))

-- A timestamp of fewer than eight bytes ends the call with a panic.
short_timestamp : enter plain (record request { glts = some (1 ∷ []) }) layer ≡ panic
unfolding enter timestamp_of get_uint
short_timestamp = refl
