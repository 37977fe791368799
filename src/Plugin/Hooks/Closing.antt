-- ===== src/Plugin/Hooks/Closing.antt =====
-- Where a new channel pays out to: what was configured.
use greenlight.Prelude.{
  ℕ, ◌≤◌, ◌≡◌, refl, Bool, true, false, Option, some, List, ◌∷◌, drop, length, codes, ltb, arith,
}
use greenlight.Prelude.Run.{done}
use greenlight.Plugin.Context.{Request}
use greenlight.Plugin.Node.{Node, Json, configure}
use greenlight.Plugin.Node.Configure.{configure_lem}
use greenlight.Plugin.Hooks.{
  behind_prefix, parse_gl_config_from_serialized_request, first_text, close_to_of, on_openchannel,
}

behind_prefix_long :
    (request : List ℕ) → 5 ≤ length request → behind_prefix request ≡ done (drop 5 request)
unfolding behind_prefix
behind_prefix_long request h =
    let long : ltb (length request) 5 ≡ false = ground arith in rw long refl

-- After a configuration that succeeds, a channel is opened with the address that is decoded from the
-- call that was the first of the pending ones during the configuration, whichever call that is. Its text,
-- which the datastore has first, is read back as it was written, and its payload has five bytes or more.
pub on_openchannel-configure :
    {V N : Type 0} (json : Json) (decode : List ℕ → Option (List ℕ)) (network : Option N)
    (is_valid : N → Bool) (datastored : Bool) (node node' : Node V) (oldest : Request)
    (later : List Request) (text : List ℕ) (others : List (Option (List ℕ)))
    → node.ctx.requests ≡ oldest ∷ later
    → configure json network is_valid datastored node ≡ done node'
    → node'.cached_gl_config ≡ some text
    → json.from_str (json.to_string oldest) ≡ some oldest
    → 5 ≤ length oldest.payload
    → on_openchannel json decode true (some (some text ∷ others))
      ≡ done (record { result = codes "continue"; close_to = decode (drop 5 oldest.payload) })
unfolding on_openchannel first_text close_to_of parse_gl_config_from_serialized_request
on_openchannel-configure json decode network is_valid datastored node node' oldest later text others
      pending h cached back long =
    let (same_ctx, kept) =
      configure_lem json network is_valid datastored node node' oldest later pending h in
    let same : text ≡ json.to_string oldest = cc (cached, kept) in
    rw (same, back, behind_prefix_long oldest.payload long) refl
