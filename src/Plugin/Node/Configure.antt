-- ===== src/Plugin/Node/Configure.antt =====
-- Which request `configure` keeps for the signers.
use greenlight.Prelude.{ℕ, ◌≡◌, ◌∙◌, ap, sym, Bool, Option, some, List, [], ◌∷◌, ◌++◌, map, arith}
use greenlight.Prelude.Run.{done, ensure, ok_or, done_injective, >>=-eq-done}
use greenlight.Signer.Process.{HsmRequest, HsmContext}
use greenlight.Plugin.Context.{Request, Context, snapshot}
use greenlight.Plugin.Context
use greenlight.Plugin.Stager
use greenlight.Plugin.Node.{Node, Json, cached_request, outgoing, first, configure}

pub configure_lem :
    {V N : Type 0} (json : Json) (network : Option N) (is_valid : N → Bool) (datastored : Bool)
    (node node' : Node V) (oldest : Request) (later : List Request)
    → node.ctx.requests ≡ oldest ∷ later
    → configure json network is_valid datastored node ≡ done node'
    → (node'.ctx ≡ node.ctx) × (node'.cached_gl_config ≡ some (json.to_string oldest))
unfolding configure snapshot
configure_lem json network is_valid datastored node node' oldest later pending h =
    let (n, known, h1) = >>=-eq-done (ok_or network) _ h in
    let (u, valid, h2) = >>=-eq-done (ensure (is_valid n)) _ h1 in
    let (request, picked, h3) = >>=-eq-done (first node.ctx.requests) _ h2 in
    let (w, kept, h4) = >>=-eq-done (ensure datastored) _ h3 in
    let same : request ≡ oldest = ground (arith, pending, picked) in
    let configured = done_injective _ node' h4 in
    (
      ap (λ m. m.ctx) configured,
      ap (λ m. m.cached_gl_config) configured ∙ ap (λ q. some (json.to_string q)) same,
    )

outgoing-cached :
    {V : Type 0} (to_vec : V → List ℕ) (json : Json) (context : Option HsmContext)
    (r : Stager.Request) (node : Node V) (text : List ℕ) (c : Request) (req : HsmRequest)
    → node.cached_gl_config ≡ some text
    → json.from_str text ≡ some c
    → outgoing to_vec json context r node ≡ done req
    → req.requests ≡ map Context.from node.ctx.requests ++ Context.from c ∷ []
unfolding outgoing cached_request snapshot
outgoing-cached to_vec json context r node text c req cached parsed g =
    let (configured, found, last) = >>=-eq-done (cached_request json node.cached_gl_config) _ g in
    let one : configured ≡ Context.from c ∷ [] = ground (arith, cached, parsed, found) in
    sym (ap (λ q. q.requests) (done_injective req _ (sym last)))
    ∙ ap (λ l. map Context.from node.ctx.requests ++ l) one

-- A staged request that goes to a signer right after a configuration that succeeds, with the same calls
-- pending, carries, behind those, the call that was the first of them during the configuration, whichever
-- call that is. Its text is read back as it was written. A heartbeat is not such a request.
pub outgoing-configure :
    {V N : Type 0} (to_vec : V → List ℕ) (json : Json) (network : Option N) (is_valid : N → Bool)
    (datastored : Bool) (node node' : Node V) (oldest : Request) (later : List Request)
    (context : Option HsmContext) (r : Stager.Request) (req : HsmRequest)
    → json.from_str (json.to_string oldest) ≡ some oldest
    → node.ctx.requests ≡ oldest ∷ later
    → configure json network is_valid datastored node ≡ done node'
    → outgoing to_vec json context r node' ≡ done req
    → req.requests ≡ map Context.from (oldest ∷ later) ++ Context.from oldest ∷ []
outgoing-configure to_vec json network is_valid datastored node node' oldest later context r req
      back pending h g =
    let (same_ctx, cached) =
      configure_lem json network is_valid datastored node node' oldest later pending h in
    outgoing-cached to_vec json context r node' _ oldest req cached back g
    ∙ ap (λ l. map Context.from l ++ Context.from oldest ∷ [])
        (ap (λ c. c.requests) same_ctx ∙ pending)
