-- ===== src/Proxy/Requests/Ids.antt =====
-- The ids of the requests of all connections.
use greenlight.Prelude.{
  ℕ, ◌+◌, ◌^◌, ◌≤◌, ◌<◌, ◌≡◌, refl, sym, ap, Option, none, some, List, [], ◌∷◌, ◌++◌, arith, length,
  if◌then◌else◌,
}
use greenlight.Proxy.Wire.{HsmRequestContext}
use greenlight.Proxy.Requests.{
  NodeConnection, Round, Action, forwarded, replied, Served, start_client, forward, serve, Proxy,
  step_served, served_at, nothing_served, get_elem?, run,
}

-- The ids of the forwarded requests.
unfoldable pub ids : List Action → List ℕ
ids [] = []
ids (forwarded q ∷ actions) = q.request_id ∷ ids actions
ids (replied m ∷ actions) = ids actions

ids-append : (as_ bs : List Action) → ids (as_ ++ bs) ≡ ids as_ ++ ids bs
unfolding ids
ids-append [] bs = refl
ids-append (forwarded q ∷ as_) bs = ap (λ l. q.request_id ∷ l) (ids-append as_ bs)
ids-append (replied m ∷ as_) bs = ids-append as_ bs

-- `n`, `n + 1` and so on, as many as `l` has members.
abbrev pub Counts : ℕ → List ℕ → Type 0
Counts n [] = Unit
Counts n (x ∷ l) = (x ≡ n) × Counts (n + 1) l

Counts-append : (n : ℕ) (k l : List ℕ) → Counts n k → Counts (n + length k) l → Counts n (k ++ l)
Counts-append n [] l h g = ground (arith, g)
Counts-append n (x ∷ k) l (e, h) g = (e, Counts-append (n + 1) k l h (ground (arith, g)))

-- One round forwards at most one request, with the counter as its id.
abbrev Forwards : ℕ → Served → Type 0
Forwards n d = Counts n (ids d.actions) × (d.counter ≡ n + length (ids d.actions))

serve-Forwards :
    (context : Option HsmRequestContext) (r : Round) (n : ℕ)
    → n + 1 < 2 ^ 32
    → Forwards n (serve context r n)
unfolding serve start_client forward ids
serve-Forwards context r n h = ground (arith, h)

served_at-Forwards :
    (i : ℕ) (r : Round) (p : Proxy) → p.counter + 1 < 2 ^ 32 → Forwards p.counter (served_at i r p)
unfolding served_at ids
served_at-Forwards i r p h = found (get_elem? p.connections i)
  where
    found :
        (o : Option NodeConnection)
        → Forwards p.counter (elim o [
          | none ↦ nothing_served p.counter
          | some c ↦ if c.running then serve c.context r p.counter else nothing_served p.counter
        ])
    found none = ground arith
    found (some c) = ground (arith, serve-Forwards c.context r p.counter h)

served_at-length : (i : ℕ) (r : Round) (p : Proxy) → length (ids (served_at i r p).actions) ≤ 1
unfolding served_at serve start_client forward ids
served_at-length i r p = ground arith

-- In a run of all connections, in whatever order their rounds come, the requests have the ids that
-- follow on the counter, as long as the counter stays below 2 ^ 32.
pub run-Counts :
    (rounds : List (ℕ × Round)) (p : Proxy)
    → p.counter + length rounds < 2 ^ 32
    → Counts p.counter (ids (run rounds p))
unfolding run step_served ids
run-Counts [] p h = tt
run-Counts ((i, r) ∷ rounds) p h =
    let d = served_at i r p in
    let (counted, next) = served_at-Forwards i r p (omega (arith, h)) in
    let later =
      run-Counts rounds (step_served i d p) (omega (arith, h, next, served_at-length i r p)) in
    rw (ids-append d.actions (run rounds (step_served i d p)))
      (Counts-append p.counter (ids d.actions) _ counted (rw (sym next) later))
