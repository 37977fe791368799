-- ===== src/Plugin/Context/Pending.antt =====
-- A call is pending from when it was added until it is removed.
use greenlight.Prelude.{
  ℕ, ◌≡◌, ◌∙◌, refl, false, List, [], ◌∷◌, ◌++◌, bytes_eq, bytes_eq_refl, arith, All,
}
use mathlib.Core.List.{append-nil}
use greenlight.Plugin.Context.{Request, Context, snapshot, add_request, retain, remove_request}

retain_others :
    (signature : List ℕ) (l : List Request)
    → All (λ a. bytes_eq a.signature signature ≡ false) l
    → retain signature l ≡ l
unfolding retain
retain_others signature [] h = refl
retain_others signature (a ∷ l) h = ground (arith, h.0, retain_others signature l h.1)

retain-append :
    (signature : List ℕ) (l k : List Request)
    → retain signature (l ++ k) ≡ retain signature l ++ retain signature k
unfolding retain
retain-append signature [] k = refl
retain-append signature (a ∷ l) k = ground (arith, retain-append signature l k)

retain_own : (r : Request) → retain r.signature (r ∷ []) ≡ []
unfolding retain
retain_own r = ground (arith, bytes_eq_refl r.signature)

-- What is left after a call was added and removed again, while other calls came in between: the calls
-- from before and those from between, in their order, if none of them has the call's signature.
pub snapshot-remove_request :
    (r : Request) (c : Context) (between : List Request)
    → All (λ a. bytes_eq a.signature r.signature ≡ false) c.requests
    → All (λ a. bytes_eq a.signature r.signature ≡ false) between
    → snapshot (remove_request r (record { requests = (add_request r c).requests ++ between }))
      ≡ snapshot c ++ between
unfolding snapshot remove_request add_request
snapshot-remove_request r c between h k =
    retain-append r.signature (c.requests ++ r ∷ []) between
    ∙ rw
        (
          retain-append r.signature c.requests (r ∷ []),
          retain_own r,
          retain_others r.signature c.requests h,
          retain_others r.signature between k,
          append-nil c.requests,
        )
        refl
