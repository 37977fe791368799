-- ===== src/Signer/Process/Returns.antt =====
-- When the signer comes to a result.
use greenlight.Prelude.{ℕ, ◌≡◌, List, ◌∷◌}
use greenlight.Signer.Model.{PendingRequest}

-- An uncompressed gRPC frame: a flag that is off, a length, and the payload.
abbrev pub IsFramed : PendingRequest → Type 0
IsFramed r = (a b c d : ℕ) × ((payload : List ℕ) × (r.request ≡ 0 ∷ a ∷ b ∷ c ∷ d ∷ payload))
