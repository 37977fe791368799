-- ===== src/Plugin/RpcWait/Tests.antt =====
-- A socket that never appears.
use greenlight.Prelude.{◌+◌, ◌≡◌, refl, false, some}
use greenlight.Plugin.RpcWait.{call, wait}

deadline_run : call (λ t. t + 500) (λ t. false) 12 7 ≡ some 5507
unfolding call wait
deadline_run = refl
