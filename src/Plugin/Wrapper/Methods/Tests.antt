-- ===== src/Plugin/Wrapper/Methods/Tests.antt =====
-- Some methods by name.
use greenlight.Prelude.{◌≡◌, refl, some, bytes_eq, codes}
use greenlight.Plugin.Wrapper.Methods.{inner, missing, find_handler}
use greenlight.Plugin.Wrapper.Methods.Dispatch.{handler_of}

pay_run : handler_of (codes "pay") ≡ some (inner (codes "pay"))
unfolding handler_of find_handler bytes_eq
pay_run = refl

subscription : handler_of (codes "subscribe_connect") ≡ some missing
unfolding handler_of find_handler bytes_eq
subscription = refl
