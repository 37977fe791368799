-- ===== src/Plugin/Wrapper/Methods.antt =====
-- The methods of `WrappedNodeServer` by their names, and where their calls go.
pub mod Tables
pub mod MoreTables
pub mod Dispatch
mod Tests
use greenlight.Prelude.{ℕ, Option, none, some, List, [], ◌∷◌, bytes_eq, if◌then◌else◌}

-- Passed on to core-lightning's server or to the node's own service, under a method's name; done here; or
-- `unimplemented!()`.
pub data Handler : Type 0 where
  inner node_server : List ℕ → Handler
  own missing : Handler

unfoldable pub find_handler : List ℕ → List (List ℕ × Handler) → Option Handler
find_handler name [] = none
find_handler name ((method, h) ∷ methods) =
    let rest = find_handler name methods in if bytes_eq method name then some h else rest
