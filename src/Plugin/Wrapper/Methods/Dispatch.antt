-- ===== src/Plugin/Wrapper/Methods/Dispatch.antt =====
-- Every call that is passed on is passed on under its own name.
use greenlight.Prelude.{
  ℕ, ◌≡◌, refl, Bool, true, Option, some, List, [], ◌∷◌, ◌++◌, ◌&&◌, ◌||◌, codes, bytes_eq,
  bytes_eq→eq, starts_with, arith, Any,
}
use greenlight.Plugin.Wrapper.Methods.{Handler, inner, node_server, own, missing, find_handler}
use greenlight.Plugin.Wrapper.Methods.Tables.{
  info_methods, payment_methods, wallet_methods, offer_methods,
}
use greenlight.Plugin.Wrapper.Methods.MoreTables.{
  funding_methods, config_methods, rune_methods, subscription_methods, greenlight_methods,
}

abbrev pub methods : List (List ℕ × Handler)
methods =
    info_methods
    ++ (payment_methods
        ++ (wallet_methods
            ++ (offer_methods
                ++ (funding_methods
                    ++ (config_methods
                        ++ (rune_methods ++ (subscription_methods ++ greenlight_methods)))))))

unfoldable pub handler_of : List ℕ → Option Handler
handler_of name = find_handler name methods

abbrev pub IsOwn : List ℕ → Type 0
IsOwn name =
    Any (λ n. n ≡ name) (codes "invoice" ∷ codes "disconnect" ∷ codes "stream_hsm_requests" ∷ [])

-- What a method's handler has to be.
abbrev pub IsProper : List ℕ → Handler → Type 0
IsProper name (inner method) = method ≡ name
IsProper name (node_server method) = method ≡ name
IsProper name own = IsOwn name
IsProper name missing = starts_with name (codes "subscribe_") ≡ true

is_own : List ℕ → Bool
is_own name =
    bytes_eq (codes "invoice") name
    || bytes_eq (codes "disconnect") name
    || bytes_eq (codes "stream_hsm_requests") name

is_proper : List ℕ → Handler → Bool
unfolding is_own
is_proper name (inner method) = bytes_eq method name
is_proper name (node_server method) = bytes_eq method name
is_proper name own = is_own name
is_proper name missing = starts_with name (codes "subscribe_")

are_proper : List (List ℕ × Handler) → Bool
unfolding is_proper
are_proper [] = true
are_proper ((name, h) ∷ rest) = is_proper name h && are_proper rest

is_own-IsOwn : (name : List ℕ) → is_own name ≡ true → IsOwn name
unfolding is_own
is_own-IsOwn name h = ground (
  arith,
  bytes_eq→eq (codes "invoice") name,
  bytes_eq→eq (codes "disconnect") name,
  bytes_eq→eq (codes "stream_hsm_requests") name,
)

is_proper-IsProper : (name : List ℕ) (h : Handler) → is_proper name h ≡ true → IsProper name h
unfolding is_proper
is_proper-IsProper name (inner method) p = bytes_eq→eq method name p
is_proper-IsProper name (node_server method) p = bytes_eq→eq method name p
is_proper-IsProper name own p = is_own-IsOwn name p
is_proper-IsProper name missing p = p

find_handler-proper :
    (table : List (List ℕ × Handler)) (name : List ℕ) (h : Handler)
    → are_proper table ≡ true
    → find_handler name table ≡ some h
    → is_proper name h ≡ true
unfolding are_proper find_handler
find_handler-proper [] name h p e = cc e
find_handler-proper ((method, g) ∷ rest) name h p e =
    ground (arith, find_handler-proper rest name h, bytes_eq→eq method name)

all_proper : are_proper methods ≡ true
unfolding are_proper starts_with bytes_eq
all_proper = refl

-- A method is passed on to the same method of core-lightning's server or of the node's service, or it is
-- `invoice`, `disconnect` or `stream_hsm_requests`, or it is not implemented and a subscription.
pub handler_of_lem : (name : List ℕ) (h : Handler) → handler_of name ≡ some h → IsProper name h
unfolding handler_of
handler_of_lem name h e =
    is_proper-IsProper name h (find_handler-proper methods name h all_proper e)
