-- ===== src/Plugin/Wrapper/RouteHints/Active.antt =====
-- An invoice hints at the channels that can be used, and at no other.
use greenlight.Prelude.{ℕ, ◌≡◌, true, false, All, none, some, List, [], ◌∷◌, Any, ◌≢◌, ◌⊎◌}
use greenlight.Prelude.Run.{Run}
use greenlight.Plugin.Wrapper.RouteHints.{PeerChannel, IncomingChannel, RouteHop, Texts, unwrap_or}

-- The channel is connected and in normal operation, has the id, and the alias is its remote one or, if it
-- has none, the id itself.
abbrev pub IsAlias : ℕ → ℕ → PeerChannel → Type 0
IsAlias scid alias c =
    (c.peer_connected ≡ true)
    × (c.is_normal ≡ true)
    × (c.short_channel_id ≡ some scid)
    × (alias ≡ unwrap_or c.remote scid)

-- The channel is not connected, not in normal operation, or has another id or none.
abbrev pub IsUnusable : ℕ → PeerChannel → Type 0
IsUnusable scid c =
    (c.peer_connected ≡ false) ⊎ (c.is_normal ≡ false) ⊎ (c.short_channel_id ≢ some scid)

-- The hop goes through an incoming channel, under the alias of a channel that can be used.
pub record IsHint (t : Texts) (channels : List PeerChannel) (h : RouteHop) (i : IncomingChannel)
    : Type 0 where
  pub scid : ℕ
  pub alias : ℕ
  pub parsed : t.scid_from_str i.short_channel_id ≡ some scid
  pub active : Any (IsAlias scid alias) channels
  pub named : h.scid ≡ t.scid_fmt alias
  pub node : t.from_hex i.id ≡ some h.id
  pub delta : h.expirydelta ≡ i.cltv_expiry_delta

-- No connected channel in normal operation has the incoming channel's id.
abbrev pub IsInactive : Texts → List PeerChannel → IncomingChannel → Type 0
IsInactive t channels i =
    (t.scid_from_str i.short_channel_id ≡ none)
    ⊎ ((scid : ℕ) × (t.scid_from_str i.short_channel_id ≡ some scid)
        × All (IsUnusable scid) channels)

-- Each hop is that of an incoming channel, in their order, and a channel without a hop is not active.
abbrev pub AreHints : Texts → List PeerChannel → List IncomingChannel → List RouteHop → Type 0
AreHints t channels [] [] = Unit
AreHints t channels [] (h ∷ hints) = ⊥
AreHints t channels (i ∷ incoming) [] = IsInactive t channels i × AreHints t channels incoming []
AreHints t channels (i ∷ incoming) (h ∷ hints) =
    (IsHint t channels h i × AreHints t channels incoming hints)
    ⊎ (IsInactive t channels i × AreHints t channels incoming (h ∷ hints))
