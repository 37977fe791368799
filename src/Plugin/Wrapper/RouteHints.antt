-- ===== src/Plugin/Wrapper/RouteHints.antt =====
-- `invoice` and `get_routehints`, with the conversions in libs/gl-plugin/src/pb.rs. The texts of channel ids
-- and amounts, hex and core-lightning's answers are parameters.
pub mod Active
mod Tests
use greenlight.Prelude.{
  ℕ, ◌%◌, ◌^◌, Bool, Option, none, some, List, [], ◌∷◌, ◌==◌, ◌&&◌, if◌then◌else◌, map,
}
use greenlight.Prelude.Run.{Run, done, fail, panic, unwrap, ok_or, ◌>>=◌}
use greenlight.Plugin.Invoices.{AmountOrAny, any}

-- Of `listpeerchannels`; `is_normal` is `state == CHANNELD_NORMAL`, and `remote` the remote alias.
pub record PeerChannel : Type 0 where
  pub peer_connected : Bool
  pub is_normal : Bool
  pub short_channel_id : Option ℕ
  pub remote : Option ℕ

-- Of `listincoming`
pub record IncomingChannel : Type 0 where
  pub id : List ℕ
  pub short_channel_id : List ℕ
  pub fee_base_msat : List ℕ
  pub fee_proportional_millionths : ℕ
  pub cltv_expiry_delta : ℕ

-- `pb::RouteHop`, with the node id as bytes, and `RoutehintHopDev`, with the id in hex form.
pub record RouteHop : Type 0 where
  pub id : List ℕ
  pub scid : List ℕ
  pub feebase : Option ℕ
  pub feeprop : ℕ
  pub expirydelta : ℕ

pub record RoutehintHopDev : Type 0 where
  pub id : List ℕ
  pub short_channel_id : List ℕ
  pub fee_base_msat : Option ℕ
  pub fee_proportional_millionths : ℕ
  pub cltv_expiry_delta : ℕ

pub record Texts : Type 0 where
  pub scid_from_str : List ℕ → Option ℕ
  pub scid_fmt : ℕ → List ℕ
  pub amount_from_str : List ℕ → Option ℕ
  pub from_hex : List ℕ → Option (List ℕ)
  pub to_hex : List ℕ → List ℕ

abbrev pub is_active : PeerChannel → Bool
is_active c = c.peer_connected && c.is_normal

abbrev pub unwrap_or : Option ℕ → ℕ → ℕ
unwrap_or none d = d
unwrap_or (some a) d = a

-- `active_channels.get(scid)`: of two channels with one id the later one counts.
abbrev pub alias_here : ℕ → PeerChannel → Option ℕ → Option ℕ
alias_here scid c none = none
alias_here scid c (some s) = if s == scid then some (unwrap_or c.remote s) else none

unfoldable pub active_alias : ℕ → List PeerChannel → Option ℕ
active_alias scid [] = none
active_alias scid (c ∷ channels) = elim (active_alias scid channels) [
  | some alias ↦ some alias
  | none ↦ if is_active c then alias_here scid c c.short_channel_id else none
]

module _ (t : Texts) where
  -- The alias an incoming channel is hinted with, where it is active.
  unfoldable pub alias_of : List PeerChannel → IncomingChannel → Option ℕ
  unfolding active_alias
  alias_of channels i = elim (t.scid_from_str i.short_channel_id) [
    | none ↦ none
    | some scid ↦ active_alias scid channels
  ]

  unfoldable pub hint : ℕ → IncomingChannel → Run RouteHop
  hint alias i = do
    id ← unwrap (t.from_hex i.id)
    done (record {
      id = id;
      scid = t.scid_fmt alias;
      feebase = t.amount_from_str i.fee_base_msat;
      feeprop = i.fee_proportional_millionths;
      expirydelta = i.cltv_expiry_delta;
    })

  -- Each hint has one hop.
  unfoldable pub hints_of : List PeerChannel → List IncomingChannel → Run (List RouteHop)
  unfolding alias_of hint
  hints_of channels [] = done []
  hints_of channels (i ∷ incoming) = elim (alias_of channels i) [
    | none ↦ hints_of channels incoming
    | some alias ↦ do h ← hint alias i; rest ← hints_of channels incoming; done (h ∷ rest)
  ]

  unfoldable pub get_routehints :
      Option (List PeerChannel) → Option (List IncomingChannel) → Run (List RouteHop)
  get_routehints listpeerchannels listincoming = do
    channels ← ok_or listpeerchannels
    incoming ← ok_or listincoming
    hints_of channels incoming

  -- `From<RouteHop>`: `as u16` keeps the low 16 bits.
  unfoldable pub hop_from : RouteHop → RoutehintHopDev
  hop_from r = record {
    id = t.to_hex r.id;
    short_channel_id = r.scid;
    fee_base_msat = r.feebase;
    fee_proportional_millionths = r.feeprop;
    cltv_expiry_delta = r.expirydelta % 2 ^ 16;
  }

-- `cln_grpc::pb::InvoiceRequest`, and `requests::Invoice`
pub record InvoiceCall : Type 0 where
  pub amount_msat : Option AmountOrAny
  pub description : List ℕ
  pub label : List ℕ
  pub expiry : Option ℕ
  pub fallbacks : List (List ℕ)
  pub preimage : Option (List ℕ)
  pub cltv : Option ℕ
  pub deschashonly : Option Bool

pub record Invoice : Type 0 where
  pub amount_msat : AmountOrAny
  pub description : List ℕ
  pub label : List ℕ
  pub expiry : Option ℕ
  pub fallbacks : Option (List (List ℕ))
  pub preimage : Option (List ℕ)
  pub cltv : Option ℕ
  pub deschashonly : Option Bool
  pub exposeprivatechannels : Option (List (List ℕ))
  pub dev_routes : Option (List (List RoutehintHopDev))

abbrev pub nonempty : List (List ℕ) → Option (List (List ℕ))
nonempty [] = none
nonempty (f ∷ fallbacks) = some (f ∷ fallbacks)

unfoldable pub invoice_from : Texts → InvoiceCall → Invoice
invoice_from t ir = record {
  amount_msat = elim ir.amount_msat [ none ↦ any | some a ↦ a ];
  description = ir.description;
  label = ir.label;
  expiry = ir.expiry;
  fallbacks = nonempty ir.fallbacks;
  preimage = elim ir.preimage [ none ↦ none | some p ↦ some (t.to_hex p) ];
  cltv = ir.cltv;
  deschashonly = ir.deschashonly;
  exposeprivatechannels = none;
  dev_routes = none;
}

-- `.ok()`: what fails is left out, and a panic stays one.
abbrev pub ok_of : Run (List RouteHop) → Run (Option (List RouteHop))
ok_of (done hints) = done (some hints)
ok_of fail = done none
ok_of panic = panic

abbrev pub dev_routes_of : Texts → Option (List RouteHop) → Option (List (List RoutehintHopDev))
dev_routes_of t none = none
dev_routes_of t (some hints) = some (map (λ h. hop_from t h ∷ []) hints)

-- A day of blocks if no delta is set.
abbrev pub cltv_or_day : Option ℕ → Option ℕ
cltv_or_day none = some 144
cltv_or_day (some c) = some c

-- `call` is what core-lightning answers to `invoice`.
unfoldable pub invoice :
    {R : Type 0}
    → Texts
    → Option (List PeerChannel)
    → Option (List IncomingChannel)
    → (Invoice → Option R)
    → InvoiceCall
    → Run R
unfolding get_routehints hop_from invoice_from
invoice t listpeerchannels listincoming call req = do
  hints ← ok_of (get_routehints t listpeerchannels listincoming)
  ok_or (
      call (record (invoice_from t req) {
        dev_routes = dev_routes_of t hints;
        cltv = cltv_or_day req.cltv;
      }))
