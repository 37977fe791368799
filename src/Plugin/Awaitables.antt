-- ===== src/Plugin/Awaitables.antt =====
-- `AwaitableChannel` of libs/gl-plugin/src/awaitables.rs: the wait until a channel can be used. A poll
-- gets the time and what each future answers if it is polled; a future is in progress or absent.
pub mod Stages
mod Tests
use greenlight.Prelude.{
  ℕ, ◌-◌, Bool, true, false, Option, none, some, List, [], ◌∷◌, ◌==◌, ◌||◌, if◌then◌else◌, ltb,
  contains, codes, Ordering,
}
use greenlight.Prelude.Outcome.{Result, ok, err, ◌>>=◌, ok_or, map_err}
use greenlight.Persist.Map.{cmp}

pub data Error : Type 0 where
  peer_unknown : Error
  peer_connection_failure : Error
  channel_error : Error
  rpc_error : Error
  service_error : Error

pub data Poll (A : Type 0) : Type 0 where
  ready : A → Poll A
  pending : Poll A

pub record AwaitableChannel : Type 0 where
  pub version : Option (List ℕ)
  pub peer_connected : Bool
  pub channel_ready : Bool
  pub route_found : Bool
  pub last_check : Option ℕ
  pub rpc_call_delay : ℕ
  pub get_version : Bool
  pub ensure_peer_connection : Bool
  pub billboard : Bool
  pub get_route : Bool
  pub spendable_msat : Bool

abbrev pub new : AwaitableChannel
new = record {
  version = none;
  peer_connected = false;
  channel_ready = false;
  route_found = false;
  last_check = none;
  rpc_call_delay = 250;
  get_version = false;
  ensure_peer_connection = false;
  billboard = false;
  get_route = false;
  spendable_msat = false;
}

-- `later` is the time when a check has failed.
pub record Answers : Type 0 where
  pub now : ℕ
  pub later : ℕ
  pub version : Poll (Result Error (List ℕ))
  pub connection : Poll (Result Error (Unit {0}))
  pub status : Poll (Result Error (List (List ℕ)))
  pub route : Poll (Result Error (Unit {0}))
  pub spendable : Poll (Result Error ℕ)

abbrev pub Polled : Type 0
Polled = Poll (Result Error ℕ) × AwaitableChannel

unfoldable pub is_established : List (List ℕ) → Bool
is_established [] = false
is_established (s ∷ rest) =
    contains s (codes "Channel ready")
    || contains s (codes "Reconnected, and reestablished")
    || is_established rest

unfoldable pub poll_spendable : Answers → AwaitableChannel → Polled
poll_spendable a c = (a.spendable, record c { spendable_msat = true })

unfoldable pub poll_route : Answers → AwaitableChannel → Polled
poll_route a c = if c.route_found then poll_spendable a c else elim a.route [
  | pending ↦ (pending, record c { get_route = true })
  | ready route ↦ elim route [
    | ok r ↦ poll_spendable a (record c { get_route = true; route_found = true })
    | err e ↦ (pending, record c { get_route = false; last_check = some a.later })
  ]
]

unfoldable pub poll_status : Answers → AwaitableChannel → Polled
poll_status a c = if c.channel_ready then poll_route a c else elim a.status [
  | pending ↦ (pending, record c { billboard = true })
  | ready status ↦ elim status [
    | err e ↦ (ready (err e), record c { billboard = true })
    | ok lines ↦
        if is_established lines
        then poll_route a (record c { billboard = true; channel_ready = true })
        else (pending, record c { billboard = false; last_check = some a.later })
  ]
]

unfoldable pub poll_connection : Answers → AwaitableChannel → Polled
poll_connection a c = if c.peer_connected then poll_status a c else elim a.connection [
  | pending ↦ (pending, record c { ensure_peer_connection = true })
  | ready result ↦ elim result [
    | err e ↦ (ready (err e), record c { ensure_peer_connection = true })
    | ok u ↦ poll_status a (record c { ensure_peer_connection = true; peer_connected = true })
  ]
]

unfoldable pub poll_version : Answers → AwaitableChannel → Polled
poll_version a c = elim c.version [
  | some v ↦ poll_connection a c
  | none ↦ elim a.version [
    | pending ↦ (pending, record c { get_version = true })
    | ready version ↦ elim version [
      | err e ↦ (ready (err e), record c { get_version = true })
      | ok v ↦ poll_connection a (record c { get_version = true; version = some v })
    ]
  ]
]

-- Within the delay after a failed check nothing is polled.
unfoldable pub poll : Answers → AwaitableChannel → Polled
poll a c = elim c.last_check [
  | none ↦ poll_version a c
  | some t ↦ if ltb (a.now - t) c.rpc_call_delay then (pending, c) else poll_version a c
]

-- Polls one after the other, up to the first that is ready.
unfoldable pub poll_all : List Answers → AwaitableChannel → Polled
poll_all [] c = (pending, c)
poll_all (a ∷ answers) c =
    let (result, c') = poll a c in
    let rest = poll_all answers c' in elim result [ ready r ↦ (ready r, c') | pending ↦ rest ]

-- `listpeerchannels`, as far as it is read here.
pub record ListpeerchannelsChannels : Type 0 where
  pub short_channel_id : Option ℕ
  pub alias_local : Option ℕ
  pub status : Option (List (List ℕ))
  pub spendable_msat : Option ℕ

abbrev is_some_of : Option ℕ → ℕ → Bool
is_some_of none scid = false
is_some_of (some s) scid = s == scid

unfoldable pub find_channel : ℕ → List ListpeerchannelsChannels → Option ListpeerchannelsChannels
find_channel scid [] = none
find_channel scid (c ∷ channels) =
    let rest = find_channel scid channels in
    if is_some_of c.short_channel_id scid || is_some_of c.alias_local scid then some c else rest

abbrev at_least : Ordering → Bool
at_least Ordering.lt = false
at_least Ordering.eq = true
at_least Ordering.gt = true

-- The futures; `channels` is the answer to `listpeerchannels`.
unfoldable pub field_of :
    {A : Type 0}
    → (ListpeerchannelsChannels → Option A)
    → Option (List ListpeerchannelsChannels)
    → ℕ
    → Result Error A
field_of field channels scid = do
  cs ← ok_or rpc_error channels
  c ← ok_or channel_error (find_channel scid cs)
  ok_or channel_error (field c)

unfoldable pub channel_field :
    {A : Type 0}
    → (ListpeerchannelsChannels → Option A)
    → List ℕ
    → Option (List ListpeerchannelsChannels)
    → ℕ
    → Result Error A
channel_field field version channels scid =
    if at_least (cmp version (codes "v23.05gl1"))
    then field_of field channels scid
    else err service_error

unfoldable pub get_billboard :
    List ℕ → Option (List ListpeerchannelsChannels) → ℕ → Result Error (List (List ℕ))
get_billboard version channels scid = channel_field (λ c. c.status) version channels scid

unfoldable pub get_spendable_msat :
    List ℕ → Option (List ListpeerchannelsChannels) → ℕ → Result Error ℕ
get_spendable_msat version channels scid =
    channel_field (λ c. c.spendable_msat) version channels scid

-- `peers` tells which of the peers are connected, and `connect` whether the call succeeds.
unfoldable pub connect_peer : Option (List Bool) → Bool → Result Error (Unit {0})
connect_peer none connect = err rpc_error
connect_peer (some []) connect = err peer_unknown
connect_peer (some (true ∷ peers)) connect = ok tt
connect_peer (some (false ∷ peers)) true = ok tt
connect_peer (some (false ∷ peers)) false = err peer_connection_failure
