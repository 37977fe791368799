-- ===== src/Proxy/Requests.antt =====
-- `process_requests` of libs/gl-signerproxy/src/hsmproxy.rs: a thread for each connection of
-- lightningd, all of which count their requests with one counter. A run is a sequence of rounds, each
-- on some connection; a round is what the sockets and the server answer in it.
pub mod Ids
pub mod Forwarded
use greenlight.Prelude.{
  ℕ, zero, suc, ◌+◌, ◌%◌, ◌^◌, ◌==◌, Bool, true, false, Option, none, some, List, [], ◌∷◌, ◌++◌,
  if◌then◌else◌,
}
use greenlight.Prelude.Run.{Run, done, fail, panic}
use greenlight.Proxy.Wire.{
  Message, HsmRequestContext, new_with_fds, from_raw, from_client_hsmfd_msg,
}

-- The lists of the request are empty.
pub record HsmRequest : Type 0 where
  pub request_id : ℕ
  pub context : Option HsmRequestContext
  pub raw : List ℕ

pub record NodeConnection : Type 0 where
  pub context : Option HsmRequestContext
  pub running : Bool

-- What `conn.read()`, `UnixStream::pair()` and `server.request()` give, and whether `conn.write()`
-- succeeds.
pub record Round : Type 0 where
  pub incoming : Run Message
  pub remote : Option ℕ
  pub answer : Option (List ℕ)
  pub written : Bool

pub data Action : Type 0 where
  forwarded : HsmRequest → Action
  replied : Message → Action

-- What a round does; `started` is the connection of the thread that it starts, if any.
pub record Served : Type 0 where
  pub actions : List Action
  pub counter : ℕ
  pub started : List NodeConnection
  pub running : Bool

-- The thread ends, with an error or by a panic.
abbrev pub stop : List Action → ℕ → Served
stop actions counter = record {
  actions = actions;
  counter = counter;
  started = [];
  running = false;
}

-- `conn.write(msg)?`, where building the message may panic.
abbrev pub reply : Bool → List Action → ℕ → List NodeConnection → Run Message → Served
reply written before counter started msg = elim msg [
  | done m ↦ record {
    actions = before ++ replied m ∷ [];
    counter = counter;
    started = started;
    running = written;
  }
  | fail ↦ record (stop before counter) { started = started }
  | panic ↦ record (stop before counter) { started = started }
]

-- A request for a new client: its thread is started before the reply.
unfoldable pub start_client : Round → ℕ → Message → Served
start_client r counter msg = elim (from_client_hsmfd_msg msg) [
  | fail ↦ stop [] counter
  | panic ↦ stop [] counter
  | done ctx ↦ elim r.remote [
    | none ↦ stop [] counter
    | some fd ↦
        reply r.written [] counter (record { context = some ctx; running = true } ∷ [])
          (new_with_fds (0 ∷ 109 ∷ []) (fd ∷ []))
  ]
]

unfoldable pub forward : Option HsmRequestContext → Round → ℕ → Message → Served
forward context r counter msg =
    let req : HsmRequest = record {
      request_id = counter % 2 ^ 32;
      context = context;
      raw = msg.body;
    } in
    let counted = (counter + 1) % 2 ^ 64 in
    elim r.answer [
      | none ↦ stop (forwarded req ∷ []) counted
      | some raw ↦ reply r.written (forwarded req ∷ []) counted [] (from_raw raw)
    ]

-- One iteration of the loop.
unfoldable pub serve : Option HsmRequestContext → Round → ℕ → Served
serve context r counter = elim r.incoming [
  | fail ↦ stop [] counter
  | panic ↦ stop [] counter
  | done msg ↦
      if msg.typ == 9
      then start_client r counter msg
      else if msg.typ == 28
      then reply r.written [] counter [] (from_raw (0 ∷ 128 ∷ 1 ∷ []))
      else forward context r counter msg
]

pub record Proxy : Type 0 where
  pub counter : ℕ
  pub connections : List NodeConnection

-- The counter starts at 1000 and the connection of lightningd itself has no context.
abbrev pub start : Proxy
start = record { counter = 1000; connections = record { context = none; running = true } ∷ [] }

unfoldable pub get_elem? : List NodeConnection → ℕ → Option NodeConnection
get_elem? [] i = none
get_elem? (c ∷ cs) zero = some c
get_elem? (c ∷ cs) (suc i) = get_elem? cs i

unfoldable pub set_running : Bool → List NodeConnection → ℕ → List NodeConnection
set_running b [] i = []
set_running b (c ∷ cs) zero = record c { running = b } ∷ cs
set_running b (c ∷ cs) (suc i) = c ∷ set_running b cs i

unfoldable pub step_served : ℕ → Served → Proxy → Proxy
step_served i d p = record {
  counter = d.counter;
  connections = set_running d.running p.connections i ++ d.started;
}

abbrev pub nothing_served : ℕ → Served
nothing_served counter = record (stop [] counter) { running = false }

-- A round on the connection `i`; one that has ended does nothing.
unfoldable pub served_at : ℕ → Round → Proxy → Served
served_at i r p = elim (get_elem? p.connections i) [
  | none ↦ nothing_served p.counter
  | some c ↦ if c.running then serve c.context r p.counter else nothing_served p.counter
]

-- The actions of a run in their order.
unfoldable pub run : List (ℕ × Round) → Proxy → List Action
run [] p = []
run ((i, r) ∷ rounds) p =
    (served_at i r p).actions ++ run rounds (step_served i (served_at i r p) p)
