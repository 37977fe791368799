-- ===== src/Proxy/Tests.antt =====
-- A message on a socket, and a proxy with two connections.
use greenlight.Prelude.{
  bytes_eq, ℕ, ◌+◌, ◌≡◌, refl, true, none, some, List, [], ◌∷◌, ◌++◌, arith, All,
}
use greenlight.Prelude.Run.{done}
use greenlight.Proxy.Wire.{
  Message, Socket, plain_byte, read_u16, new_with_fds, from_raw, read, write,
}
use greenlight.Proxy.Wire.RoundTrip.{read-write}
use greenlight.Proxy.Requests.{
  Round, start, run, serve, forward, served_at, step_served, get_elem?, set_running,
}
use greenlight.Proxy.Requests.Ids.{ids, Counts, run-Counts}
use greenlight.Proxy.Requests.Forwarded.{IsForward, serve-IsForward}
use greenlight.Plugin.Stager.{HsmRequest, Stage, send}
use greenlight.Plugin.Stager
use greenlight.Proxy.Staging.{
  StagingHsmServer, Handled, staged, handle, handle_canned, by_type, find_response, get_type,
}
use greenlight.Proxy.Staging.Answers.{Decided, handle_lem}

abbrev message : Message
message = record { typ = 109; body = 0 ∷ 109 ∷ 7 ∷ []; fds = 5 ∷ [] }

message_built : new_with_fds message.body message.fds ≡ done message
unfolding new_with_fds read_u16
message_built = refl

abbrev rest : Socket
rest = plain_byte 1 ∷ []

-- The receiver's numbers are other ones.
read-write_example :
    read (λ fd. fd + 4) (write message [] ++ rest) ≡ done (record message { fds = 9 ∷ [] }, rest)
read-write_example = read-write (λ fd. fd + 4) message rest message_built (omega arith) refl

-- Two rounds of lightningd's own connection.
abbrev round : Round
round = record {
  incoming = done (record { typ = 18; body = 0 ∷ 18 ∷ []; fds = [] });
  remote = none;
  answer = some (0 ∷ 118 ∷ []);
  written = true;
}

abbrev rounds : List (ℕ × Round)
rounds = (0, round) ∷ (0, round) ∷ []

run-Counts_example : Counts 1000 (ids (run rounds start))
run-Counts_example = run-Counts rounds start (omega arith)

-- Both rounds forward a request.
ids-run : ids (run rounds start) ≡ 1000 ∷ 1001 ∷ []
unfolding ids run served_at step_served get_elem? set_running serve forward from_raw new_with_fds
    read_u16
ids-run = refl

serve-IsForward_example : All (IsForward none round.incoming) (serve none round 1000).actions
serve-IsForward_example = serve-IsForward none round 1000

abbrev server : StagingHsmServer
server = record {
  startupmsgs = (record { request = 0 ∷ 1 ∷ []; response = 9 ∷ [] }) ∷ [];
  initmsg = 0 ∷ 111 ∷ [];
}

abbrev request : HsmRequest
request = record { request_id = 1000; raw = 0 ∷ 18 ∷ [] }

abbrev handled : Handled
handled = staged (send request Stager.new).0 (send request Stager.new).1

staged_run : handle server request Stager.new ≡ done handled
unfolding handle handle_canned by_type find_response get_type bytes_eq
staged_run = refl

handle_lem_example : Decided server request Stager.new handled
handle_lem_example = handle_lem server request Stager.new handled staged_run
