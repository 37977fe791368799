-- ===== src/Plugin/Stager/Once.antt =====
-- Who gets an answer, and how often.
use greenlight.Prelude.{
  ℕ, ◌+◌, ◌≤◌, ◌≡◌, Bool, some, List, [], ◌∷◌, ◌++◌, ◌==◌, ltb, if◌then◌else◌, arith, Option-cases,
  inl, inr,
}
use greenlight.Plugin.Stager.{
  HsmRequest, HsmResponse, Request, Stage, new, put, find, take_out, send, mystream, drop_stream,
  respond,
}

-- How many open requests wait on the channel, and how many answers went into it.
abbrev pub waiting : ℕ → List (ℕ × Request) → ℕ
waiting c [] = 0
waiting c ((id, r) ∷ m) = (if r.response == c then 1 else 0) + waiting c m

abbrev pub answered : ℕ → List (ℕ × HsmResponse) → ℕ
answered c [] = 0
answered c ((d, response) ∷ l) = (if d == c then 1 else 0) + answered c l

waiting-put :
    (c id : ℕ) (r : Request) (m : List (ℕ × Request))
    → waiting c (put id r m) ≤ waiting c m + (if r.response == c then 1 else 0)
unfolding put
waiting-put c id r [] = ground arith
waiting-put c id r ((j, q) ∷ m) = ground (arith, waiting-put c id r m)

waiting-take_out :
    (c id : ℕ) (r : Request) (m : List (ℕ × Request))
    → find id m ≡ some r
    → waiting c (take_out id m) + (if r.response == c then 1 else 0) ≡ waiting c m
unfolding find take_out
waiting-take_out c id r [] h = cc
waiting-take_out c id r ((j, q) ∷ m) h = ground (arith, waiting-take_out c id r m)

answered-append :
    (c d : ℕ) (response : HsmResponse) (l : List (ℕ × HsmResponse))
    → answered c (l ++ (d, response) ∷ []) ≡ answered c l + (if d == c then 1 else 0)
answered-append c d response [] = ground arith
answered-append c d response ((e, x) ∷ l) = ground (arith, answered-append c d response l)

-- A channel that was created has one request waiting or one answer at most; one that was not has
-- neither.
abbrev pub IsOnce : Stage → Type 0
IsOnce s =
    (c : ℕ) → waiting c s.requests + answered c s.answers ≤ (if ltb c s.next_channel then 1 else 0)

-- One operation of the stage.
pub data Step (s s' : Stage) : Type 0 where
  sent : (request : HsmRequest) → (send request s).0 ≡ s' → Step s s'
  streamed : (mystream s).0 ≡ s' → Step s s'
  stream_dropped : drop_stream s ≡ s' → Step s s'
  responded :
      (waits : Bool) (response : HsmResponse) → (respond waits response s).0 ≡ s' → Step s s'

pub data Reach : Stage → Type 0 where
  start : Reach new
  next : {s s' : Stage} → Reach s → Step s s' → Reach s'

send-IsOnce : (request : HsmRequest) (s : Stage) → IsOnce s → IsOnce (send request s).0
unfolding send
send-IsOnce request s h = λ c. ground (
  arith,
  h c,
  waiting-put c request.request_id (record { request = request; response = s.next_channel })
      s.requests,
)

respond-IsOnce :
    (waits : Bool) (response : HsmResponse) (s : Stage)
    → IsOnce s
    → IsOnce (respond waits response s).0
unfolding respond
respond-IsOnce waits response s h = λ c. elim (Option-cases (find response.request_id s.requests)) [
  | inl e ↦ ground (arith, e, h c)
  | inr (req, e) ↦ ground (
    arith,
    e,
    h c,
    waiting-take_out c response.request_id req s.requests e,
    answered-append c req.response response s.answers,
  )
]

Step-IsOnce : {s s' : Stage} → Step s s' → IsOnce s → IsOnce s'
unfolding mystream drop_stream
Step-IsOnce {s = s} (sent request e) h = rw (← e) (send-IsOnce request s h)
Step-IsOnce (streamed e) h = rw (← e) h
Step-IsOnce (stream_dropped e) h = rw (← e) h
Step-IsOnce {s = s} (responded waits response e) h = rw (← e) (respond-IsOnce waits response s h)

Reach-IsOnce : {s : Stage} → Reach s → IsOnce s
Reach-IsOnce start = λ c. ground arith
Reach-IsOnce (next r step) = Step-IsOnce step (Reach-IsOnce r)

-- Whatever is sent, streamed and responded, in any order, no requester is answered twice, and none
-- that was answered has a request still open.
pub Reach-answered :
    (s : Stage) (c : ℕ)
    → Reach s
    → (answered c s.answers ≤ 1) × (waiting c s.requests + answered c s.answers ≤ 1)
Reach-answered s c r = let bound = Reach-IsOnce r c in ground arith
