-- ===== src/Proxy/Requests/Forwarded.antt =====
-- Which messages are forwarded, and under which context.
use greenlight.Prelude.{
  ℕ, ◌≡◌, ◌≢◌, refl, Bool, false, Option, none, some, List, [], ◌∷◌, arith, All, Bool-cases, inl,
  inr, ◌==◌,
}
use greenlight.Prelude.Run.{Run, done, fail, panic}
use greenlight.Proxy.Wire.{Message, HsmRequestContext, from_raw}
use greenlight.Proxy.Requests.{
  HsmRequest, Round, Action, forwarded, replied, start_client, forward, serve, stop, reply, Served,
}

-- The action, if it forwards a request, forwards the body of a message that was read, which neither
-- asks for a new client nor to check a public key, and under this context.
abbrev pub IsForward : Option HsmRequestContext → Run Message → Action → Type 0
IsForward context incoming (replied m) = Unit
IsForward context incoming (forwarded q) =
    (q.context ≡ context)
    × ((msg : Message) × (incoming ≡ done msg)
        × (q.raw ≡ msg.body)
        × (msg.typ ≢ 9)
        × (msg.typ ≢ 28))

serve-forward :
    (context : Option HsmRequestContext) (r : Round) (n : ℕ) (msg : Message)
    → r.incoming ≡ done msg
    → (msg.typ == 9) ≡ false
    → (msg.typ == 28) ≡ false
    → serve context r n ≡ forward context r n msg
unfolding serve
serve-forward context r n msg e no_client other = rw (e, no_client, other) refl

reply-IsForward :
    (context : Option HsmRequestContext) (incoming : Run Message) (written : Bool) (q : HsmRequest)
    (counter : ℕ) (msg : Run Message)
    → IsForward context incoming (forwarded q)
    → All (IsForward context incoming) (reply written (forwarded q ∷ []) counter [] msg).actions
reply-IsForward context incoming written q counter (done m) f = (f, (tt, tt))
reply-IsForward context incoming written q counter fail f = (f, tt)
reply-IsForward context incoming written q counter panic f = (f, tt)

answer-IsForward :
    (context : Option HsmRequestContext) (incoming : Run Message) (written : Bool) (q : HsmRequest)
    (counter : ℕ) (answer : Option (List ℕ))
    → IsForward context incoming (forwarded q)
    → All
        (IsForward context incoming)
        (elim answer as (λ x. Served) [
          | none ↦ stop (forwarded q ∷ []) counter
          | some raw ↦ reply written (forwarded q ∷ []) counter [] (from_raw raw)
        ]).actions
answer-IsForward context incoming written q counter none f = (f, tt)
answer-IsForward context incoming written q counter (some raw) f =
    reply-IsForward context incoming written q counter (from_raw raw) f

forward-IsForward :
    (context : Option HsmRequestContext) (r : Round) (n : ℕ) (msg : Message)
    → r.incoming ≡ done msg
    → (msg.typ ≢ 9) × (msg.typ ≢ 28)
    → All (IsForward context r.incoming) (forward context r n msg).actions
unfolding forward
forward-IsForward context r n msg e others =
    answer-IsForward context r.incoming r.written _ _ r.answer
      (refl, (msg, e, refl, others.0, others.1))

-- A round on a connection only forwards the message that it read, unchanged and under the context of
-- that connection, and never one of type 9 or 28.
pub serve-IsForward :
    (context : Option HsmRequestContext) (r : Round) (n : ℕ)
    → All (IsForward context r.incoming) (serve context r n).actions
unfolding serve start_client forward
serve-IsForward context r n = reads r.incoming refl
  where
    reads :
        (m : Run Message)
        → r.incoming ≡ m
        → All (IsForward context r.incoming) (serve context r n).actions
    reads fail e = ground (arith, e)
    reads panic e = ground (arith, e)
    reads (done msg) e = elim (Bool-cases (msg.typ == 9)) [
      | inl new_client ↦ ground (arith, e, new_client)
      | inr no_client ↦ elim (Bool-cases (msg.typ == 28)) [
        | inl check_pubkey ↦ ground (arith, e, no_client, check_pubkey)
        | inr other ↦
            let others : (msg.typ ≢ 9) × (msg.typ ≢ 28) = ground (arith, no_client, other) in
            rw (serve-forward context r n msg e no_client other)
              (forward-IsForward context r n msg e others)
      ]
    ]
