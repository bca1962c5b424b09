-- ===== src/Session/Loop.antt =====
-- A client's task from its start to its end, as a run of the session's steps.
use ra_multiplex.Base.{
  ==_refl, list_eq, List, [], ◌∷◌, Option-cases, Bool, Bool-cases, true, false, ◌&&◌, ◌≡◌, refl,
  ◌∙◌, subst, inl, inr, arith, Outcome, ok, err, panic, nat_eq,
}
use ra_multiplex.Base.Int.{ℤ}
use ra_multiplex.Base.HashMap
use ra_multiplex.Lsp.Json.{Json}
use ra_multiplex.Lsp.Jsonrpc.{Message}
use ra_multiplex.Effect.{Effect}
use ra_multiplex.Instance.{Instance, Client, cleanup_client}
use ra_multiplex.Client.Output.{Flow, proceed, leave, Turn, handle_client_message}
use ra_multiplex.Client.Task.{
  Round, reads, closed, fails, TaskState, behind, after_turn, output_loop, with_cleanup, cleaned,
  output_task,
}
use ra_multiplex.Session.Turns.{IsValue, turn-IsValue}
use ra_multiplex.Session.Keys.{handle_client_message-SameClient}
use ra_multiplex.Session.Invariant.{IsOrdered, Step-IsOrdered}
use ra_multiplex.Session.Runs.{Reach_trans, extend-extend, Reach-unsent}
use ra_multiplex.Session.Steps.{Session, extend, client_says, part, Reach, here, next}

module _ {V : Type 0} ⦃json : Json V⦄ where
  -- What the task has come to: its steps are steps of the session, and if it has ended the client is
  -- gone.
  abbrev IsRun : Session V → Client → Outcome (TaskState V) → Type 0
  IsRun s c (ok t) =
      Reach s (extend s t.instance t.sent)
      × ((t.ended && HashMap.contains_key c.id t.instance.clients) ≡ false)
  IsRun s c (err e) = ⊥
  IsRun s c panic = ⊥

  -- The same for the loop, before the client is cleaned up.
  abbrev IsLoop : Session V → Client → Outcome (TaskState V) → Type 0
  IsLoop s c (ok t) =
      Reach s (extend s t.instance t.sent)
      × (HashMap.contains_key c.id t.instance.clients ≡ true)
      × (HashMap.unique t.instance.clients ≡ true)
  IsLoop s c (err e) = ⊥
  IsLoop s c panic = ⊥

  behind-IsLoop :
      (s : Session V) (c : Client) (i : Instance V) (es : List (Effect V))
      (o : Outcome (TaskState V))
      → Reach s (extend s i es)
      → IsLoop (extend s i es) c o
      → IsLoop s c (behind es o)
  behind-IsLoop s c i es (ok t) r (runs, there, unique) =
      (subst (Reach s) (extend-extend s i t.instance es t.sent) (Reach_trans r runs), there, unique)
  behind-IsLoop s c i es (err e) r l = l
  behind-IsLoop s c i es panic r l = l

  -- A step of the session for a round.
  round_step :
      (s : Session V) (c : Client) (now : ℤ) (sent : Bool) (m : Message V) (i : Instance V)
      (es : List (Effect V)) (flow : Flow)
      → handle_client_message s.instance c now sent m ≡ ok (i, es, flow)
      → Reach s (extend s i es)
  round_step s c now sent m i es flow h = next here (client_says c now sent m i es flow h refl)

  turn-IsLoop :
      (s : Session V) (c : Client) (now : ℤ) (sent : Bool) (m : Message V)
      (continue : Instance V → Outcome (TaskState V)) (turn : Turn V)
      → handle_client_message s.instance c now sent m ≡ turn
      → HashMap.contains_key c.id s.instance.clients ≡ true
      → IsOrdered s.instance.clients
      → ((t : Session V)
          → HashMap.contains_key c.id t.instance.clients ≡ true
          → IsOrdered t.instance.clients
          → IsLoop t c (continue t.instance))
      → IsValue turn
      → IsLoop s c (after_turn continue turn)
  turn-IsLoop s c now sent m continue (ok (i, es, proceed)) h there v ih value =
      behind-IsLoop s c i es (continue i) (round_step s c now sent m i es proceed h) (
        ih (extend s i es) (handle_client_message-SameClient c.id s.instance c now sent m h ∙ there)
          (Step-IsOrdered {s = s} {t = extend s i es} (client_says c now sent m i es proceed h refl)
            v))
  turn-IsLoop s c now sent m continue (ok (i, es, leave)) h there v ih value = (
    round_step s c now sent m i es leave h,
    handle_client_message-SameClient c.id s.instance c now sent m h ∙ there,
    (Step-IsOrdered {s = s} {t = extend s i es} (client_says c now sent m i es leave h refl)
        v).one_each,
  )
  turn-IsLoop s c now sent m continue (err e) h there v ih (a, value) = ground arith
  turn-IsLoop s c now sent m continue panic h there v ih (a, value) = ground arith

  output_loop-IsLoop :
      (s : Session V) (c : Client) (rounds : List (Round V))
      → HashMap.contains_key c.id s.instance.clients ≡ true
      → IsOrdered s.instance.clients
      → IsLoop s c (output_loop s.instance c rounds)
  unfolding output_loop
  output_loop-IsLoop s c [] there v = (Reach-unsent s, there, v.one_each)
  output_loop-IsLoop s c (closed ∷ rounds) there v = (Reach-unsent s, there, v.one_each)
  output_loop-IsLoop s c (fails e ∷ rounds) there v = output_loop-IsLoop s c rounds there v
  output_loop-IsLoop s c (reads m now sent ∷ rounds) there v =
      turn-IsLoop s c now sent m (λ i. output_loop i c rounds)
        (handle_client_message s.instance c now sent m) refl there v
        (λ t. output_loop-IsLoop t c rounds) (turn-IsValue s.instance c now sent m there)

  cleanup-IsRun :
      (s : Session V) (c : Client) (t : TaskState V) (o : Outcome (Instance V × List (Effect V)))
      → IsLoop s c (ok t)
      → cleanup_client t.instance c ≡ o
      → IsRun s c (with_cleanup t o)
  unfolding cleanup_client
  cleanup-IsRun s c t (ok (i, es)) (runs, there, unique) h = (
    subst (Reach s) (extend-extend s t.instance i t.sent es) (next runs (part c i es h refl)),
    elim (Option-cases (HashMap.get c.id t.instance.clients)) [
      | inl e ↦ ground arith
      | inr (d, e) ↦
          let rest = HashMap.remove c.id t.instance.clients in
          ground (
            arith,
            HashMap.get-remove c.id c.id t.instance.clients unique,
            HashMap.contains_key-get c.id rest,
            ==_refl c.id,
          )
    ],
  )
  cleanup-IsRun s c t (err e) (runs, there, unique) h =
      elim (Option-cases (HashMap.get c.id t.instance.clients)) [
        | inl n ↦ ground (arith, HashMap.contains_key-get c.id t.instance.clients)
        | inr (d, n) ↦ ground arith
      ]
  cleanup-IsRun s c t panic (runs, there, unique) h =
      elim (Option-cases (HashMap.get c.id t.instance.clients)) [
        | inl n ↦ ground arith
        | inr (d, n) ↦ ground arith
      ]

  cleaned-IsRun :
      (s : Session V) (c : Client) (o : Outcome (TaskState V))
      → IsLoop s c o
      → IsRun s c (cleaned c o)
  cleaned-IsRun s c (ok t) l = elim (Bool-cases t.ended) [
    | inl e ↦ rw e (cleanup-IsRun s c t (cleanup_client t.instance c) l refl)
    | inr e ↦ rw e (l.0, ground arith)
  ]
  cleaned-IsRun s c (err e) l = l
  cleaned-IsRun s c panic l = l

  -- The task of a connected client, over whatever `read_message` brings to its loop, neither panics
  -- nor returns an error; what it does is a run of the session's steps for this client; and if it
  -- has ended, because the client's stream was closed, the client has asked to shut down or a send
  -- to the instance has failed, then the client is gone from the map. An error of `read_message`
  -- does not end it. The client map is assumed to be in order at the start, and no other task
  -- changes the instance meanwhile.
  pub output_task-IsRun :
      (s : Session V) (c : Client) (rounds : List (Round V))
      → HashMap.contains_key c.id s.instance.clients ≡ true
      → IsOrdered s.instance.clients
      → (t : TaskState V) × (output_task s.instance c rounds ≡ ok t)
        × Reach s (extend s t.instance t.sent)
        × ((t.ended && HashMap.contains_key c.id t.instance.clients) ≡ false)
  unfolding output_task
  output_task-IsRun s c rounds there v =
      value (cleaned c (output_loop s.instance c rounds)) (
        cleaned-IsRun s c (output_loop s.instance c rounds) (output_loop-IsLoop s c rounds there v))
    where
      value :
          (o : Outcome (TaskState V))
          → IsRun s c o
          → (t : TaskState V) × (o ≡ ok t)
            × Reach s (extend s t.instance t.sent)
            × ((t.ended && HashMap.contains_key c.id t.instance.clients) ≡ false)
      value (ok t) (runs, gone) = (t, refl, runs, gone)
      value (err e) r = absurd r
      value panic r = absurd r
