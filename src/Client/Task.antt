-- ===== src/Client/Task.antt =====
-- src/client.rs, `output_task` as a whole: the rounds of its loop and what follows them,
-- where no other task changes the instance in between. Session has the rounds of all tasks in any
-- order.
use ra_multiplex.Base.{List, [], ◌∷◌, ◌++◌, Bool, true, false, Outcome, ok, err, panic, Error}
use ra_multiplex.Base.Int.{ℤ}
use ra_multiplex.Lsp.Json.{Json}
use ra_multiplex.Lsp.Jsonrpc.{Message}
use ra_multiplex.Effect.{Effect}
use ra_multiplex.Instance.{Instance, Client, cleanup_client}
use ra_multiplex.Client.Output.{proceed, leave, Turn, handle_client_message}

-- What `read_message` brings to a round; with a message, the time, and whether a send to the instance
-- succeeds.
pub data Round (V : Type 0) : Type 0 where
  reads : (m : Message V) (now : ℤ) (sent : Bool) → Round V
  closed : Round V
  fails : Error → Round V

-- The instance, what was sent so far, and whether the loop has ended; if not, it waits.
pub record TaskState (V : Type 0) : Type 0 where
  pub instance : Instance V
  pub sent : List (Effect V)
  pub ended : Bool

module _ {V : Type 0} ⦃json : Json V⦄ where
  -- What a round sent stands in front.
  abbrev pub behind : List (Effect V) → Outcome (TaskState V) → Outcome (TaskState V)
  behind es (ok s) = ok (record s { sent = es ++ s.sent })
  behind es (err e) = err e
  behind es panic = panic

  abbrev pub after_turn : (Instance V → Outcome (TaskState V)) → Turn V → Outcome (TaskState V)
  after_turn continue (ok (self', es, proceed)) = behind es (continue self')
  after_turn continue (ok (self', es, leave)) =
      ok (record { instance = self'; sent = es; ended = true })
  after_turn continue (err e) = err e
  after_turn continue panic = panic

  -- The loop. An error of `read_message` is logged, and the loop goes on.
  unfoldable pub output_loop : Instance V → Client → List (Round V) → Outcome (TaskState V)
  unfolding handle_client_message
  output_loop self client [] = ok (record { instance = self; sent = []; ended = false })
  output_loop self client (closed ∷ rounds) =
      ok (record { instance = self; sent = []; ended = true })
  output_loop self client (fails e ∷ rounds) = output_loop self client rounds
  output_loop self client (reads m now sent ∷ rounds) =
      after_turn (λ self'. output_loop self' client rounds)
        (handle_client_message self client now sent m)

  -- An error of `cleanup_client` is logged.
  abbrev pub with_cleanup :
      TaskState V → Outcome (Instance V × List (Effect V)) → Outcome (TaskState V)
  with_cleanup s (ok (self', es)) =
      ok (record { instance = self'; sent = s.sent ++ es; ended = true })
  with_cleanup s (err e) = ok s
  with_cleanup s panic = panic

  abbrev pub cleaned : Client → Outcome (TaskState V) → Outcome (TaskState V)
  cleaned client (ok s) = elim s.ended [
    | true ↦ with_cleanup s (cleanup_client s.instance client)
    | false ↦ ok s
  ]
  cleaned client (err e) = err e
  cleaned client panic = panic

  unfoldable pub output_task : Instance V → Client → List (Round V) → Outcome (TaskState V)
  unfolding output_loop cleanup_client
  output_task self client rounds = cleaned client (output_loop self client rounds)
