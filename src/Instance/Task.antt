-- ===== src/Instance/Task.antt =====
-- src/instance.rs, `stdout_task` as a whole: the rounds of its loop, where no other task
-- changes the instance between them. Session has the rounds of all tasks in any order.
use ra_multiplex.Base.{List, [], ◌∷◌, ◌++◌, Bool, true, false, Error}
use ra_multiplex.Lsp.Json.{Json}
use ra_multiplex.Lsp.Jsonrpc.{Message}
use ra_multiplex.Effect.{Effect}
use ra_multiplex.Instance.{Instance}
use ra_multiplex.Instance.Stdout.{handle_server_message}

-- What `read_message` brings to a round.
pub data Received (V : Type 0) : Type 0 where
  message : Message V → Received V
  closed : Received V
  failure : Error → Received V

-- The instance, what was sent so far, and whether the loop has ended; if not, it waits.
pub record Served (V : Type 0) : Type 0 where
  pub instance : Instance V
  pub sent : List (Effect V)
  pub ended : Bool

module _ {V : Type 0} ⦃json : Json V⦄ where
  -- An error of `read_message` is logged, and the loop goes on.
  unfoldable pub stdout_task : Instance V → List (Received V) → Served V
  unfolding handle_server_message
  stdout_task self [] = record { instance = self; sent = []; ended = false }
  stdout_task self (closed ∷ rounds) = record { instance = self; sent = []; ended = true }
  stdout_task self (failure e ∷ rounds) = stdout_task self rounds
  stdout_task self (message m ∷ rounds) =
      let (self', es) = handle_server_message self m in
      let rest = stdout_task self' rounds in record rest { sent = es ++ rest.sent }
