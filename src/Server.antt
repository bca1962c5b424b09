-- ===== src/Server.antt =====
-- src/server.rs: the loop that accepts connections, numbers them, and spawns a task for each.
pub mod Numbering
use ra_multiplex.Base.{ℕ, suc, ◌+◌, List, [], ◌∷◌, Outcome, ok, err, Error}
use ra_multiplex.Str.Decimal.{usize_max}
use ra_multiplex.Io.{ErrorKind, not_connected, IoResult, done, failed}
use Prim.Native.Nat.{◌%◌}

-- `next_client_id.fetch_add(1)`: the number that a connection gets, and the counter behind it. An
-- atomic `usize` wraps around.
unfoldable pub next_client_id : ℕ → ℕ × ℕ
next_client_id n = (n, (n + 1) % suc usize_max)

-- The arguments that the spawned `client::process` gets, behind the shared map of instances.
pub record Spawned (S : Type 0) : Type 0 where
  pub socket : S
  pub client_id : ℕ

module _ {S : Type 0} where
  -- The loop over what `accept` returns: the tasks that are spawned, and how the loop ended, where
  -- `ok` says that it still waits. A task runs on its own, and its error is logged.
  unfoldable pub accept_all : ℕ → List (IoResult S) → List (Spawned S) × Outcome (Unit {0})
  unfolding next_client_id
  accept_all counter [] = ([], ok tt)
  accept_all counter (done socket ∷ events) =
      let (client_id, counter') = next_client_id counter in
      let (tasks, end) = accept_all counter' events in
      (record { socket = socket; client_id = client_id } ∷ tasks, end)
  accept_all counter (failed not_connected ∷ events) = accept_all counter events
  accept_all counter (failed kind ∷ events) = ([], err Error.accept_failed)

  -- The loop from the start of the server.
  unfoldable pub run : List (IoResult S) → List (Spawned S) × Outcome (Unit {0})
  unfolding accept_all
  run events = accept_all 0 events
