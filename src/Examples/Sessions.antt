-- ===== src/Examples/Sessions.antt =====
-- A session of one client, which joins and opens a file, and its task to its end.
use ra_multiplex.Base.{
  list_beq, any, codes, [], ◌∷◌, true, false, ◌&&◌, ◌≡◌, refl, ok, List, Outcome, Error, list_eq,
  nat_eq,
}
use ra_multiplex.Base.Int.{pos}
use ra_multiplex.Base.HashMap
use ra_multiplex.Base.HashSet
use ra_multiplex.Lsp.Jsonrpc.{notification}
use ra_multiplex.Effect.{to_server}
use ra_multiplex.Instance.{
  add_client, open_file, keep_alive, has_open, did_open_notification, did_close_notification,
  cleanup_client, close_all_files,
}
use ra_multiplex.Client.Output.{proceed, handle_client_message, client_notification, classify}
use ra_multiplex.Client.Task.{Round, reads, closed, fails, TaskState, output_loop, output_task}
use ra_multiplex.Session.Clients.{keyed}
use ra_multiplex.Session.Invariant.{IsOrdered}
use ra_multiplex.Session.Loop.{output_task-IsRun}
use ra_multiplex.Session.Steps.{Session, extend, join, client_says, Reach, here, next}
use ra_multiplex.Serde.{present}
use ra_multiplex.Serde.Documents.{read_open}
use ra_multiplex.Examples.Trees.{trees}
use ra_multiplex.Examples.World.{
  Value, value_json, fresh_instance, client, connected, did_open_message, open_params,
}

abbrev start : Session Value
start = record { instance = fresh_instance; log = [] }

abbrev joined : Session Value
joined = record { instance = record fresh_instance { clients = connected 1 [] ∷ [] }; log = [] }

abbrev opened : Session Value
opened = record {
  instance = record fresh_instance {
    clients = connected 1 (codes "a.rs" ∷ []) ∷ [];
    last_used = pos 9;
  };
  log = to_server (did_open_notification open_params) ∷ [];
}

joins : add_client start.instance (client 1) ≡ ok (joined.instance, [])
unfolding add_client HashMap.contains_key HashMap.insert
joins = refl

says :
    handle_client_message joined.instance (client 1) (pos 9) true (notification did_open_message)
    ≡ ok (opened.instance, opened.log, proceed)
unfolding handle_client_message classify list_beq keep_alive client_notification open_file has_open
    any HashMap.contains_key HashMap.modify HashSet.contains HashSet.insert read_open HashMap.get
    present
says = refl

run : Reach start opened
run = next (next here (join (client 1) joined.instance [] joins refl)) (
    client_says (client 1) (pos 9) true (notification did_open_message) opened.instance opened.log
      proceed says refl)

one_client : HashMap.contains_key 1 joined.instance.clients ≡ true
unfolding HashMap.contains_key
one_client = refl

in_order : IsOrdered joined.instance.clients
unfolding HashMap.unique keyed HashMap.contains_key
in_order = record { one_each = refl; own_id = refl }

-- The client opens a file and closes its stream; between the two a message cannot be read.
abbrev rounds : List (Round Value)
rounds = reads (notification did_open_message) (pos 9) true ∷ fails Error.invalid_body ∷ closed ∷ []

output_task-IsRun_example :
    (t : TaskState Value) × (output_task joined.instance (client 1) rounds ≡ ok t)
    × Reach joined (extend joined t.instance t.sent)
    × ((t.ended && HashMap.contains_key 1 t.instance.clients) ≡ false)
output_task-IsRun_example = output_task-IsRun joined (client 1) rounds one_client in_order

-- The language server is told of the file, and then that it is closed.
unfoldable both_told : Outcome (TaskState Value)
unfolding output_task output_loop handle_client_message classify list_beq keep_alive
    client_notification open_file has_open any HashMap.contains_key HashMap.modify HashSet.contains
    HashSet.insert read_open HashMap.get HashMap.remove cleanup_client close_all_files present
both_told = output_task joined.instance (client 1) rounds

both_told_lem :
    both_told
    ≡ ok (record {
      instance = record fresh_instance { last_used = pos 9 };
      sent =
          to_server (did_open_notification open_params)
          ∷ to_server (did_close_notification (codes "a.rs"))
          ∷ [];
      ended = true;
    })
unfolding both_told
both_told_lem = refl
