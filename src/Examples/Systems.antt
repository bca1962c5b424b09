-- ===== src/Examples/Systems.antt =====
-- A server that accepts one connection, which starts a language server.
use ra_multiplex.Base.{
  ℕ, keep, any, true, codes, [], ◌∷◌, none, some, inl, false, nat_eq, list_eq, list_beq, ◌≡◌, refl,
  ok, arith,
}
use ra_multiplex.Base.Int.{ℤ, pos}
use ra_multiplex.Base.HashMap
use ra_multiplex.Base.HashMap.{HashMap}
use ra_multiplex.Base.HashSet
use ra_multiplex.Io.{done}
use ra_multiplex.Str.{strip_prefix}
use ra_multiplex.Lsp.Jsonrpc.{id_eq, notification}
use ra_multiplex.Instance.{
  ClientData, replays, add_client, open_file, keep_alive, has_open, did_open_notification,
}
use ra_multiplex.Client.Output.{proceed, handle_client_message, client_notification, classify}
use ra_multiplex.Effect.{to_server}
use ra_multiplex.Session.Documents.{unopened}
use ra_multiplex.Session.Files.{told, after}
use ra_multiplex.Session.Invariant.{IsOrdered}
use ra_multiplex.Serde.Shared.{instances_shared}
use ra_multiplex.Serde.Documents.{read_open}
use ra_multiplex.Registry.Steps
use ra_multiplex.Registry.Sound.{IsSound}
use ra_multiplex.System.Refinement.{registry_refined}
use ra_multiplex.System.Trace.{trace_log}
use ra_multiplex.Registry.{Registry, Process, empty}
use ra_multiplex.Registry.Spawn.{spawn, get_or_spawn, initialize_handshake, handshake_response}
use ra_multiplex.Client.Connect.{find_instance, initialize_reply, greet, greeted, join}
use ra_multiplex.Client.Connect
use ra_multiplex.Client.Workspace.{parse_root_uri, select_workspace_root}
use ra_multiplex.Server.{next_client_id}
use ra_multiplex.Serde.{read_struct, required, optional, as_object, present}
use ra_multiplex.Serde.Params.{read_result}
use ra_multiplex.System.{
  System, started, Reach, accepts, connects, client_says, here, next, becomes,
  connected as behind_connect,
}
use ra_multiplex.System.Joining.{connection_joins}
use ra_multiplex.Examples.Trees.{Tree, trees}
use ra_multiplex.Examples.World.{
  Value, value_json, fresh_instance, client, connected, did_open_message, open_params,
}
use ra_multiplex.Examples.Registries.{child, process, one_child, the_process}
use ra_multiplex.Examples.Connections.{plain_uri, one_folder, initialized, greeting, hello}

-- The first connection is accepted.
abbrev one_waits : System Value
one_waits = record { registry = empty; waiting = 0 ∷ []; counter = 1 }

waits : Reach plain_uri false started 1 one_waits
unfolding next_client_id
waits = next here (accepts refl)

first_instance :
    find_instance plain_uri false empty (codes "ra") [] [] none one_folder child (pos 0)
    ≡ ok (one_child, 0)
unfolding find_instance select_workspace_root parse_root_uri strip_prefix get_or_spawn spawn
    initialize_handshake handshake_response id_eq HashMap.get HashMap.insert list_beq read_result
    read_struct required optional as_object present
first_instance = refl

connection_joins_example :
    (t : Registry Value) × (q : Process Value) × (Connect.connect plain_uri false empty 0
        (codes "ra")
        []
        []
        none
        hello
        one_folder
        child
        (pos 0)
        (done tt)
        initialized
      ≡ (
        t,
        initialize_reply process.instance hello ∷ [],
        ok (0, replays process.instance (record { id = 0 })),
      ))
    × (HashMap.get 0 t.store ≡ some q)
    × (HashMap.get 0 q.instance.clients ≡ some (record { client = record { id = 0 }; files = [] }))
connection_joins_example =
    connection_joins plain_uri false 1 one_waits one_child 0 (codes "ra") [] [] none hello
      one_folder child (pos 0) (done tt) initialized 0 process waits (omega arith) (inl refl)
      first_instance the_process greeting

-- The connection joins its instance, and its client opens a file.
abbrev with_clients : HashMap ℕ ClientData → ℤ → System Value
with_clients clients used = record {
  registry = record one_child {
    store =
        (
          0,
          record process {
            instance = record fresh_instance { clients = clients; last_used = used };
          },
        )
        ∷ [];
  };
  waiting = [];
  counter = 1;
}

abbrev no_file_open : System Value
no_file_open = with_clients (connected 0 [] ∷ []) (pos 0)

abbrev one_file_open : System Value
one_file_open = with_clients (connected 0 (codes "a.rs" ∷ []) ∷ []) (pos 9)

first_joins :
    no_file_open
    ≡ behind_connect plain_uri false one_waits 0
        (codes "ra")
        []
        []
        none
        hello
        one_folder
        child
        (pos 0)
        (done tt)
        initialized
unfolding find_instance select_workspace_root parse_root_uri strip_prefix get_or_spawn spawn
    initialize_handshake handshake_response id_eq HashMap.get HashMap.insert list_beq read_result
    read_struct required optional as_object present Connect.connect greet join keep add_client
    HashMap.contains_key HashMap.modify greeted
first_joins = refl

abbrev running : HashMap ℕ ClientData → ℤ → Process Value
running clients used = record process {
  instance = record fresh_instance { clients = clients; last_used = used };
}

joined_process :
    HashMap.get 0 no_file_open.registry.store ≡ some (running (connected 0 [] ∷ []) (pos 0))
unfolding HashMap.get
joined_process = refl

opens_file :
    handle_client_message
      (running (connected 0 [] ∷ []) (pos 0)).instance
      (client 0)
      (pos 9)
      true
      (notification did_open_message)
    ≡ ok (
      (running (connected 0 (codes "a.rs" ∷ []) ∷ []) (pos 9)).instance,
      to_server (did_open_notification open_params) ∷ [],
      proceed,
    )
unfolding handle_client_message classify list_beq keep_alive client_notification open_file has_open
    any HashMap.contains_key HashMap.modify HashSet.contains HashSet.insert read_open HashMap.get
    present
opens_file = refl

file_opened : one_file_open ≡ record no_file_open {
  registry =
      becomes no_file_open.registry 0
        (running (connected 0 (codes "a.rs" ∷ []) ∷ []) (pos 9)).instance;
}
unfolding HashMap.modify
file_opened = refl

trace : Reach plain_uri false started 3 one_file_open
trace =
    next
      (next waits (
        connects 0 (codes "ra") [] [] none hello one_folder child (pos 0) (done tt) initialized
          (inl refl) first_joins))
      (client_says 0 (running (connected 0 [] ∷ []) (pos 0)) (client 0) (pos 9) true
        (notification did_open_message)
        (running (connected 0 (codes "a.rs" ∷ []) ∷ []) (pos 9)).instance
        (to_server (did_open_notification open_params) ∷ []) proceed joined_process opens_file
        file_opened)

opened_process :
    HashMap.get 0 one_file_open.registry.store
    ≡ some (running (connected 0 (codes "a.rs" ∷ []) ∷ []) (pos 9))
unfolding HashMap.get
opened_process = refl

instances_shared_example :
    (after (codes "a.rs") unopened (trace_log plain_uri false trace 0)
      ≡ told (codes "a.rs") (connected 0 (codes "a.rs" ∷ []) ∷ []))
    × IsOrdered (connected 0 (codes "a.rs" ∷ []) ∷ [])
instances_shared_example =
    instances_shared Tree plain_uri false (codes "a.rs") 3 one_file_open trace 0
      (running (connected 0 (codes "a.rs" ∷ []) ∷ []) (pos 9)) opened_process refl

registry_refined_example : Steps.Reach empty one_file_open.registry × IsSound one_file_open.registry
registry_refined_example = registry_refined plain_uri false 3 one_file_open trace
