-- ===== src/Examples/Connections.antt =====
-- Connections, commands and roots on concrete inputs.
use ra_multiplex.Base.{
  ℕ, ◌≤◌, ◌↔◌, codes, List, [], ◌∷◌, length, Option, none, some, true, false, ◌==◌, list_beq,
  list_eq, nat_eq, ◌≡◌, refl, ◌⊎◌, Outcome, ok, err, panic, Error, arith, if◌then◌else◌, In, any,
  map, All,
}
use mathlib.Core.Option
use ra_multiplex.Base.Int.{pos}
use ra_multiplex.Base.HashMap
use ra_multiplex.Io.{IoResult, done, failed, not_connected, connection_aborted}
use ra_multiplex.Str.{strip_prefix}
use ra_multiplex.Lsp.{
  InitializeParams, WorkspaceFolder, Registration, RegistrationParams, UnregistrationParams,
}
use ra_multiplex.Lsp.Jsonrpc.{Message, Request, request, notification, version}
use ra_multiplex.Effect.{to_client}
use ra_multiplex.Instance.{Instance, InstanceKey, add_client}
use ra_multiplex.Instance.Capabilities.{replayed, registered_replayed, unregistered_gone}
use ra_multiplex.Instance.Stdout.{handle_server_message}
use ra_multiplex.Registry.{key_eq}
use ra_multiplex.Client.Workspace.{UriCrates, parse_root_uri, select_workspace_root}
use ra_multiplex.Client.Roots.{
  candidates, first_candidate, select_workspace_root_first, select_workspace_root_panics,
}
use ra_multiplex.Client.Connect.{
  first_message, find_instance, greeted, initialize_reply, status_reply, reload_request,
}
use ra_multiplex.Client.Connect
use ra_multiplex.System.Untouched.{Untouched, connect_touches}
use ra_multiplex.Registry.Invariant.{Reach-IsSound}
use ra_multiplex.Str.FilePath.{path_starts_with}
use ra_multiplex.Commands.Answers.{reloaded, asked, reload_command-reload}
use ra_multiplex.Server.{Spawned, run}
use ra_multiplex.Server.Numbering.{sockets, is_fatal, IsDistinct, run_serves}
use ra_multiplex.Serde.{is_solid}
use ra_multiplex.Serde.Registrations.{read_registrations_lem, read_unregistrations_lem}
use ra_multiplex.Examples.Trees.{Tree, trees}
use ra_multiplex.Examples.World.{Value, client, null, ask, shared_instance, value_json}
use ra_multiplex.Examples.Registries.{params, child, one_child, reached}

-- A URI is `file://` and a path, and nothing is encoded.
abbrev pub plain_uri : UriCrates
plain_uri = record {
  parse = λ s. Option.map (λ path. (true, path)) (strip_prefix (codes "file://") s);
  decode = λ path. some path;
}

-- The source's own examples.
drive_test : parse_root_uri plain_uri true (codes "file:///c:/dev/proj") ≡ ok (codes "c:/dev/proj")
unfolding parse_root_uri strip_prefix
drive_test = refl

unix_test :
    parse_root_uri plain_uri true (codes "file:///home/user/proj") ≡ ok (codes "/home/user/proj")
unfolding parse_root_uri strip_prefix
unix_test = refl

abbrev folder : WorkspaceFolder
folder = record { uri = codes "file:///w"; name = codes "w" }

abbrev pub one_folder : InitializeParams Value
one_folder = record params { workspace_folders = folder ∷ [] }

abbrev two_folders : InitializeParams Value
two_folders = record params { workspace_folders = folder ∷ folder ∷ [] }

select_workspace_root_first_example :
    select_workspace_root plain_uri false one_folder none
    ≡ first_candidate (candidates plain_uri false one_folder none)
select_workspace_root_first_example =
    select_workspace_root_first plain_uri false one_folder none (omega arith)

select_workspace_root_panics_example :
    (select_workspace_root plain_uri false two_folders none ≡ panic)
    ↔ (2 ≤ length two_folders.workspace_folders)
select_workspace_root_panics_example = select_workspace_root_panics plain_uri false two_folders none

-- Sockets go by numbers here. The server ends at the second error.
abbrev accepted : List (IoResult ℕ)
accepted = done 7 ∷ failed not_connected ∷ done 8 ∷ failed connection_aborted ∷ done 9 ∷ []

run_serves_example :
    (map (λ (t : Spawned ℕ). t.socket) (run accepted).0 ≡ sockets accepted)
    × IsDistinct (map (λ (t : Spawned ℕ). t.client_id) (run accepted).0)
    × ((run accepted).1 ≡ (if any is_fatal accepted then err Error.accept_failed else ok tt))
run_serves_example = run_serves accepted (omega arith)

two_sockets : sockets accepted ≡ 7 ∷ 8 ∷ []
unfolding sockets
two_sockets = refl

abbrev pub initialized : Outcome (Option (Message Value))
initialized = ok (
    some (notification (record { jsonrpc = version; method = codes "initialized"; params = null })))

pub greeting : greeted (done tt) initialized ≡ ok tt
unfolding greeted list_beq
greeting = refl

abbrev pub hello : Request Value
hello = ask (codes "initialize")

-- A client that closes its stream instead of sending `initialized`.
abbrev hung_up : Connect.Connected Value
hung_up =
    Connect.connect plain_uri false one_child 9 (codes "ra") [] [] none hello one_folder child
      (pos 5) (done tt) (ok none)

connect_touches_example : Untouched 9 one_child hung_up.0 hung_up.2 0
connect_touches_example =
    connect_touches plain_uri false one_child 9 (codes "ra") [] [] none hello one_folder child
      (pos 5) (done tt) (ok none) 0 (Reach-IsSound one_child reached)

reload_command-reload_example :
    ((key : InstanceKey) × (h : ℕ) × In (key, h) one_child.entries
      × (path_starts_with (codes "/w/src") key.workspace_root ≡ true)
      × All
          (λ (e : InstanceKey × ℕ).
            (path_starts_with (codes "/w/src") e.0.workspace_root ≡ false)
            ⊎ (length e.0.workspace_root ≤ length key.workspace_root))
          one_child.entries
      × ((Connect.reload (codes "/w/src") one_child true (done tt)).0 ≡ some (h, asked))
      × (reloaded (Connect.reload (codes "/w/src") one_child true (done tt)).1 ≡ ok tt))
    ⊎ (All
          (λ (e : InstanceKey × ℕ). path_starts_with (codes "/w/src") e.0.workspace_root ≡ false)
          one_child.entries
        × ((Connect.reload (codes "/w/src") one_child true (done tt)).0 ≡ none)
        × (reloaded (Connect.reload (codes "/w/src") one_child true (done tt)).1
            ≡ err Error.error_response))
reload_command-reload_example = reload_command-reload (codes "/w/src") one_child

abbrev watch : Registration Value
watch = record {
  id = codes "w1";
  method = codes "workspace/didChangeWatchedFiles";
  register_options = none;
}

abbrev watch_params : RegistrationParams Value
watch_params = record { registrations = watch ∷ [] }

abbrev watch_request : Request Value
watch_request = record (ask (codes "client/registerCapability")) {
  params = value_json.registration_params.to_value watch_params;
}

ninth_new : HashMap.contains_key 9 shared_instance.clients ≡ false
unfolding HashMap.contains_key
ninth_new = refl

registered_replayed_example :
    (HashMap.get
        (codes "w1")
        (handle_server_message shared_instance (request watch_request)).0.dynamic_capabilities
      ≡ some watch)
    × (joined : Instance Value) × (all : RegistrationParams Value) × (add_client
          (handle_server_message shared_instance (request watch_request)).0
          (client 9)
        ≡ ok (joined, to_client 9 (request (replayed all)) ∷ []))
    × (HashMap.contains_key 9 joined.clients ≡ true)
    × In watch all.registrations
unfolding list_beq is_solid
registered_replayed_example =
    registered_replayed shared_instance watch_request watch_params (codes "w1") watch (client 9)
      refl (read_registrations_lem Tree watch_params (refl, tt)) refl ninth_new

abbrev unwatch_params : UnregistrationParams
unwatch_params = record { unregistrations = record { id = codes "w1"; method = codes "m" } ∷ [] }

abbrev unwatch_request : Request Value
unwatch_request = record (ask (codes "client/unregisterCapability")) {
  params = value_json.unregistration_params.to_value unwatch_params;
}

abbrev watched : Instance Value
watched = record shared_instance { dynamic_capabilities = (codes "w1", watch) ∷ [] }

unregistered_gone_example :
    HashMap.get
      (codes "w1")
      (handle_server_message watched (request unwatch_request)).0.dynamic_capabilities
    ≡ (if any (λ u. u.id == codes "w1") unwatch_params.unregistrations
        then none
        else HashMap.get (codes "w1") watched.dynamic_capabilities)
unfolding HashMap.unique HashMap.contains_key
unregistered_gone_example =
    unregistered_gone watched unwatch_request unwatch_params (codes "w1") refl refl
      (read_unregistrations_lem Tree unwatch_params)
