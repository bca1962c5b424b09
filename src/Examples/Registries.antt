-- ===== src/Examples/Registries.antt =====
-- Two clients with one key, the child's exit, and a lookup by directory.
use ra_multiplex.Base.{
  ℕ, ◌≤◌, codes, [], ◌∷◌, none, some, true, ◌&&◌, ◌||◌, list_beq, list_eq, nat_eq, ◌≡◌, refl, ok,
  err, panic, Error, length,
}
use ra_multiplex.Base.Int.{pos, ltb_ℤ}
use ra_multiplex.Base.HashMap
use ra_multiplex.Base.HashMap.{HashMap}
use ra_multiplex.Io.{done}
use ra_multiplex.Str.FilePath.{path_starts_with}
use ra_multiplex.Lsp.{InitializeParams}
use ra_multiplex.Lsp.Jsonrpc.{id_eq, response_success, string}
use ra_multiplex.Instance.{InstanceKey, idle, open_file, cleanup_client}
use ra_multiplex.Registry.{key_eq, Registry, Process, empty, get_by_cwd}
use ra_multiplex.Registry.Lookup.{get_by_cwd_longest}
use ra_multiplex.Registry.Spawn.{
  Child, spawn, initialize_handshake, handshake_response, handshake_id, get_or_spawn, gc_round,
  child_exit,
}
use ra_multiplex.Registry.Steps.{Reach, connects, here, next}
use ra_multiplex.Registry.Closing.{
  get_or_spawn_again, gc_round_closes, child_exit_disconnects, no_clients,
}
use ra_multiplex.Serde.{write_struct, read_struct, required, optional, as_object, present}
use ra_multiplex.Serde.Params.{result_fields, read_result}
use ra_multiplex.Examples.Trees.{trees}
use ra_multiplex.Examples.World.{
  Value, value_json, key, client, fresh_instance, null, reply, open_params, open_value, opens,
}

abbrev pub params : InitializeParams Value
params = record {
  process_id = none;
  client_info = none;
  locale = none;
  root_path = none;
  root_uri = none;
  initialization_options = none;
  capabilities = none;
  trace = none;
  workspace_folders = [];
}

abbrev init_result : Value
init_result = write_struct (result_fields (record { capabilities = null; server_info = none }))

abbrev pub child : Child Value
child = record {
  started = true;
  id = some 7;
  io = record {
    first_write = done tt;
    response =
        ok
          (some (response_success (record (reply (string handshake_id)) { result = init_result })));
    second_write = done tt;
  };
}

abbrev pub process : Process Value
process = record { instance = fresh_instance; running = true }

abbrev pub one_child : Registry Value
one_child = record { entries = (key, 0) ∷ []; store = (0, process) ∷ []; next = 1 }

spawned : get_or_spawn empty key params child (pos 0) ≡ ok (one_child, 0)
unfolding get_or_spawn spawn initialize_handshake handshake_response id_eq HashMap.get
    HashMap.insert list_beq read_result read_struct required optional as_object present
spawned = refl

pub reached : Reach empty one_child
reached = next here (connects key params child (pos 0) 0 spawned)

pub the_process : HashMap.get 0 one_child.store ≡ some process
unfolding HashMap.get
the_process = refl

get_or_spawn_again_example : get_or_spawn one_child key params child (pos 5) ≡ ok (one_child, 0)
get_or_spawn_again_example =
    get_or_spawn_again empty one_child key params params child child (pos 0) (pos 5) 0 spawned

gc_round_closes_example :
    (q : Process Value) × (HashMap.get 0 (gc_round (some 300) (pos 900) one_child).store ≡ some q)
    × (q.instance.close ≡ (
        process.instance.close
        || (no_clients process.instance.clients
            && ltb_ℤ (pos 300) (idle process.instance (pos 900)))))
    × (q.instance.clients ≡ process.instance.clients)
    × (q.running ≡ true)
gc_round_closes_example = gc_round_closes one_child 300 (pos 900) 0 process reached the_process refl

child_exit_disconnects_example :
    (q : Process Value) × (HashMap.get 0 (child_exit one_child 0 process).store ≡ some q)
    × (HashMap.get process.instance.key (child_exit one_child 0 process).entries ≡ none)
    × (open_file q.instance 1 open_value ≡ panic)
    × (cleanup_client q.instance (client 1) ≡ err Error.client_was_not_connected)
child_exit_disconnects_example =
    child_exit_disconnects one_child 0 process 1 open_params open_value (client 1) reached
      the_process (opens open_params)

abbrev nested : InstanceKey
nested = record key { workspace_root = codes "/w/x" }

abbrev two_roots : HashMap InstanceKey ℕ
two_roots = (key, 0) ∷ (nested, 1) ∷ []

two_unique : HashMap.unique two_roots ≡ true
unfolding HashMap.unique HashMap.contains_key list_beq
two_unique = refl

outer_found : HashMap.get key two_roots ≡ some 0
unfolding HashMap.get list_beq
outer_found = refl

outer_covers : path_starts_with (codes "/w/x/src") key.workspace_root ≡ true
unfolding path_starts_with list_beq
outer_covers = refl

inner_found : get_by_cwd two_roots (codes "/w/x/src") ≡ some (nested, 1)
unfolding get_by_cwd path_starts_with list_beq
inner_found = refl

get_by_cwd_longest_example :
    (e : InstanceKey × ℕ) × (get_by_cwd two_roots (codes "/w/x/src") ≡ some e)
    × (HashMap.get e.0 two_roots ≡ some e.1)
    × (path_starts_with (codes "/w/x/src") e.0.workspace_root ≡ true)
    × (length key.workspace_root ≤ length e.0.workspace_root)
get_by_cwd_longest_example =
    get_by_cwd_longest two_roots (codes "/w/x/src") key 0 two_unique outer_found outer_covers
