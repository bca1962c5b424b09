-- ===== src/Examples/Peers.antt =====
-- Messages as the source's tests and an editor write them.
use ra_multiplex.Base.{
  ℕ, codes, [], ◌∷◌, Option, none, some, true, All, list_beq, list_eq, nat_eq, ◌≡◌, refl, ok, err,
  Error, arith,
}
use mathlib.Core.Option
use ra_multiplex.Base.Int.{pos, negsuc}
use ra_multiplex.Base.HashMap
use ra_multiplex.Base.HashSet
use ra_multiplex.Lsp.{InitializeParams}
use ra_multiplex.Lsp.Jsonrpc.{
  Message, Request, request, response_error, version, visit_str, RequestId,
}
use ra_multiplex.Lsp.Ext.{status}
use ra_multiplex.Instance.{instance_status}
use ra_multiplex.Client.Connect.{first_message}
use ra_multiplex.Commands.{command_request}
use ra_multiplex.Registry.{Registry, get_status, instances}
use ra_multiplex.Serde.Status.{IsInRange}
use ra_multiplex.Proxy.{options_or_default, forwarded_request}
use ra_multiplex.Serde.{
  read_string, read_i64, read_list, read_all, read_struct, as_object, as_array, as_string, as_i64,
  optional, or_default, required, is_null, present, is_solid,
}
use ra_multiplex.Serde.Options.{
  read_options, take_options, write_options, read_lsp_mux, read_method, read_connect, read_env,
  read_entries,
}
use ra_multiplex.Serde.Params.{read_params, take_params}
use ra_multiplex.Serde.Messages.{
  read_message, write_message, read_request, read_notification, read_response_error,
  read_response_success, read_strict, strict_fields, all_known, read_version, read_id, read_error,
}
use ra_multiplex.Serde.MessageLaws.{read_message-write_message}
use ra_multiplex.Serde.Relay.{relayed}
use ra_multiplex.Serde.Codecs.{serde_json}
use ra_multiplex.Serde.Peers.{initialize_forwarded, command_received}
use ra_multiplex.Serde.Folders.{null_folders_refused}
use ra_multiplex.Examples.Trees.{
  Tree, void, integer, quote, row, table, stop, cell, empty, entry, texts, trees,
}
use ra_multiplex.Examples.World.{shared_instance, key}

-- `from_value` and then `to_value` at `Message`, which the source's tests compare with the value.
unfoldable copy : Tree → Option Tree
unfolding read_message read_request read_notification read_response_error read_response_success
    read_strict strict_fields all_known read_version visit_str read_id read_error as_object required
    or_default optional is_null read_string read_i64 as_string as_i64 HashMap.get HashSet.contains
    list_beq present
copy v = Option.map write_message (read_message v)

abbrev call : Tree → ℕ → Tree
call params id = table (
    entry (codes "jsonrpc") (quote (codes "2.0")) (
      entry (codes "method") (quote (codes "subtract"))
        (entry (codes "params") params (entry (codes "id") (integer (pos id)) empty))))

abbrev by_position : Tree
by_position = call (row (cell (integer (pos 42)) (cell (integer (pos 23)) stop))) 1

call_with_positional_parameters : copy by_position ≡ some by_position
unfolding copy
call_with_positional_parameters = refl

abbrev not_found : Tree
not_found = table (
    entry (codes "jsonrpc") (quote (codes "2.0")) (
      entry (codes "error")
        (table (
          entry (codes "code") (integer (negsuc 32600))
            (entry (codes "message") (quote (codes "Method not found")) empty)))
        (entry (codes "id") (quote (codes "1")) empty)))

error_test : copy not_found ≡ some not_found
unfolding copy
error_test = refl

unfoldable copy_options : Tree → Option Tree
unfolding read_options take_options read_lsp_mux read_method read_connect read_env read_entries
    read_struct read_list read_all as_object as_array as_string required or_default optional is_null
    read_string HashMap.get list_beq present
copy_options v = Option.map write_options (read_options v)

abbrev section : Tree → Tree
section v = table (
    entry (codes "lspMux") v
      (entry (codes "lspmux") (quote (codes "also not it")) (entry (codes "b") void empty)))

abbrev connect_section : Tree
connect_section = section (
    table (
      entry (codes "version") (quote (codes "1")) (
        entry (codes "method") (quote (codes "connect")) (
          entry (codes "server") (quote (codes "some-language-server"))
            (entry (codes "args") (texts (codes "a" ∷ codes "b" ∷ [])) empty)))))

lsp_mux_and_other_stuff : copy_options connect_section ≡ some connect_section
unfolding copy_options
lsp_mux_and_other_stuff = refl

missing_version :
    copy_options (section (table (entry (codes "method") (quote (codes "status")) empty))) ≡ none
unfolding copy_options
missing_version = refl

missing_method :
    copy_options (section (table (entry (codes "version") (quote (codes "1")) empty))) ≡ none
unfolding copy_options
missing_method = refl

missing_server :
    copy_options (
      section (
        table (
          entry
            (codes "version")
            (quote (codes "1"))
            (entry (codes "method") (quote (codes "connect")) empty))))
    ≡ none
unfolding copy_options
missing_server = refl

abbrev failed : Message Tree
failed = response_error (record {
  jsonrpc = version;
  error = record { code = negsuc 32600; message = codes "Method not found"; details = none };
  id = RequestId.string (codes "1");
})

read_message-write_message_example : read_message (write_message failed) ≡ some failed
unfolding is_solid
read_message-write_message_example = read_message-write_message Tree failed (tt, omega arith, refl)

not_found_read : read_message not_found ≡ some failed
unfolding read_message read_request read_notification read_response_error read_strict strict_fields
    all_known read_version visit_str read_id read_error as_object required optional read_string
    read_i64 as_string as_i64 HashMap.get HashSet.contains list_beq
not_found_read = refl

relayed_example : read_message (write_message failed) ≡ some failed
relayed_example = relayed not_found failed not_found_read

abbrev pub initialize_params : Tree
initialize_params = table (entry (codes "rootUri") (quote (codes "file:///w")) empty)

abbrev hello : Tree → Request Tree
hello params = record {
  jsonrpc = version;
  method = codes "initialize";
  params = params;
  id = RequestId.number (pos 0);
}

abbrev pub read_hello : InitializeParams Tree
read_hello = record {
  process_id = none;
  client_info = none;
  locale = none;
  root_path = none;
  root_uri = some (codes "file:///w");
  initialization_options = none;
  capabilities = none;
  trace = none;
  workspace_folders = [];
}

initialize_forwarded_example :
    (req' : Request Tree) × (forwarded_request ⦃json = serde_json⦄ status
        (ok (some (request (hello initialize_params))))
      ≡ ok (request req'))
    × (first_message ⦃json = serde_json⦄ (ok (some (request req')))
        ≡ ok (
          req',
          status,
          record read_hello {
            initialization_options =
                some (record (options_or_default read_hello.initialization_options) {
                  lsp_mux = none;
                });
          },
        ))
    × (req'.id ≡ (hello initialize_params).id)
unfolding list_beq read_params take_params read_struct as_object as_string optional or_default
    is_null read_string HashMap.get options_or_default
initialize_forwarded_example =
    initialize_forwarded Tree status (hello initialize_params) read_hello refl refl refl

abbrev null_folders : Tree
null_folders = table (entry (codes "workspaceFolders") void empty)

null_folders_refused_example :
    (forwarded_request ⦃json = serde_json⦄ status (ok (some (request (hello null_folders))))
      ≡ err Error.parsing_params)
    × (first_message ⦃json = serde_json⦄ (ok (some (request (hello null_folders))))
        ≡ err Error.parsing_params)
unfolding list_beq HashMap.get
null_folders_refused_example =
    null_folders_refused Tree status (hello null_folders) ((codes "workspaceFolders", void) ∷ [])
      void refl refl refl refl

command_received_example :
    (req : Request Tree) × (params : InitializeParams Tree) × (command_request ⦃json = serde_json⦄
        status
      ≡ request req)
    × (first_message ⦃json = serde_json⦄ (ok (some (command_request ⦃json = serde_json⦄ status)))
        ≡ ok (req, status, params))
command_received_example = command_received Tree status

abbrev one_child : Registry Tree
one_child = record {
  entries = (key, 0) ∷ [];
  store = (0, record { instance = shared_instance; running = true }) ∷ [];
  next = 1;
}

in_range : All IsInRange (get_status one_child).instances
unfolding get_status instances instance_status HashMap.get
in_range = ((omega arith, omega arith), tt)
