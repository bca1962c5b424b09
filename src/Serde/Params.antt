-- ===== src/Serde/Params.antt =====
-- src/lsp.rs: how the parameters of `initialize` and the registrations are written and read.
use mathlib.Core.Option
use ra_multiplex.Base.{
  Text, codes, List, [], ◌∷◌, Option, none, some, ◌==◌, list_eq, nat_eq, if◌then◌else◌,
}
use ra_multiplex.Base.Try.{◌>>=◌}
use ra_multiplex.Base.HashMap.{HashMap}
use ra_multiplex.Lsp.{
  ClientInfo, TraceValue, off, messages, verbose, WorkspaceFolder, InitializeParams, ServerInfo,
  InitializeResult,
}
use ra_multiplex.Serde.{
  Value, required, optional, or_default, read_string, write_string, read_u64, write_u64, read_list,
  write_list, write_option, read_struct, write_struct,
}
use ra_multiplex.Serde.Options.{read_options, write_options}

-- `rename_all = "camelCase"` on the variants.
abbrev pub trace_name : TraceValue → Text
trace_name off = codes "off"
trace_name messages = codes "messages"
trace_name verbose = codes "verbose"

unfoldable pub trace_named : Text → Option TraceValue
trace_named s =
    if s == codes "off"
    then some off
    else if s == codes "messages"
    then some messages
    else if s == codes "verbose"
    then some verbose
    else none

module _ {V : Type 0} ⦃value : Value V⦄ where
  abbrev pub client_info_fields : ClientInfo → HashMap Text (Option V)
  client_info_fields info =
      (codes "name", some (write_string info.name))
      ∷ (codes "version", some (write_option write_string info.version))
      ∷ []

  unfoldable pub read_client_info : V → Option ClientInfo
  unfolding required optional read_string read_struct
  read_client_info v = do
    field ← read_struct v
    name ← required read_string (field (codes "name"))
    version ← optional read_string (field (codes "version"))
    some (record { name = name; version = version })

  abbrev pub server_info_fields : ServerInfo → HashMap Text (Option V)
  server_info_fields info =
      (codes "name", some (write_string info.name))
      ∷ (codes "version", some (write_option write_string info.version))
      ∷ []

  unfoldable pub read_server_info : V → Option ServerInfo
  unfolding required optional read_string read_struct
  read_server_info v = do
    field ← read_struct v
    name ← required read_string (field (codes "name"))
    version ← optional read_string (field (codes "version"))
    some (record { name = name; version = version })

  abbrev pub folder_fields : WorkspaceFolder → HashMap Text (Option V)
  folder_fields folder =
      (codes "uri", some (write_string folder.uri))
      ∷ (codes "name", some (write_string folder.name))
      ∷ []

  unfoldable pub read_folder : V → Option WorkspaceFolder
  unfolding required read_string read_struct
  read_folder v = do
    field ← read_struct v
    uri ← required read_string (field (codes "uri"))
    name ← required read_string (field (codes "name"))
    some (record { uri = uri; name = name })

  unfoldable pub read_trace : V → Option TraceValue
  unfolding trace_named read_string
  read_trace v = do s ← read_string v; trace_named s

  abbrev pub write_trace : TraceValue → V
  write_trace t = write_string (trace_name t)

  -- `skip_serializing_if = "Vec::is_empty"`
  abbrev pub folders_field : List WorkspaceFolder → Option V
  folders_field [] = none
  folders_field (f ∷ fs) = some (write_list (λ g. write_struct (folder_fields g)) (f ∷ fs))

  abbrev pub params_fields : InitializeParams V → HashMap Text (Option V)
  params_fields params =
      (codes "processId", some (write_option write_u64 params.process_id))
      ∷ (
        codes "clientInfo",
        Option.map (λ i. write_struct (client_info_fields i)) params.client_info,
      )
      ∷ (codes "locale", Option.map write_string params.locale)
      ∷ (codes "rootPath", Option.map write_string params.root_path)
      ∷ (codes "rootUri", some (write_option write_string params.root_uri))
      ∷ (
        codes "initializationOptions",
        some (write_option write_options params.initialization_options),
      )
      ∷ (codes "capabilities", some (write_option (λ v. v) params.capabilities))
      ∷ (codes "trace", Option.map write_trace params.trace)
      ∷ (codes "workspaceFolders", folders_field params.workspace_folders)
      ∷ []

  -- A folder list that is `null` is an error, as opposed to one that is left out.
  unfoldable pub take_params : (Text → Option V) → Option (InitializeParams V)
  unfolding optional or_default read_u64 read_string read_client_info read_options read_trace
      read_list read_folder
  take_params field = do
    process_id ← optional read_u64 (field (codes "processId"))
    client_info ← optional read_client_info (field (codes "clientInfo"))
    locale ← optional read_string (field (codes "locale"))
    root_path ← optional read_string (field (codes "rootPath"))
    root_uri ← optional read_string (field (codes "rootUri"))
    options ← optional read_options (field (codes "initializationOptions"))
    capabilities ← optional some (field (codes "capabilities"))
    trace ← optional read_trace (field (codes "trace"))
    folders ← or_default (read_list read_folder) [] (field (codes "workspaceFolders"))
    some (record {
      process_id = process_id;
      client_info = client_info;
      locale = locale;
      root_path = root_path;
      root_uri = root_uri;
      initialization_options = options;
      capabilities = capabilities;
      trace = trace;
      workspace_folders = folders;
    })

  unfoldable pub read_params : V → Option (InitializeParams V)
  unfolding take_params read_struct
  read_params v = do field ← read_struct v; take_params field

  abbrev pub result_fields : InitializeResult V → HashMap Text (Option V)
  result_fields result =
      (codes "capabilities", some result.capabilities)
      ∷ (
        codes "serverInfo",
        Option.map (λ i. write_struct (server_info_fields i)) result.server_info,
      )
      ∷ []

  unfoldable pub read_result : V → Option (InitializeResult V)
  unfolding required optional read_server_info read_struct
  read_result v = do
    field ← read_struct v
    capabilities ← required some (field (codes "capabilities"))
    server_info ← optional read_server_info (field (codes "serverInfo"))
    some (record { capabilities = capabilities; server_info = server_info })
