-- ===== src/Serde/ParamLaws.antt =====
-- The parameters of `initialize` and its result, written and read again.
use ra_multiplex.Base.{
  codes, List, [], ◌∷◌, Option, none, some, true, list_beq, list_eq, nat_eq, ◌≡◌, refl, All, arith,
}
use ra_multiplex.Base.HashMap
use ra_multiplex.Base.HashMap.{HashMap}
use ra_multiplex.Lsp.{
  ClientInfo, InitializationOptions, TraceValue, off, messages, verbose, WorkspaceFolder,
  InitializeParams, ServerInfo, InitializeResult,
}
use ra_multiplex.Serde.{
  Value, Shape, IsReadAs, required, optional, or_default, read_string, write_string, read_u64,
  write_u64, read_list, write_option, write_struct, written, is_null, is_solid,
}
use ra_multiplex.Serde.Laws.{
  read_string_lem, read_u64_lem, read_list_lem, read_struct_lem, optional_lem,
  optional-write_option, write_string_solid, write_struct_solid, write_u64_solid, is_null-build,
}
use ra_multiplex.Serde.Options.{read_options, write_options, read_options_lem, write_options_solid}
use ra_multiplex.Serde.Params.{
  trace_name, trace_named, client_info_fields, read_client_info, server_info_fields,
  read_server_info, folder_fields, read_folder, read_trace, write_trace, folders_field,
  params_fields, take_params, read_params, result_fields, read_result,
}

-- What can be told from its text: a `Some` that holds `null`, and an option that has the name of the
-- multiplexer's own section, cannot.
pub record IsReadable {V : Type 0} ⦃value : Value V⦄ (params : InitializeParams V) : Type 0 where
  pub solid : is_solid params.capabilities ≡ true
  pub bare :
      (options : InitializationOptions V)
      → params.initialization_options ≡ some options
      → HashMap.get (codes "lspMux") options.other_options ≡ none

module _ (V : Type 0) ⦃value : Value V⦄ where
  read_client_info_lem :
      (info : ClientInfo)
      → read_client_info {V = V} (write_struct (client_info_fields info)) ≡ some info
  unfolding read_client_info required HashMap.unique HashMap.contains_key HashMap.get list_beq
  read_client_info_lem info = rw (
    read_struct_lem V (client_info_fields info) refl,
    read_string_lem V info.name,
    optional-write_option V read_string write_string info.version (read_string_lem V)
        (write_string_solid V),
  )

  read_server_info_lem :
      (info : ServerInfo)
      → read_server_info {V = V} (write_struct (server_info_fields info)) ≡ some info
  unfolding read_server_info required HashMap.unique HashMap.contains_key HashMap.get list_beq
  read_server_info_lem info = rw (
    read_struct_lem V (server_info_fields info) refl,
    read_string_lem V info.name,
    optional-write_option V read_string write_string info.version (read_string_lem V)
        (write_string_solid V),
  )

  read_folder_lem :
      (folder : WorkspaceFolder)
      → read_folder {V = V} (write_struct (folder_fields folder)) ≡ some folder
  unfolding read_folder required HashMap.unique HashMap.contains_key HashMap.get list_beq
  read_folder_lem folder = rw (
    read_struct_lem V (folder_fields folder) refl,
    read_string_lem V folder.uri,
    read_string_lem V folder.name,
  )

  read_trace_lem : (t : TraceValue) → read_trace {V = V} (write_trace t) ≡ some t
  unfolding read_trace trace_named list_beq
  read_trace_lem off = rw (read_string_lem V (codes "off"))
  read_trace_lem messages = rw (read_string_lem V (codes "messages"))
  read_trace_lem verbose = rw (read_string_lem V (codes "verbose"))

  read_folders_lem :
      (fs : List WorkspaceFolder)
      → All (IsReadAs (read_folder {V = V}) (λ g. write_struct (folder_fields g))) fs
  read_folders_lem [] = tt
  read_folders_lem (f ∷ fs) = (read_folder_lem f, read_folders_lem fs)

  folders_field_lem :
      (fs : List WorkspaceFolder)
      → or_default (read_list (read_folder {V = V})) [] (folders_field fs) ≡ some fs
  unfolding or_default
  folders_field_lem [] = refl
  folders_field_lem (f ∷ fs) =
      read_list_lem V read_folder (λ g. write_struct (folder_fields g)) (f ∷ fs)
        (read_folders_lem (f ∷ fs))

  options_field_lem :
      (o : Option (InitializationOptions V))
      → ((options : InitializationOptions V)
          → o ≡ some options
          → HashMap.get (codes "lspMux") options.other_options ≡ none)
      → optional read_options (some (write_option write_options o)) ≡ some o
  unfolding optional is_null
  options_field_lem none bare = rw (is_null-build V Shape.null)
  options_field_lem (some options) bare =
      rw (write_options_solid V options, read_options_lem V options (bare options refl))

  capabilities_lem :
      (o : Option V) → is_solid o ≡ true → optional some (some (write_option (λ v. v) o)) ≡ some o
  unfolding optional is_solid is_null
  capabilities_lem none h = rw (is_null-build V Shape.null)
  capabilities_lem (some v) h = ground arith

  params_unique : (params : InitializeParams V) → HashMap.unique (params_fields params) ≡ true
  unfolding HashMap.unique HashMap.contains_key list_beq
  params_unique params = refl

  take_params_lem :
      (params : InitializeParams V)
      → IsReadable params
      → take_params (written (params_fields params)) ≡ some params
  unfolding take_params HashMap.get list_beq
  take_params_lem params r = rw (
    optional-write_option V read_u64 write_u64 params.process_id (read_u64_lem V)
        (write_u64_solid V),
    optional_lem V read_client_info (λ i. write_struct (client_info_fields i)) params.client_info
        read_client_info_lem (λ i. write_struct_solid V (client_info_fields i)),
    optional_lem V read_string write_string params.locale (read_string_lem V)
        (write_string_solid V),
    optional_lem V read_string write_string params.root_path (read_string_lem V)
        (write_string_solid V),
    optional-write_option V read_string write_string params.root_uri (read_string_lem V)
        (write_string_solid V),
    options_field_lem params.initialization_options r.bare,
    capabilities_lem params.capabilities r.solid,
    optional_lem V read_trace write_trace params.trace read_trace_lem
        (λ t. write_string_solid V (trace_name t)),
    folders_field_lem params.workspace_folders,
  )

  pub read_params_lem :
      (params : InitializeParams V)
      → IsReadable params
      → read_params (write_struct (params_fields params)) ≡ some params
  unfolding read_params
  read_params_lem params r =
      rw (read_struct_lem V (params_fields params) (params_unique params))
        (take_params_lem params r)

  pub read_result_lem :
      (result : InitializeResult V)
      → read_result (write_struct (result_fields result)) ≡ some result
  unfolding read_result required HashMap.unique HashMap.contains_key HashMap.get list_beq
  read_result_lem result = rw (
    read_struct_lem V (result_fields result) refl,
    optional_lem V read_server_info (λ i. write_struct (server_info_fields i)) result.server_info
        read_server_info_lem (λ i. write_struct_solid V (server_info_fields i)),
  )
