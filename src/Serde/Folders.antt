-- ===== src/Serde/Folders.antt =====
-- src/lsp.rs: an `initialize` request whose `workspaceFolders` is `null`, which the protocol allows.
use ra_multiplex.Base.{
  Text, codes, Option, none, some, true, ◌==◌, list_eq, nat_eq, ◌≡◌, ok, err, Error,
}
use ra_multiplex.Base.Try.{bind-none}
use ra_multiplex.Base.HashMap
use ra_multiplex.Base.HashMap.{HashMap}
use ra_multiplex.Lsp.Jsonrpc.{Request, request}
use ra_multiplex.Lsp.Ext.{Method}
use ra_multiplex.Client.Connect.{first_message, expect_initialize}
use ra_multiplex.Proxy.{forwarded_request}
use ra_multiplex.Serde.{
  Value, Shape, or_default, read_list, read_struct, as_array, as_object, optional, read_u64,
  read_string,
}
use ra_multiplex.Serde.Options.{read_options}
use ra_multiplex.Serde.Params.{read_params, take_params, read_folder, read_client_info, read_trace}
use ra_multiplex.Serde.Codecs.{serde_json}

module _ (V : Type 0) ⦃value : Value V⦄ where
  null_list : (v : V) → value.view v ≡ Shape.null → read_list read_folder v ≡ none
  unfolding read_list as_array
  null_list v h = rw h

  take_params_null :
      (field : Text → Option V) (v : V)
      → field (codes "workspaceFolders") ≡ some v
      → value.view v ≡ Shape.null
      → take_params field ≡ none
  unfolding take_params or_default
  take_params_null field v h n =
      bind-none (optional read_u64 (field (codes "processId"))) _ λ process_id.
        bind-none (optional read_client_info (field (codes "clientInfo"))) _ λ info.
          bind-none (optional read_string (field (codes "locale"))) _ λ locale.
            bind-none (optional read_string (field (codes "rootPath"))) _ λ path.
              bind-none (optional read_string (field (codes "rootUri"))) _ λ uri.
                bind-none (optional read_options (field (codes "initializationOptions"))) _
                  λ options. bind-none (optional some (field (codes "capabilities"))) _ λ caps.
                    bind-none (optional read_trace (field (codes "trace"))) _
                      λ trace. rw (h, null_list v n)

  read_params_null :
      (params v : V) (es : HashMap Text V)
      → value.view params ≡ Shape.object es
      → HashMap.get (codes "workspaceFolders") es ≡ some v
      → value.view v ≡ Shape.null
      → read_params params ≡ none
  unfolding read_params read_struct as_object
  read_params_null params v es o h n = rw o (take_params_null (λ k. HashMap.get k es) v h n)

  -- An `initialize` request whose `workspaceFolders` is `null` is refused with an error, by the
  -- proxy and by the server, whatever else it holds.
  pub null_folders_refused :
      (method : Method) (req : Request V) (es : HashMap Text V) (v : V)
      → (req.method == codes "initialize") ≡ true
      → value.view req.params ≡ Shape.object es
      → HashMap.get (codes "workspaceFolders") es ≡ some v
      → value.view v ≡ Shape.null
      → (forwarded_request ⦃json = serde_json⦄ method (ok (some (request req)))
          ≡ err Error.parsing_params)
        × (first_message ⦃json = serde_json⦄ (ok (some (request req))) ≡ err Error.parsing_params)
  unfolding forwarded_request first_message expect_initialize
  null_folders_refused method req es v is_init o h n = (
    rw (is_init, read_params_null req.params v es o h n),
    rw (is_init, read_params_null req.params v es o h n),
  )
