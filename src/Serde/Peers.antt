-- ===== src/Serde/Peers.antt =====
-- src/proxy.rs, src/client.rs, src/ext.rs and src/instance.rs over serde_json: what the parts rely on
-- of the conversions is so.
use ra_multiplex.Base.{
  Text, codes, Option, none, some, true, ◌==◌, list_eq, nat_eq, ◌≡◌, refl, All, ok, subst,
}
use mathlib.Core.Option.{some-injective}
use ra_multiplex.Base.HashMap
use ra_multiplex.Base.HashMap.{HashMap}
use ra_multiplex.Io.{done}
use ra_multiplex.Lsp.{InitializeParams, InitializationOptions}
use ra_multiplex.Lsp.Jsonrpc.{Request, request}
use ra_multiplex.Lsp.Ext.{Method}
use ra_multiplex.Client.Connect.{first_message, status_reply}
use ra_multiplex.Commands.{command_params, command_request, status_command}
use ra_multiplex.Commands.Answers.{command_request-first_message, status_command-status_reply}
use ra_multiplex.Proxy.{options_or_default, patch, forwarded_request}
use ra_multiplex.Proxy.Handover.{forwarded_request-first_message}
use ra_multiplex.Registry.{Registry, get_status}
use ra_multiplex.Session.Documents.{unopened}
use ra_multiplex.Session.Files.{told, after}
use ra_multiplex.Session.Steps.{Session, Reach}
use ra_multiplex.Session.Invariant.{IsFresh, Reach-told}
use ra_multiplex.Serde.{Value, is_solid}
use ra_multiplex.Serde.Params.{read_params}
use ra_multiplex.Serde.ParamLaws.{IsReadable}
use ra_multiplex.Serde.Readable.{read_params-IsReadable}
use ra_multiplex.Serde.Status.{IsInRange}
use ra_multiplex.Serde.Codecs.{
  serde_json, params_IsReadBack, status_IsReadBack, did_open_RoundTrips, did_close_RoundTrips,
}

module _ (V : Type 0) ⦃value : Value V⦄ where
  default_bare :
      (o : Option (InitializationOptions V))
      → ((options : InitializationOptions V)
          → o ≡ some options
          → HashMap.get (codes "lspMux") options.other_options ≡ none)
      → HashMap.get (codes "lspMux") (options_or_default o).other_options ≡ none
  unfolding options_or_default HashMap.get
  default_bare none bare = refl
  default_bare (some options) bare = bare options refl

  -- The section that the proxy adds leaves what else is in the parameters readable.
  pub patch-IsReadable :
      (method : Method) (params : InitializeParams V)
      → IsReadable params
      → IsReadable (patch method params)
  unfolding patch
  patch-IsReadable method params r = record {
    solid = r.solid;
    bare = λ options same.
        subst (λ (o : InitializationOptions V). HashMap.get (codes "lspMux") o.other_options ≡ none)
          (some-injective _ _ same) (default_bare params.initialization_options r.bare);
  }

  command_params-IsReadable : (method : Method) → IsReadable {V = V} (command_params method)
  unfolding command_params HashMap.get
  command_params-IsReadable method = record {
    solid = unfold is_solid in refl;
    bare = λ options same.
        subst (λ (o : InitializationOptions V). HashMap.get (codes "lspMux") o.other_options ≡ none)
          (some-injective _ _ same) refl;
  }

  -- Over serde_json, the proxy forwards every `initialize` request that it can read and that has no
  -- `lspMux` section, and the server finds in it the proxy's method and, the section removed, what
  -- the editor sent.
  pub initialize_forwarded :
      (method : Method) (req : Request V) (params : InitializeParams V)
      → (req.method == codes "initialize") ≡ true
      → read_params req.params ≡ some params
      → (options_or_default params.initialization_options).lsp_mux ≡ none
      → (req' : Request V) × (forwarded_request ⦃json = serde_json⦄ method (ok (some (request req)))
          ≡ ok (request req'))
        × (first_message ⦃json = serde_json⦄ (ok (some (request req')))
            ≡ ok (
              req',
              method,
              record params {
                initialization_options =
                    some (record (options_or_default params.initialization_options) {
                      lsp_mux = none;
                    });
              },
            ))
        × (req'.id ≡ req.id)
  initialize_forwarded method req params is_init reads bare =
      forwarded_request-first_message ⦃json = serde_json⦄ method req params
        (params_IsReadBack V (patch method params)
          (patch-IsReadable method params (read_params-IsReadable req.params params reads)))
        is_init reads bare

  -- Over serde_json, the server reads from a command's message exactly the method of the command.
  pub command_received :
      (method : Method)
      → (req : Request V) × (params : InitializeParams V) × (command_request ⦃json = serde_json⦄
            method
          ≡ request req)
        × (first_message ⦃json = serde_json⦄
              (ok (some (command_request ⦃json = serde_json⦄ method)))
            ≡ ok (req, method, params))
  command_received method =
      command_request-first_message ⦃json = serde_json⦄ method
        (params_IsReadBack V (command_params method) (command_params-IsReadable method))

  -- Over serde_json, the status command returns the registry's status, if the process ids fit a
  -- `u32` and the times an `i64`.
  pub status_received :
      (self : Registry V)
      → All IsInRange (get_status self).instances
      → status_command ⦃json = serde_json⦄
          (done tt)
          (ok (some (status_reply ⦃json = serde_json⦄ self)))
        ≡ ok (get_status self)
  status_received self h =
      status_command-status_reply ⦃json = serde_json⦄ self (status_IsReadBack V (get_status self) h)

  -- Over serde_json, whatever clients and server did since the start of an instance, the language
  -- server has a document open exactly if some connected client has it open, and it was never told
  -- to open a document that it had open.
  pub documents_shared :
      (uri : Text) (s t : Session V)
      → IsFresh s
      → Reach ⦃json = serde_json⦄ s t
      → after ⦃json = serde_json⦄ uri unopened t.log ≡ told uri t.instance.clients
  documents_shared uri s t f r =
      Reach-told ⦃json = serde_json⦄ (did_open_RoundTrips V) (did_close_RoundTrips V) uri s t f r
