-- ===== src/Client/Connect.antt =====
-- src/client.rs: `process`, `connect`, `status` and `reload`, which serve one connection up to the
-- start of the client's two tasks. The outcomes of reads, writes and sends are arguments.
use ra_multiplex.Base.{
  ℕ, Text, codes, List, [], ◌∷◌, Option, none, some, Bool, ◌==◌, nat_eq, list_eq, if◌then◌else◌,
  Outcome, ok, err, panic, Error,
}
use ra_multiplex.Base.Int.{ℤ, pos}
use ra_multiplex.Base.Fallible.{◌>>=◌, or_error}
use ra_multiplex.Base.HashMap
use ra_multiplex.Io.{IoResult}
use ra_multiplex.Lsp.{InitializeParams}
use ra_multiplex.Lsp.Json.{Json}
use ra_multiplex.Lsp.Jsonrpc.{
  Message, Request, request, notification, response_success, response_error, version, number,
}
use ra_multiplex.Lsp.Ext.{Method, LspMuxOptions, protocol_version, drop, tag}
use ra_multiplex.Effect.{Effect}
use ra_multiplex.Instance.{Instance, InstanceKey, Client, add_client, initialize_result}
use ra_multiplex.Instance.Stdout.{null_response}
use ra_multiplex.Registry.{Registry, get_by_cwd, get_status, key_eq}
use ra_multiplex.Registry.Spawn.{Child, written, get_or_spawn, on_instance}
use ra_multiplex.Client.Workspace.{UriCrates, select_workspace_root}

-- The state that `connect` leaves, what it writes to its client, and how it ends: with the handle
-- of the instance and with what `add_client` sent.
abbrev pub Connected : Type 0 → Type 0
Connected V = Registry V × List (Message V) × Outcome (ℕ × List (Effect V))

module _ {V : Type 0} where
  -- The first message must be an `initialize` request.
  unfoldable pub expect_initialize : Message V → Outcome (Request V)
  expect_initialize (request req) =
      if req.method == codes "initialize" then ok req else err Error.not_initialize
  expect_initialize (notification notif) = err Error.not_initialize
  expect_initialize (response_success res) = err Error.not_initialize
  expect_initialize (response_error res) = err Error.not_initialize

  -- `lspMux` is taken out of the options; what is left goes on to the language server.
  unfoldable pub take_lsp_mux : InitializeParams V → Outcome (LspMuxOptions × InitializeParams V)
  take_lsp_mux init_params = do
    options ← or_error init_params.initialization_options Error.missing_initialization_options
    lsp_mux ← or_error options.lsp_mux Error.missing_lsp_mux
    ok (
      lsp_mux,
      record init_params { initialization_options = some (record options { lsp_mux = none }) },
    )

  -- The second message must be an `initialized` notification.
  unfoldable pub expect_initialized : Message V → Outcome (Unit {0})
  expect_initialized (notification notif) =
      if notif.method == codes "initialized" then ok tt else err Error.not_initialized
  expect_initialized (request req) = err Error.not_initialized
  expect_initialized (response_success res) = err Error.not_initialized
  expect_initialized (response_error res) = err Error.not_initialized

module _ {V : Type 0} ⦃json : Json V⦄ where
  -- `process` up to the dispatch on the method.
  unfoldable pub first_message :
      Outcome (Option (Message V)) → Outcome (Request V × Method × InitializeParams V)
  unfolding expect_initialize take_lsp_mux
  first_message received = do
    read ← received
    message ← or_error read Error.channel_closed
    req ← expect_initialize message
    params ← or_error (json.initialize_params.from_value req.params) Error.parsing_params
    (options, init_params) ← take_lsp_mux params
    if options.version == protocol_version
        then ok (req, options.method, init_params)
        else err Error.unsupported_version

  unfoldable pub status_reply : Registry V → Message V
  unfolding get_status
  status_reply self = response_success (record {
    jsonrpc = version;
    result = json.status_response.to_value (get_status self);
    id = number (pos 0);
  })

  unfoldable pub reload_request : Message V
  reload_request = request (record {
    jsonrpc = version;
    method = codes "rust-analyzer/reloadWorkspace";
    params = json.null;
    id = tag (number (pos 0)) drop;
  })

  unfoldable pub no_instance_reply : Message V
  no_instance_reply = response_error (record {
    jsonrpc = version;
    error = record { code = pos 0; message = codes "no instance found"; details = none };
    id = number (pos 0);
  })

  -- What `reload` sends to the instance and writes to its client, and how it ends; `sent` and
  -- `write` are the outcomes of the two.
  unfoldable pub reload :
      Text
      → Registry V
      → Bool
      → IoResult (Unit {0})
      → Option (ℕ × Message V) × List (Message V) × Outcome (Unit {0})
  unfolding get_by_cwd reload_request null_response no_instance_reply
  reload cwd self sent write = elim (get_by_cwd self.entries cwd) [
    | some (key, h) ↦
        if sent
        then (
          some (h, reload_request),
          response_success (null_response (number (pos 0))) ∷ [],
          written write,
        )
        else (some (h, reload_request), [], err Error.instance_closed)
    | none ↦ (none, no_instance_reply ∷ [], written write)
  ]

  -- The response to `initialize` is the one that the instance got from its server.
  unfoldable pub initialize_reply : Instance V → Request V → Message V
  unfolding initialize_result
  initialize_reply instance req = response_success (record {
    jsonrpc = version;
    result = json.initialize_result.to_value (initialize_result instance);
    id = req.id;
  })

  -- From the written response to the second message.
  unfoldable pub greeted : IoResult (Unit {0}) → Outcome (Option (Message V)) → Outcome (Unit {0})
  unfolding expect_initialized
  greeted write second = do
    u ← written write
    read ← second
    message ← or_error read Error.channel_closed
    expect_initialized message

  -- `instance.add_client`, on the instance in the store.
  unfoldable pub join :
      Registry V → ℕ → Instance V → Client → Outcome (Registry V × List (Effect V))
  unfolding add_client
  join self h instance client = do
    (instance', es) ← add_client instance client
    ok (record self { store = HashMap.modify h (on_instance (λ i. instance')) self.store }, es)

  abbrev pub settle :
      Registry V → ℕ → Message V → Outcome (Registry V × List (Effect V)) → Connected V
  settle self h reply (ok (self', es)) = (self', reply ∷ [], ok (h, es))
  settle self h reply (err e) = (self, reply ∷ [], err e)
  settle self h reply panic = (self, reply ∷ [], panic)

  -- The part of `connect` behind `get_or_spawn`. The handle that this returns is in the store.
  unfoldable pub greet :
      Registry V
      → ℕ
      → Client
      → Request V
      → IoResult (Unit {0})
      → Outcome (Option (Message V))
      → Connected V
  unfolding initialize_reply greeted join
  greet self h client req write second = elim (HashMap.get h self.store) [
    | some p ↦
        settle self h (initialize_reply p.instance req)
          (do u ← greeted write second; join self h p.instance client)
    | none ↦ (self, [], panic)
  ]

  module _ (uri : UriCrates) (windows : Bool) where
    unfoldable pub find_instance :
        Registry V
        → Text
        → List Text
        → List (Text × Text)
        → Option Text
        → InitializeParams V
        → Child V
        → ℤ
        → Outcome (Registry V × ℕ)
    unfolding select_workspace_root get_or_spawn
    find_instance self server args env cwd init_params child now = do
      workspace_root ← select_workspace_root uri windows init_params cwd
      let key : InstanceKey = record {
        server = server;
        args = args;
        env = env;
        workspace_root = workspace_root;
      }
      get_or_spawn self key init_params child now

    abbrev pub go_on :
        Registry V
        → Client
        → Request V
        → IoResult (Unit {0})
        → Outcome (Option (Message V))
        → Outcome (Registry V × ℕ)
        → Connected V
    go_on self client req write second (ok (self', h)) = greet self' h client req write second
    go_on self client req write second (err e) = (self, [], err e)
    go_on self client req write second panic = (self, [], panic)

    unfoldable pub connect :
        Registry V
        → ℕ
        → Text
        → List Text
        → List (Text × Text)
        → Option Text
        → Request V
        → InitializeParams V
        → Child V
        → ℤ
        → IoResult (Unit {0})
        → Outcome (Option (Message V))
        → Connected V
    unfolding find_instance greet
    connect self client_id server args env cwd req init_params child now write second =
        go_on self (record { id = client_id }) req write second
          (find_instance self server args env cwd init_params child now)
