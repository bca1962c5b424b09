-- ===== src/Instance.antt =====
-- src/instance.rs: a language server instance and the operations on its clients. The locks on
-- `clients` and on `dynamic_capabilities` are held from the first read to the last send of an
-- operation, so each operation is one step.

pub mod Stdout
pub mod Task
pub mod Capabilities
use mathlib.Core.Option
use ra_multiplex.Base.{
  ℕ, Text, codes, List, [], ◌∷◌, ◌++◌, Option, none, some, Bool, true, false, not, map, ◌==◌,
  nat_eq, list_eq, any, if◌then◌else◌, Outcome, ok, err, panic, Error,
}
use ra_multiplex.Base.Int.{ℤ, pos, ◌-ℤ◌, max_ℤ}
use ra_multiplex.Base.HashMap
use ra_multiplex.Base.HashMap.{HashMap}
use ra_multiplex.Base.HashSet
use ra_multiplex.Base.HashSet.{HashSet}
use ra_multiplex.Base.Fallible.{◌>>=◌}
use ra_multiplex.Lsp.{
  InitializeResult, Registration, RegistrationParams, UnregistrationParams, Unregistration,
  DidOpenTextDocumentParams, DidCloseTextDocumentParams,
}
use ra_multiplex.Lsp.Json.{Json}
use ra_multiplex.Lsp.Jsonrpc.{Message, request, notification, Version, version, string}
use ra_multiplex.Lsp.Ext.{Tag, drop, tag, ClientStatus, InstanceStatus}
use ra_multiplex.Effect.{Effect, to_server, to_client}

pub record InstanceKey : Type 0 where
  pub server : Text
  pub args : List Text
  pub env : List (Text × Text)
  pub workspace_root : Text

-- The handle of a client: its id names its channel.
pub record Client : Type 0 where
  pub id : ℕ

pub record ClientData : Type 0 where
  pub client : Client
  pub files : HashSet Text

-- `close` tells whether `notify_one` has left a permit for `wait_task`. The sender of the language
-- server's channel is not part of the state: what is sent is an `Effect`.
pub record Instance (V : Type 0) : Type 0 where
  pub key : InstanceKey
  pub pid : ℕ
  pub init_result : InitializeResult V
  pub clients : HashMap ℕ ClientData
  pub dynamic_capabilities : HashMap Text (Registration V)
  pub close : Bool
  pub last_used : ℤ

-- A client's status is taken from its data.
unfoldable pub client_status : ClientData → ClientStatus
client_status d = record { id = d.client.id; files = d.files }

unfoldable pub has_open : Text → HashMap ℕ ClientData → Bool
has_open uri clients = any (λ d. HashSet.contains d.files uri) (HashMap.values clients)

module _ {V : Type 0} where
  unfoldable pub keep_alive : Instance V → ℤ → Instance V
  keep_alive self now = record self { last_used = now }

  unfoldable pub idle : Instance V → ℤ → ℤ
  idle self now = max_ℤ (pos 0) (now -ℤ self.last_used)

  unfoldable pub initialize_result : Instance V → InitializeResult V
  initialize_result self = self.init_result

  unfoldable pub instance_status : Instance V → InstanceStatus
  unfolding client_status
  instance_status self = record {
    pid = self.pid;
    server = self.key.server;
    args = self.key.args;
    env = self.key.env;
    workspace_root = self.key.workspace_root;
    registered_dyn_capabilities = map (λ r. r.method) (HashMap.values self.dynamic_capabilities);
    last_used = self.last_used;
    clients = map client_status (HashMap.values self.clients);
  }

  -- The loops of the two capability handlers.
  unfoldable pub save_registrations :
      List (Registration V) → HashMap Text (Registration V) → HashMap Text (Registration V)
  save_registrations [] caps = caps
  save_registrations (reg ∷ regs) caps = save_registrations regs (HashMap.insert reg.id reg caps)

  unfoldable pub drop_registrations :
      List Unregistration → HashMap Text (Registration V) → HashMap Text (Registration V)
  drop_registrations [] caps = caps
  drop_registrations (unreg ∷ unregs) caps =
      drop_registrations unregs (HashMap.remove unreg.id caps)

-- `context("parsing params")?` on what `from_value` returned.
unfoldable pub parsed : {A : Type 0} → Option A → Outcome A
parsed none = err Error.parsing_params
parsed (some a) = ok a

module _ {V : Type 0} ⦃json : Json V⦄ where
  unfoldable pub register_capabilities : Instance V → V → Outcome (Instance V)
  unfolding parsed save_registrations
  register_capabilities self value = do
    params ← parsed (json.registration_params.from_value value)
    ok (record self {
      dynamic_capabilities = save_registrations params.registrations self.dynamic_capabilities;
    })

  unfoldable pub unregister_capabilities : Instance V → V → Outcome (Instance V)
  unfolding parsed drop_registrations
  unregister_capabilities self value = do
    params ← parsed (json.unregistration_params.from_value value)
    ok (record self {
      dynamic_capabilities = drop_registrations params.unregistrations self.dynamic_capabilities;
    })

  -- The request that tells a new client of the capabilities that are registered already.
  unfoldable pub replay : List (Registration V) → Message V
  replay regs = request (record {
    jsonrpc = version;
    method = codes "client/registerCapability";
    params = json.registration_params.to_value (record { registrations = regs });
    id = tag (string (codes "replay:registerCapabilities")) drop;
  })

  unfoldable pub replays : Instance V → Client → List (Effect V)
  unfolding replay
  replays self client = elim self.dynamic_capabilities [
    | [] ↦ []
    | c ∷ cs ↦ to_client client.id (replay (HashMap.values self.dynamic_capabilities)) ∷ []
  ]

  -- A second client with the same id is `unreachable!`.
  unfoldable pub add_client : Instance V → Client → Outcome (Instance V × List (Effect V))
  unfolding replays
  add_client self client =
      if HashMap.contains_key client.id self.clients
      then panic
      else ok (
        record self {
          clients = HashMap.insert client.id (record { client = client; files = [] }) self.clients;
        },
        replays self client,
      )

  unfoldable pub did_open_notification : DidOpenTextDocumentParams → Message V
  did_open_notification params = notification (record {
    jsonrpc = version;
    method = codes "textDocument/didOpen";
    params = json.did_open.to_value params;
  })

  unfoldable pub did_close_notification : Text → Message V
  did_close_notification uri = notification (record {
    jsonrpc = version;
    method = codes "textDocument/didClose";
    params = json.did_close.to_value (record { text_document = record { uri = uri } });
  })

  -- The client must be connected: `get_mut(…).expect("no matching client")`.
  unfoldable pub open_file : Instance V → ℕ → V → Outcome (Instance V × List (Effect V))
  unfolding parsed has_open did_open_notification
  open_file self client_id value = do
    params ← parsed (json.did_open.from_value value)
    let uri = params.text_document.uri
    let send_notification = not (has_open uri self.clients)
    let insert_uri = λ (d : ClientData). record d { files = HashSet.insert uri d.files }
    let sent = if send_notification then to_server (did_open_notification params) ∷ [] else []
    let clients = HashMap.modify client_id insert_uri self.clients
    if HashMap.contains_key client_id self.clients
        then ok (record self { clients = clients }, sent)
        else panic

  unfoldable pub close_all_files : HashMap ℕ ClientData → List Text → List (Effect V)
  unfolding has_open did_close_notification
  close_all_files clients [] = []
  close_all_files clients (uri ∷ files) =
      (if has_open uri clients then [] else to_server (did_close_notification uri) ∷ [])
      ++ close_all_files clients files

  unfoldable pub close_file : Instance V → ℕ → V → Outcome (Instance V × List (Effect V))
  unfolding parsed close_all_files
  close_file self client_id value = do
    params ← parsed (json.did_close.from_value value)
    let uri = params.text_document.uri
    let remove_uri = λ (d : ClientData). record d { files = HashSet.remove uri d.files }
    let clients = HashMap.modify client_id remove_uri self.clients
    if HashMap.contains_key client_id self.clients
        then ok (record self { clients = clients }, close_all_files clients (uri ∷ []))
        else err Error.no_matching_client

  unfoldable pub cleanup_client : Instance V → Client → Outcome (Instance V × List (Effect V))
  unfolding close_all_files
  cleanup_client self client = elim (HashMap.get client.id self.clients) [
    | none ↦ err Error.client_was_not_connected
    | some d ↦
        let clients = HashMap.remove client.id self.clients in
        ok (record self { clients = clients }, close_all_files clients d.files)
  ]
