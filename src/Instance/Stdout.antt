-- ===== src/Instance/Stdout.antt =====
-- src/instance.rs, `stdout_task`: what the program does with one message of the language server.
use ra_multiplex.Base.{
  ℕ, Text, codes, List, [], ◌∷◌, ◌++◌, Option, none, some, map, ◌==◌, nat_eq, list_eq,
  if◌then◌else◌, Outcome, ok, err, panic,
}
use ra_multiplex.Base.HashMap
use ra_multiplex.Base.HashMap.{HashMap}
use ra_multiplex.Base.HashSet
use ra_multiplex.Lsp.Json.{Json}
use ra_multiplex.Lsp.Jsonrpc.{
  Message, Request, ResponseSuccess, request, notification, response_success, response_error,
  RequestId, version,
}
use ra_multiplex.Lsp.Ext.{Tag, client_id, drop, forward, tag, untag}
use ra_multiplex.Effect.{Effect, to_server, to_client}
use ra_multiplex.Instance.{Instance, ClientData, register_capabilities, unregister_capabilities}

-- The arms of the match on a server request, by its method.
pub data ServerRequest : Type 0 where
  refresh configuration register_capability unregister_capability unknown : ServerRequest

abbrev pub refresh_methods : List Text
refresh_methods =
    codes "window/workDoneProgress/create"
    ∷ codes "workspace/codeLens/refresh"
    ∷ codes "workspace/semanticTokens/refresh"
    ∷ codes "workspace/inlayHint/refresh"
    ∷ codes "workspace/inlineValue/refresh"
    ∷ codes "workspace/diagnostic/refresh"
    ∷ []

unfoldable pub classify : Text → ServerRequest
classify method =
    if HashSet.contains refresh_methods method
    then refresh
    else if method == codes "workspace/configuration"
    then configuration
    else if method == codes "client/registerCapability"
    then register_capability
    else if method == codes "client/unregisterCapability"
    then unregister_capability
    else unknown

module _ {V : Type 0} where
  -- The loop over `clients.values()`.
  unfoldable pub broadcast : HashMap ℕ ClientData → Message V → List (Effect V)
  broadcast clients m = map (λ d. to_client d.client.id m) (HashMap.values clients)

  -- `clients.get(&client_id)`; no matching client is logged.
  unfoldable pub send_to : HashMap ℕ ClientData → ℕ → Message V → List (Effect V)
  send_to clients n m = elim (HashMap.get n clients) [
    | some d ↦ to_client d.client.id m ∷ []
    | none ↦ []
  ]

  -- `clients.values().next()`
  unfoldable pub send_to_first : HashMap ℕ ClientData → Message V → List (Effect V)
  send_to_first [] m = []
  send_to_first ((n, d) ∷ clients) m = to_client d.client.id m ∷ []

  -- Both kinds of response are routed alike; `reply` puts the client's own id back.
  unfoldable pub route :
      HashMap ℕ ClientData → (RequestId → Message V) → Option Tag × RequestId → List (Effect V)
  unfolding send_to
  route clients reply (some (client_id n), id) = send_to clients n (reply id)
  route clients reply (some drop, id) = []
  route clients reply (some forward, id) = []
  route clients reply (none, id) = []

  -- An error of the handler is logged and changes nothing.
  abbrev pub or_keep : Instance V → Outcome (Instance V) → Instance V
  or_keep self (ok self') = self'
  or_keep self (err e) = self
  or_keep self panic = self

module _ {V : Type 0} ⦃json : Json V⦄ where
  -- `ResponseSuccess::null`
  unfoldable pub null_response : RequestId → ResponseSuccess V
  null_response id = record { jsonrpc = version; result = json.null; id = id }

  -- The request to every client with a `drop` tag, then the answer that the server gets.
  unfoldable pub fake_response : HashMap ℕ ClientData → Request V → List (Effect V)
  unfolding broadcast null_response
  fake_response clients req =
      broadcast clients (request (record req { id = tag req.id drop }))
      ++ to_server (response_success (null_response req.id)) ∷ []

  unfoldable pub handle_request :
      ServerRequest → Instance V → Request V → Instance V × List (Effect V)
  unfolding fake_response send_to_first
  handle_request refresh self req = (self, fake_response self.clients req)
  handle_request configuration self req =
      (self, send_to_first self.clients (request (record req { id = tag req.id forward })))
  handle_request register_capability self req =
      (or_keep self (register_capabilities self req.params), fake_response self.clients req)
  handle_request unregister_capability self req =
      (or_keep self (unregister_capabilities self req.params), fake_response self.clients req)
  handle_request unknown self req = (self, [])

  unfoldable pub handle_server_message : Instance V → Message V → Instance V × List (Effect V)
  unfolding route classify handle_request
  handle_server_message self (response_success res) =
      (self, route self.clients (λ id. response_success (record res { id = id })) (untag res.id))
  handle_server_message self (response_error res) =
      (self, route self.clients (λ id. response_error (record res { id = id })) (untag res.id))
  handle_server_message self (request req) = handle_request (classify req.method) self req
  handle_server_message self (notification notif) =
      (self, broadcast self.clients (notification notif))
