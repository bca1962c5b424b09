-- ===== src/Session/ServerRequests.antt =====
-- What becomes of the language server's own requests and notifications.
use ra_multiplex.Base.{
  ℕ, Text, codes, List, [], ◌∷◌, ◌++◌, Bool, true, false, ◌==◌, ◌≡◌, refl, ◌∙◌, ap, inl, inr,
  nat_eq, list_eq, text_eq, list_beq, arith, if◌then◌else◌, ok, ◌||◌, Bool-cases, append-nil,
}
use ra_multiplex.Base.Int.{ℤ}
use ra_multiplex.Base.HashMap
use ra_multiplex.Base.HashMap.{HashMap}
use ra_multiplex.Base.HashSet
use ra_multiplex.Lsp.Json.{Json}
use ra_multiplex.Lsp.Jsonrpc.{
  Message, Request, Notification, ResponseSuccess, RequestId, version, request, notification,
  response_success,
}
use ra_multiplex.Lsp.Ext.{drop, tag}
use ra_multiplex.Lsp.Ext.TagLaws.{IdFits, untag-tag}
use ra_multiplex.Effect.{
  to_server, server_messages, client_messages, server_messages-append, client_messages-append,
}
use ra_multiplex.Instance.{Instance, Client, ClientData, keep_alive}
use ra_multiplex.Instance.Stdout.{
  ServerRequest, refresh, configuration, register_capability, unregister_capability, unknown,
  refresh_methods, classify, broadcast, fake_response, handle_request, handle_server_message,
  null_response,
}
use ra_multiplex.Client.Output.{proceed, forward_response, handle_client_message}
use ra_multiplex.Session.Clients.{keyed}
use ra_multiplex.Session.Invariant.{IsOrdered}
use ra_multiplex.Session.Handlers.{server_messages-broadcast}

-- The requests that the multiplexer answers itself.
abbrev pub answered_methods : List Text
answered_methods =
    codes "client/registerCapability" ∷ codes "client/unregisterCapability" ∷ refresh_methods

module _ {V : Type 0} where
  client_messages-broadcast_none :
      (n : ℕ) (clients : HashMap ℕ ClientData) (m : Message V)
      → keyed clients ≡ true
      → HashMap.contains_key n clients ≡ false
      → client_messages n (broadcast clients m) ≡ []
  unfolding client_messages broadcast keyed HashMap.contains_key
  client_messages-broadcast_none n [] m v h = refl
  client_messages-broadcast_none n ((k, d) ∷ clients) m v h =
      ground (arith, client_messages-broadcast_none n clients m)

  client_messages-broadcast :
      (n : ℕ) (clients : HashMap ℕ ClientData) (m : Message V)
      → HashMap.unique clients ≡ true
      → keyed clients ≡ true
      → client_messages n (broadcast clients m)
        ≡ (if HashMap.contains_key n clients then m ∷ [] else [])
  unfolding client_messages broadcast keyed HashMap.contains_key HashMap.unique
  client_messages-broadcast n [] m u v = refl
  client_messages-broadcast n ((k, d) ∷ clients) m u v =
      ground
        (arith, client_messages-broadcast n clients m, client_messages-broadcast_none n clients m)

configuration_not_answered :
    HashSet.contains answered_methods (codes "workspace/configuration") ≡ false
unfolding HashSet.contains list_beq
configuration_not_answered = refl

not_configuration :
    (method : Text)
    → HashSet.contains answered_methods method ≡ true
    → (method == codes "workspace/configuration") ≡ false
not_configuration method h = elim (Bool-cases (method == codes "workspace/configuration")) [
  | inl same ↦
      let e = (text_eq.beq_iff method (codes "workspace/configuration")).0 same in
      cc (configuration_not_answered, ap (HashSet.contains answered_methods) e)
  | inr other ↦ other
]

-- The arms of the match that such a method can take.
abbrev is_answered : ServerRequest → Bool
is_answered refresh = true
is_answered register_capability = true
is_answered unregister_capability = true
is_answered _ = false

contains_answered :
    (method : Text)
    → HashSet.contains answered_methods method ≡ (
        codes "client/registerCapability" == method
        || (codes "client/unregisterCapability" == method
            || HashSet.contains refresh_methods method))
unfolding HashSet.contains
contains_answered method = refl

classify-answered :
    (method : Text)
    → HashSet.contains answered_methods method ≡ true
    → is_answered (classify method) ≡ true
unfolding classify
classify-answered method h = ground (
  arith,
  contains_answered method,
  not_configuration method h,
  text_eq.beq_iff method (codes "client/registerCapability"),
  text_eq.beq_iff (codes "client/registerCapability") method,
  text_eq.beq_iff method (codes "client/unregisterCapability"),
  text_eq.beq_iff (codes "client/unregisterCapability") method,
)

module _ {V : Type 0} ⦃json : Json V⦄ where
  answered_effects :
      (k : ServerRequest) (self : Instance V) (req : Request V)
      → is_answered k ≡ true
      → (handle_request k self req).1 ≡ fake_response self.clients req
  unfolding handle_request
  answered_effects refresh self req h = refl
  answered_effects register_capability self req h = refl
  answered_effects unregister_capability self req h = refl
  answered_effects configuration self req h = cc
  answered_effects unknown self req h = cc

  handled_effects :
      (self : Instance V) (req : Request V)
      → HashSet.contains answered_methods req.method ≡ true
      → (handle_server_message self (request req)).1 ≡ fake_response self.clients req
  unfolding handle_server_message
  handled_effects self req h =
      answered_effects (classify req.method) self req (classify-answered req.method h)

  server_messages-fake_response :
      (clients : HashMap ℕ ClientData) (req : Request V)
      → server_messages (fake_response clients req) ≡ response_success (null_response req.id) ∷ []
  unfolding fake_response server_messages
  server_messages-fake_response clients req =
      let m = request (record req { id = tag req.id drop }) in
      let answer = to_server (response_success (null_response req.id)) ∷ [] in
      server_messages-append (broadcast clients m) answer
      ∙ ap (λ ms. ms ++ server_messages answer) (server_messages-broadcast clients m)

  pub client_messages-fake_response :
      (n : ℕ) (clients : HashMap ℕ ClientData) (req : Request V)
      → IsOrdered clients
      → client_messages n (fake_response clients req) ≡ (
          if HashMap.contains_key n clients
          then request (record req { id = tag req.id drop }) ∷ []
          else [])
  unfolding fake_response client_messages
  client_messages-fake_response n clients req v =
      let m = request (record req { id = tag req.id drop }) in
      let answer = to_server (response_success (null_response req.id)) ∷ [] in
      client_messages-append n (broadcast clients m) answer
      ∙ append-nil _
      ∙ client_messages-broadcast n clients m v.one_each v.own_id

  dropped_response :
      (later : Instance V) (c : Client) (now : ℤ) (sent : Bool) (id : RequestId)
      (res : ResponseSuccess V)
      → IdFits id
      → res.id ≡ tag id drop
      → handle_client_message later c now sent (response_success res)
        ≡ ok (keep_alive later now, [], proceed)
  unfolding handle_client_message forward_response
  dropped_response later c now sent id res fits e =
      rw (handle_client_message, e, untag-tag id drop fits tt)

  -- A request of one of the methods that the multiplexer answers itself is answered to the server
  -- exactly once, with a null result under the server's own id. Every connected client gets the
  -- request exactly once, and nobody else does; what a client answers to it, at any later time, is
  -- sent nowhere.
  pub server_request_answered :
      (self later : Instance V) (req : Request V) (n : ℕ) (c : Client) (now : ℤ) (sent : Bool)
      (res : ResponseSuccess V)
      → HashSet.contains answered_methods req.method ≡ true
      → IdFits req.id
      → IsOrdered self.clients
      → res.id ≡ tag req.id drop
      → (server_messages (handle_server_message self (request req)).1
          ≡ response_success (record { jsonrpc = version; result = json.null; id = req.id }) ∷ [])
        × (client_messages n (handle_server_message self (request req)).1 ≡ (
            if HashMap.contains_key n self.clients
            then request (record req { id = res.id }) ∷ []
            else []))
        × (handle_client_message later c now sent (response_success res)
            ≡ ok (keep_alive later now, [], proceed))
  unfolding null_response
  server_request_answered self later req n c now sent res h fits v e = (
    rw (handled_effects self req h) (server_messages-fake_response self.clients req),
    rw (handled_effects self req h, e) (client_messages-fake_response n self.clients req v),
    dropped_response later c now sent req.id res fits e,
  )

  -- A notification of the server reaches every connected client exactly once and unchanged, and
  -- nothing goes back to the server.
  pub notification_broadcast :
      (self : Instance V) (notif : Notification V) (n : ℕ)
      → IsOrdered self.clients
      → (server_messages (handle_server_message self (notification notif)).1 ≡ [])
        × (client_messages n (handle_server_message self (notification notif)).1
            ≡ (if HashMap.contains_key n self.clients then notification notif ∷ [] else []))
  unfolding handle_server_message
  notification_broadcast self notif n v = (
    server_messages-broadcast self.clients (notification notif),
    client_messages-broadcast n self.clients (notification notif) v.one_each v.own_id,
  )
