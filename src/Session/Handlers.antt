-- ===== src/Session/Handlers.antt =====
-- The two handlers of messages keep the language server's view of the documents in step.
use ra_multiplex.Base.{
  ℕ, Text, List, [], ◌∷◌, ◌++◌, Option, none, some, Bool, ◌≡◌, refl, ◌∙◌, ap, ◌⊎◌, inl, inr, nat_eq,
  list_eq, arith, Outcome, ok, err, panic,
}
use ra_multiplex.Base.Int.{ℤ}
use ra_multiplex.Base.HashMap.{HashMap}
use ra_multiplex.Lsp.Json.{Json, RoundTrips}
use ra_multiplex.Lsp.Jsonrpc.{
  Message, Request, Notification, ResponseSuccess, RequestId, request, notification,
  response_success, response_error,
}
use ra_multiplex.Lsp.Ext.{Tag, client_id, drop, forward, untag}
use ra_multiplex.Effect.{Effect, to_server, server_messages, server_messages-append}
use ra_multiplex.Instance.{
  Instance, Client, ClientData, open_file, close_file, keep_alive, register_capabilities,
  unregister_capabilities,
}
use ra_multiplex.Instance.Stdout.{
  ServerRequest, refresh, configuration, register_capability, unregister_capability, unknown,
  broadcast, send_to_first, route, or_keep, fake_response, handle_request, handle_server_message,
}
use ra_multiplex.Client.Output
use ra_multiplex.Client.Output.{
  Flow, ClientNotification, did_open, did_close, other, or_warn, forward_response, client_request,
  client_notification, dispatch, handle_client_message,
}
use ra_multiplex.Session.Documents.{Document, receive, receive_all, receive_all-append}
use ra_multiplex.Session.Files.{told, after, open_file-told, close_file-told}

module _ {V : Type 0} where
  pub server_messages-broadcast :
      (clients : HashMap ℕ ClientData) (m : Message V) → server_messages (broadcast clients m) ≡ []
  unfolding server_messages broadcast
  server_messages-broadcast [] m = refl
  server_messages-broadcast (c ∷ clients) m = server_messages-broadcast clients m

  server_messages-route :
      (clients : HashMap ℕ ClientData) (reply : RequestId → Message V) (t : Option Tag × RequestId)
      → server_messages (route clients reply t) ≡ []
  unfolding server_messages route
  server_messages-route clients reply (some (client_id n), id) = ground arith
  server_messages-route clients reply (some drop, id) = refl
  server_messages-route clients reply (some forward, id) = refl
  server_messages-route clients reply (none, id) = refl

  server_messages-send_to_first :
      (clients : HashMap ℕ ClientData) (m : Message V)
      → server_messages (send_to_first clients m) ≡ []
  unfolding server_messages send_to_first
  server_messages-send_to_first [] m = refl
  server_messages-send_to_first (c ∷ clients) m = refl

module _ {V : Type 0} ⦃json : Json V⦄ where
  pub after-append :
      (uri : Text) (d : Document) (es fs : List (Effect V))
      → after uri d (es ++ fs) ≡ after uri (after uri d es) fs
  after-append uri d es fs =
      ap (receive_all uri d) (server_messages-append es fs)
      ∙ receive_all-append uri d (server_messages es) (server_messages fs)

  register_capabilities-clients :
      (self : Instance V) (value : V)
      → (or_keep self (register_capabilities self value)).clients ≡ self.clients
  unfolding register_capabilities
  register_capabilities-clients self value = ground arith

  unregister_capabilities-clients :
      (self : Instance V) (value : V)
      → (or_keep self (unregister_capabilities self value)).clients ≡ self.clients
  unfolding unregister_capabilities
  unregister_capabilities-clients self value = ground arith

  handle_request-clients :
      (k : ServerRequest) (self : Instance V) (req : Request V)
      → (handle_request k self req).0.clients ≡ self.clients
  unfolding handle_request
  handle_request-clients refresh self req = refl
  handle_request-clients configuration self req = refl
  handle_request-clients register_capability self req =
      register_capabilities-clients self req.params
  handle_request-clients unregister_capability self req =
      unregister_capabilities-clients self req.params
  handle_request-clients unknown self req = refl

  pub handle_server_message-clients :
      (self : Instance V) (m : Message V) → (handle_server_message self m).0.clients ≡ self.clients
  unfolding handle_server_message
  handle_server_message-clients self (request req) = handle_request-clients _ self req
  handle_server_message-clients self (notification notif) = refl
  handle_server_message-clients self (response_success res) = refl
  handle_server_message-clients self (response_error res) = refl

  module _ (uri : Text) (d : Document) where
    after-fake_response :
        (clients : HashMap ℕ ClientData) (req : Request V)
        → after uri d (fake_response clients req) ≡ d
    unfolding fake_response receive_all server_messages
    after-fake_response clients req =
        after-append uri d (broadcast clients _) (to_server _ ∷ [])
        ∙ ap (receive_all uri d) (server_messages-broadcast clients _)

    after-handle_request :
        (k : ServerRequest) (self : Instance V) (req : Request V)
        → after uri d (handle_request k self req).1 ≡ d
    unfolding handle_request receive_all server_messages
    after-handle_request refresh self req = after-fake_response self.clients req
    after-handle_request configuration self req =
        ap (receive_all uri d) (server_messages-send_to_first self.clients _)
    after-handle_request register_capability self req = after-fake_response self.clients req
    after-handle_request unregister_capability self req = after-fake_response self.clients req
    after-handle_request unknown self req = refl

    pub after-handle_server_message :
        (self : Instance V) (m : Message V) → after uri d (handle_server_message self m).1 ≡ d
    unfolding handle_server_message receive_all
    after-handle_server_message self (request req) = after-handle_request _ self req
    after-handle_server_message self (notification notif) =
        ap (receive_all uri d) (server_messages-broadcast self.clients _)
    after-handle_server_message self (response_success res) =
        ap (receive_all uri d) (server_messages-route self.clients _ (untag res.id))
    after-handle_server_message self (response_error res) =
        ap (receive_all uri d) (server_messages-route self.clients _ (untag res.id))

pub or_warn_cases :
    {V : Type 0} (self : Instance V) (o : Outcome (Instance V × List (Effect V)))
    {self' : Instance V} {es : List (Effect V)} {flow : Flow}
    → or_warn self o ≡ ok (self', es, flow)
    → (o ≡ ok (self', es)) ⊎ ((self' ≡ self) × (es ≡ []))
or_warn_cases self (ok (i, fs)) h = inl (ground arith)
or_warn_cases self (err e) h = inr (ground arith)
or_warn_cases self panic h = cc

module _ (V : Type 0) ⦃json : Json V⦄ (opens : RoundTrips json.did_open)
    (closes : RoundTrips json.did_close) (uri : Text) where
  -- A notification of any other method says nothing about a document.
  receive-other :
      (d : Document) (notif : Notification V)
      → Output.classify notif.method ≡ other
      → receive uri d (notification notif) ≡ d
  unfolding receive Output.classify
  receive-other d notif h = ground arith

  receive-response_success :
      (d : Document) (res : ResponseSuccess V) → receive uri d (response_success res) ≡ d
  unfolding receive
  receive-response_success d res = refl

  client_notification-told :
      (k : ClientNotification) (self : Instance V) (c : Client) (sent : Bool)
      (notif : Notification V) {self' : Instance V} {es : List (Effect V)} {flow : Flow}
      → Output.classify notif.method ≡ k
      → client_notification k self c sent notif ≡ ok (self', es, flow)
      → after uri (told uri self.clients) es ≡ told uri self'.clients
  unfolding client_notification
  client_notification-told did_open self c sent notif e h =
      elim (or_warn_cases self (open_file self c.id notif.params) h) [
        | inl o ↦ open_file-told V opens closes uri self c.id notif.params o
        | inr (i, n) ↦ unfold receive_all server_messages in rw (i, n)
      ]
  client_notification-told did_close self c sent notif e h =
      elim (or_warn_cases self (close_file self c.id notif.params) h) [
        | inl o ↦ close_file-told V opens closes uri self c.id notif.params o
        | inr (i, n) ↦ unfold receive_all server_messages in rw (i, n)
      ]
  client_notification-told other self c sent notif e h =
      unfold receive_all server_messages in
      ground (arith, receive-other (told uri self.clients) notif e)

  forward_response-told :
      (self : Instance V) (sent : Bool) (reply : RequestId → Message V) (t : Option Tag × RequestId)
      {self' : Instance V} {es : List (Effect V)} {flow : Flow}
      → ((id : RequestId) (d : Document) → receive uri d (reply id) ≡ d)
      → forward_response self sent reply t ≡ ok (self', es, flow)
      → after uri (told uri self.clients) es ≡ told uri self'.clients
  unfolding forward_response receive_all server_messages
  forward_response-told self sent reply (some forward, id) q h =
      ground (arith, q id (told uri self.clients))
  forward_response-told self sent reply (some drop, id) q h = ground arith
  forward_response-told self sent reply (some (client_id n), id) q h = ground arith
  forward_response-told self sent reply (none, id) q h = ground arith

  dispatch-told :
      (self : Instance V) (c : Client) (sent : Bool) (m : Message V) {self' : Instance V}
      {es : List (Effect V)} {flow : Flow}
      → dispatch self c sent m ≡ ok (self', es, flow)
      → after uri (told uri self.clients) es ≡ told uri self'.clients
  unfolding dispatch
  dispatch-told self c sent (request req) h =
      unfold client_request receive_all server_messages in ground arith
  dispatch-told self c sent (notification notif) h =
      client_notification-told (Output.classify notif.method) self c sent notif refl h
  dispatch-told self c sent (response_success res) h =
      forward_response-told self sent (λ id. response_success (record res { id = id }))
        (untag res.id) (λ id d. receive-response_success d (record res { id = id })) h
  dispatch-told self c sent (response_error res) h =
      unfold receive_all server_messages in ground arith

  pub handle_client_message-told :
      (self : Instance V) (c : Client) (now : ℤ) (sent : Bool) (m : Message V) {self' : Instance V}
      {es : List (Effect V)} {flow : Flow}
      → handle_client_message self c now sent m ≡ ok (self', es, flow)
      → after uri (told uri self.clients) es ≡ told uri self'.clients
  unfolding handle_client_message
  handle_client_message-told self c now sent m h = dispatch-told (keep_alive self now) c sent m h
