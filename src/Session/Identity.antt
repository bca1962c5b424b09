-- ===== src/Session/Identity.antt =====
-- No message changes the key of an instance.
use ra_multiplex.Base.{ℕ, List, Bool, ◌≡◌, refl, inl, inr, nat_eq, arith, ok, Option-cases}
use ra_multiplex.Base.Int.{ℤ}
use ra_multiplex.Lsp.Json.{Json}
use ra_multiplex.Lsp.Jsonrpc.{
  Message, Notification, Request, request, notification, response_success, response_error,
}
use ra_multiplex.Effect.{Effect}
use ra_multiplex.Instance.{
  Instance, Client, add_client, open_file, close_file, cleanup_client, keep_alive,
  register_capabilities, unregister_capabilities,
}
use ra_multiplex.Instance.Stdout
use ra_multiplex.Instance.Stdout.{
  ServerRequest, refresh, configuration, register_capability, unregister_capability, unknown,
  or_keep, handle_request, handle_server_message,
}
use ra_multiplex.Client.Output
use ra_multiplex.Client.Output.{
  Flow, ClientNotification, did_open, did_close, other, forward_response, client_request,
  client_notification, dispatch, handle_client_message,
}
use ra_multiplex.Session.Handlers.{or_warn_cases}

module _ {V : Type 0} ⦃json : Json V⦄ where
  abbrev pub SameKey : Instance V → Instance V → Type 0
  SameKey self self' = self'.key ≡ self.key

  pub add_client-SameKey :
      (self : Instance V) (c : Client) {self' : Instance V} {es : List (Effect V)}
      → add_client self c ≡ ok (self', es)
      → SameKey self self'
  unfolding add_client
  add_client-SameKey self c h = ground arith

  open_file-SameKey :
      (self : Instance V) (k : ℕ) (value : V) {self' : Instance V} {es : List (Effect V)}
      → open_file self k value ≡ ok (self', es)
      → SameKey self self'
  unfolding open_file
  open_file-SameKey self k value h = elim (Option-cases (json.did_open.from_value value)) [
    | inl e ↦ cc
    | inr (params, e) ↦ ground arith
  ]

  close_file-SameKey :
      (self : Instance V) (k : ℕ) (value : V) {self' : Instance V} {es : List (Effect V)}
      → close_file self k value ≡ ok (self', es)
      → SameKey self self'
  unfolding close_file
  close_file-SameKey self k value h = elim (Option-cases (json.did_close.from_value value)) [
    | inl e ↦ cc
    | inr (params, e) ↦ ground arith
  ]

  pub cleanup_client-SameKey :
      (self : Instance V) (c : Client) {self' : Instance V} {es : List (Effect V)}
      → cleanup_client self c ≡ ok (self', es)
      → SameKey self self'
  unfolding cleanup_client
  cleanup_client-SameKey self c h = ground arith

  client_notification-SameKey :
      (k : ClientNotification) (self : Instance V) (c : Client) (sent : Bool)
      (notif : Notification V) {self' : Instance V} {es : List (Effect V)} {flow : Flow}
      → client_notification k self c sent notif ≡ ok (self', es, flow)
      → SameKey self self'
  unfolding client_notification
  client_notification-SameKey did_open self c sent notif h =
      elim (or_warn_cases self (open_file self c.id notif.params) h) [
        | inl o ↦ open_file-SameKey self c.id notif.params o
        | inr (i, es) ↦ rw i refl
      ]
  client_notification-SameKey did_close self c sent notif h =
      elim (or_warn_cases self (close_file self c.id notif.params) h) [
        | inl o ↦ close_file-SameKey self c.id notif.params o
        | inr (i, es) ↦ rw i refl
      ]
  client_notification-SameKey other self c sent notif h = ground arith

  dispatch-SameKey :
      (self : Instance V) (c : Client) (sent : Bool) (m : Message V) {self' : Instance V}
      {es : List (Effect V)} {flow : Flow}
      → dispatch self c sent m ≡ ok (self', es, flow)
      → SameKey self self'
  unfolding dispatch
  dispatch-SameKey self c sent (request req) h = unfold client_request in ground arith
  dispatch-SameKey self c sent (notification notif) h =
      client_notification-SameKey (Output.classify notif.method) self c sent notif h
  dispatch-SameKey self c sent (response_success res) h = unfold forward_response in ground arith
  dispatch-SameKey self c sent (response_error res) h = ground arith

  pub handle_client_message-SameKey :
      (self : Instance V) (c : Client) (now : ℤ) (sent : Bool) (m : Message V) {self' : Instance V}
      {es : List (Effect V)} {flow : Flow}
      → handle_client_message self c now sent m ≡ ok (self', es, flow)
      → SameKey self self'
  unfolding handle_client_message keep_alive
  handle_client_message-SameKey self c now sent m h =
      dispatch-SameKey (keep_alive self now) c sent m h

  registered-SameKey :
      (self : Instance V) (value : V)
      → SameKey self (or_keep self (register_capabilities self value))
  unfolding register_capabilities
  registered-SameKey self value = ground arith

  unregistered-SameKey :
      (self : Instance V) (value : V)
      → SameKey self (or_keep self (unregister_capabilities self value))
  unfolding unregister_capabilities
  unregistered-SameKey self value = ground arith

  handle_request-SameKey :
      (k : ServerRequest) (self : Instance V) (req : Request V)
      → SameKey self (handle_request k self req).0
  unfolding handle_request
  handle_request-SameKey refresh self req = refl
  handle_request-SameKey configuration self req = refl
  handle_request-SameKey register_capability self req = registered-SameKey self req.params
  handle_request-SameKey unregister_capability self req = unregistered-SameKey self req.params
  handle_request-SameKey unknown self req = refl

  pub handle_server_message-SameKey :
      (self : Instance V) (m : Message V) → SameKey self (handle_server_message self m).0
  unfolding handle_server_message
  handle_server_message-SameKey self (request req) =
      handle_request-SameKey (Stdout.classify req.method) self req
  handle_server_message-SameKey self (notification notif) = refl
  handle_server_message-SameKey self (response_success res) = refl
  handle_server_message-SameKey self (response_error res) = refl
