-- ===== src/Session/Keys.antt =====
-- Which clients an instance has: the messages of clients and of the server do not change that.
use ra_multiplex.Base.{ℕ, List, Bool, true, ◌≡◌, refl, inl, inr, nat_eq, arith, ok, Option-cases}
use ra_multiplex.Base.Int.{ℤ}
use ra_multiplex.Base.HashMap
use ra_multiplex.Lsp.Json.{Json}
use ra_multiplex.Lsp.Jsonrpc.{
  Message, Notification, request, notification, response_success, response_error,
}
use ra_multiplex.Effect.{Effect}
use ra_multiplex.Instance.{Instance, Client, open_file, close_file, cleanup_client, keep_alive}
use ra_multiplex.Client.Output
use ra_multiplex.Client.Output.{
  Flow, ClientNotification, did_open, did_close, other, forward_response, client_request,
  client_notification, dispatch, handle_client_message,
}
use ra_multiplex.Session.Clients.{add_file, drop_file}
use ra_multiplex.Session.Handlers.{or_warn_cases}

module _ {V : Type 0} ⦃json : Json V⦄ (n : ℕ) where
  -- Both have a client `n`, or neither has.
  abbrev pub SameClient : Instance V → Instance V → Type 0
  SameClient self self' = HashMap.contains_key n self'.clients ≡ HashMap.contains_key n self.clients

  open_file-SameClient :
      (self : Instance V) (k : ℕ) (value : V) {self' : Instance V} {es : List (Effect V)}
      → open_file self k value ≡ ok (self', es)
      → SameClient self self'
  unfolding open_file
  open_file-SameClient self k value h = elim (Option-cases (json.did_open.from_value value)) [
    | inl e ↦ cc
    | inr (params, e) ↦
        ground
          (arith, HashMap.contains_key-modify k n (add_file params.text_document.uri) self.clients)
  ]

  close_file-SameClient :
      (self : Instance V) (k : ℕ) (value : V) {self' : Instance V} {es : List (Effect V)}
      → close_file self k value ≡ ok (self', es)
      → SameClient self self'
  unfolding close_file
  close_file-SameClient self k value h = elim (Option-cases (json.did_close.from_value value)) [
    | inl e ↦ cc
    | inr (params, e) ↦
        ground
          (arith, HashMap.contains_key-modify k n (drop_file params.text_document.uri) self.clients)
  ]

  client_notification-SameClient :
      (k : ClientNotification) (self : Instance V) (c : Client) (sent : Bool)
      (notif : Notification V) {self' : Instance V} {es : List (Effect V)} {flow : Flow}
      → client_notification k self c sent notif ≡ ok (self', es, flow)
      → SameClient self self'
  unfolding client_notification
  client_notification-SameClient did_open self c sent notif h =
      elim (or_warn_cases self (open_file self c.id notif.params) h) [
        | inl o ↦ open_file-SameClient self c.id notif.params o
        | inr (i, es) ↦ rw i refl
      ]
  client_notification-SameClient did_close self c sent notif h =
      elim (or_warn_cases self (close_file self c.id notif.params) h) [
        | inl o ↦ close_file-SameClient self c.id notif.params o
        | inr (i, es) ↦ rw i refl
      ]
  client_notification-SameClient other self c sent notif h = ground arith

  dispatch-SameClient :
      (self : Instance V) (c : Client) (sent : Bool) (m : Message V) {self' : Instance V}
      {es : List (Effect V)} {flow : Flow}
      → dispatch self c sent m ≡ ok (self', es, flow)
      → SameClient self self'
  unfolding dispatch
  dispatch-SameClient self c sent (request req) h = unfold client_request in ground arith
  dispatch-SameClient self c sent (notification notif) h =
      client_notification-SameClient (Output.classify notif.method) self c sent notif h
  dispatch-SameClient self c sent (response_success res) h = unfold forward_response in ground arith
  dispatch-SameClient self c sent (response_error res) h = ground arith

  pub handle_client_message-SameClient :
      (self : Instance V) (c : Client) (now : ℤ) (sent : Bool) (m : Message V) {self' : Instance V}
      {es : List (Effect V)} {flow : Flow}
      → handle_client_message self c now sent m ≡ ok (self', es, flow)
      → SameClient self self'
  unfolding handle_client_message
  handle_client_message-SameClient self c now sent m h =
      dispatch-SameClient (keep_alive self now) c sent m h

  -- A client that leaves takes no other with it, and brings none.
  pub cleanup_client-older :
      (self : Instance V) (c : Client) {self' : Instance V} {es : List (Effect V)}
      → cleanup_client self c ≡ ok (self', es)
      → HashMap.contains_key n self'.clients ≡ true
      → HashMap.contains_key n self.clients ≡ true
  unfolding cleanup_client
  cleanup_client-older self c h e = ground (arith, HashMap.contains_key-remove c.id n self.clients)
