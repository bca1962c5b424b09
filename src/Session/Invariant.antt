-- ===== src/Session/Invariant.antt =====
-- What holds in every state that an instance reaches from its start.
use ra_multiplex.Base.{
  ℕ, Text, List, [], Bool, true, ◌≡◌, refl, sym, ◌∙◌, ap, inl, inr, nat_eq, arith, ok, Option-cases,
  any,
}
use ra_multiplex.Base.Int.{ℤ}
use ra_multiplex.Base.HashMap
use ra_multiplex.Base.HashMap.{HashMap}
use ra_multiplex.Lsp.Json.{Json, RoundTrips}
use ra_multiplex.Lsp.Jsonrpc.{
  Message, Notification, request, notification, response_success, response_error,
}
use ra_multiplex.Effect.{Effect, server_messages}
use ra_multiplex.Instance.{
  Instance, Client, ClientData, add_client, open_file, close_file, cleanup_client, has_open,
  keep_alive,
}
use ra_multiplex.Instance.Stdout.{handle_server_message}
use ra_multiplex.Client.Output
use ra_multiplex.Client.Output.{
  Flow, ClientNotification, did_open, did_close, other, or_warn, forward_response, client_request,
  client_notification, dispatch, handle_client_message,
}
use ra_multiplex.Session.Clients.{
  add_file, drop_file, keyed, keyed-insert, keyed-modify, keyed-remove,
}
use ra_multiplex.Session.Documents.{unopened, receive_all}
use ra_multiplex.Session.Files.{told, after, cleanup_client-told, add_client-told}
use ra_multiplex.Session.Handlers.{
  after-append, handle_client_message-told, handle_server_message-clients,
  after-handle_server_message, or_warn_cases,
}
use ra_multiplex.Session.Steps.{
  Session, extend, Step, join, client_says, part, server_says, Reach, here, next,
}

-- No two entries have one id, and each client stands under its own.
pub record IsOrdered (clients : HashMap ℕ ClientData) : Type 0 where
  pub one_each : HashMap.unique clients ≡ true
  pub own_id : keyed clients ≡ true

module _ {V : Type 0} ⦃json : Json V⦄ where
  add_client-IsOrdered :
      (self : Instance V) (c : Client) {self' : Instance V} {es : List (Effect V)}
      → add_client self c ≡ ok (self', es)
      → IsOrdered self.clients
      → IsOrdered self'.clients
  unfolding add_client
  add_client-IsOrdered self c h v = ground (
    arith,
    HashMap.insert-unique c.id (record { client = c; files = [] }) self.clients v.one_each,
    keyed-insert c [] self.clients v.own_id,
  )

  open_file-IsOrdered :
      (self : Instance V) (n : ℕ) (value : V) {self' : Instance V} {es : List (Effect V)}
      → open_file self n value ≡ ok (self', es)
      → IsOrdered self.clients
      → IsOrdered self'.clients
  unfolding open_file
  open_file-IsOrdered self n value h v = elim (Option-cases (json.did_open.from_value value)) [
    | inl e ↦ cc
    | inr (params, e) ↦
        let uri = params.text_document.uri in
        ground (
          arith,
          HashMap.modify-unique n (add_file uri) self.clients v.one_each,
          keyed-modify n (add_file uri) self.clients (λ d. refl) v.own_id,
        )
  ]

  close_file-IsOrdered :
      (self : Instance V) (n : ℕ) (value : V) {self' : Instance V} {es : List (Effect V)}
      → close_file self n value ≡ ok (self', es)
      → IsOrdered self.clients
      → IsOrdered self'.clients
  unfolding close_file
  close_file-IsOrdered self n value h v = elim (Option-cases (json.did_close.from_value value)) [
    | inl e ↦ cc
    | inr (params, e) ↦
        let uri = params.text_document.uri in
        ground (
          arith,
          HashMap.modify-unique n (drop_file uri) self.clients v.one_each,
          keyed-modify n (drop_file uri) self.clients (λ d. refl) v.own_id,
        )
  ]

  cleanup_client-IsOrdered :
      (self : Instance V) (c : Client) {self' : Instance V} {es : List (Effect V)}
      → cleanup_client self c ≡ ok (self', es)
      → IsOrdered self.clients
      → IsOrdered self'.clients
  unfolding cleanup_client
  cleanup_client-IsOrdered self c h v = ground (
    arith,
    HashMap.remove-unique c.id self.clients v.one_each,
    keyed-remove c.id self.clients v.own_id,
  )

  client_notification-IsOrdered :
      (k : ClientNotification) (self : Instance V) (c : Client) (sent : Bool)
      (notif : Notification V) {self' : Instance V} {es : List (Effect V)} {flow : Flow}
      → client_notification k self c sent notif ≡ ok (self', es, flow)
      → IsOrdered self.clients
      → IsOrdered self'.clients
  unfolding client_notification
  client_notification-IsOrdered did_open self c sent notif h v =
      elim (or_warn_cases self (open_file self c.id notif.params) h) [
        | inl o ↦ open_file-IsOrdered self c.id notif.params o v
        | inr (i, n) ↦ rw i v
      ]
  client_notification-IsOrdered did_close self c sent notif h v =
      elim (or_warn_cases self (close_file self c.id notif.params) h) [
        | inl o ↦ close_file-IsOrdered self c.id notif.params o v
        | inr (i, n) ↦ rw i v
      ]
  client_notification-IsOrdered other self c sent notif h v = ground arith

  dispatch-IsOrdered :
      (self : Instance V) (c : Client) (sent : Bool) (m : Message V) {self' : Instance V}
      {es : List (Effect V)} {flow : Flow}
      → dispatch self c sent m ≡ ok (self', es, flow)
      → IsOrdered self.clients
      → IsOrdered self'.clients
  unfolding dispatch
  dispatch-IsOrdered self c sent (request req) h v = unfold client_request in ground arith
  dispatch-IsOrdered self c sent (notification notif) h v =
      client_notification-IsOrdered (Output.classify notif.method) self c sent notif h v
  dispatch-IsOrdered self c sent (response_success res) h v =
      unfold forward_response in ground arith
  dispatch-IsOrdered self c sent (response_error res) h v = ground arith

  handle_client_message-IsOrdered :
      (self : Instance V) (c : Client) (now : ℤ) (sent : Bool) (m : Message V) {self' : Instance V}
      {es : List (Effect V)} {flow : Flow}
      → handle_client_message self c now sent m ≡ ok (self', es, flow)
      → IsOrdered self.clients
      → IsOrdered self'.clients
  unfolding handle_client_message
  handle_client_message-IsOrdered self c now sent m h v =
      dispatch-IsOrdered (keep_alive self now) c sent m h v

  -- Every step keeps the map of clients in order.
  pub Step-IsOrdered :
      {s t : Session V} → Step s t → IsOrdered s.instance.clients → IsOrdered t.instance.clients
  Step-IsOrdered {s} (join c i es h e) v = rw e (add_client-IsOrdered s.instance c h v)
  Step-IsOrdered {s} (client_says c now sent m i es flow h e) v =
      rw e (handle_client_message-IsOrdered s.instance c now sent m h v)
  Step-IsOrdered {s} (part c i es h e) v = rw e (cleanup_client-IsOrdered s.instance c h v)
  Step-IsOrdered {s} (server_says m e) v = rw (e, handle_server_message-clients s.instance m) v

  -- If the client map of an instance has no two entries with one id, and each client under its own,
  -- then so it has in every state that the instance reaches.
  pub Reach-IsOrdered :
      {s t : Session V} → Reach s t → IsOrdered s.instance.clients → IsOrdered t.instance.clients
  Reach-IsOrdered here v = v
  Reach-IsOrdered (next r st) v = Step-IsOrdered st (Reach-IsOrdered r v)

-- An instance fresh from `spawn`: no client, and nothing sent since the handshake.
pub record IsFresh {V : Type 0} (s : Session V) : Type 0 where
  pub no_clients : s.instance.clients ≡ []
  pub no_log : s.log ≡ []

module _ {V : Type 0} ⦃json : Json V⦄ (opens : RoundTrips json.did_open)
    (closes : RoundTrips json.did_close) (uri : Text) where
  -- The view of a document that the log gives is the one that the clients have.
  abbrev InStep : Session V → Type 0
  InStep s = after uri unopened s.log ≡ told uri s.instance.clients

  extend-InStep :
      (s : Session V) (i : Instance V) (es : List (Effect V))
      → InStep s
      → after uri (told uri s.instance.clients) es ≡ told uri i.clients
      → InStep (extend s i es)
  extend-InStep s i es v h = after-append uri unopened s.log es ∙ ap (λ d. after uri d es) v ∙ h

  pub Step-InStep : {s t : Session V} → Step s t → InStep s → InStep t
  Step-InStep {s} (join c i es h e) v =
      rw e (extend-InStep s i es v (add_client-told V opens closes uri s.instance c h))
  Step-InStep {s} (client_says c now sent m i es flow h e) v = rw e (
      extend-InStep s i es v
        (handle_client_message-told V opens closes uri s.instance c now sent m h))
  Step-InStep {s} (part c i es h e) v =
      rw e (extend-InStep s i es v (cleanup_client-told V opens closes uri s.instance c h))
  Step-InStep {s} (server_says m e) v =
      let (i, es) = handle_server_message s.instance m in
      rw e (
        extend-InStep s i es v (
          after-handle_server_message uri (told uri s.instance.clients) s.instance m
          ∙ sym (ap (told uri) (handle_server_message-clients s.instance m))))

  Reach-InStep : {s t : Session V} → Reach s t → InStep s → InStep t
  Reach-InStep here v = v
  Reach-InStep (next r st) v = Step-InStep st (Reach-InStep r v)

  -- Whatever clients and server did since the start of an instance, the language server has a
  -- document open exactly if some connected client has it open, and it was never told to open a
  -- document that it had open. The two hypotheses are serde's: the parameters of `didOpen` and
  -- `didClose` are read back as they were written.
  pub Reach-told :
      (s t : Session V)
      → IsFresh s
      → Reach s t
      → after uri unopened t.log ≡ told uri t.instance.clients
  unfolding receive_all server_messages has_open any
  Reach-told s t f r = Reach-InStep r (rw (f.no_log, f.no_clients) refl)
