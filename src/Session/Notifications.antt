-- ===== src/Session/Notifications.antt =====
-- The task of the language server's stdout over its whole stream: a run of the session's steps, and
-- what the clients get of the server's notifications.
use ra_multiplex.Base.{
  ℕ, List, [], ◌∷◌, ◌++◌, Option, Option-cases, none, some, true, false, ◌≡◌, refl, sym, ap, ◌∙◌,
  subst, inl, inr, arith, if◌then◌else◌, Bool, nat_eq,
}
use ra_multiplex.Base.HashMap
use ra_multiplex.Base.HashMap.{HashMap}
use ra_multiplex.Lsp.Json.{Json}
use ra_multiplex.Lsp.Jsonrpc.{
  Message, Request, Notification, RequestId, request, notification, response_success,
  response_error,
}
use ra_multiplex.Lsp.Ext.{Tag, client_id, drop, forward, untag}
use ra_multiplex.Effect.{Effect, client_messages, client_messages-append}
use ra_multiplex.Instance.{Instance, ClientData}
use ra_multiplex.Instance.Stdout.{
  ServerRequest, refresh, configuration, register_capability, unregister_capability, unknown,
  classify, send_to, send_to_first, route, handle_request, handle_server_message, fake_response,
}
use ra_multiplex.Instance.Task.{Received, message, closed, failure, stdout_task}
use ra_multiplex.Session.Handlers.{handle_server_message-clients}
use ra_multiplex.Session.Invariant.{IsOrdered}
use ra_multiplex.Session.ServerRequests.{client_messages-fake_response, notification_broadcast}
use ra_multiplex.Session.Runs.{Reach_trans, extend-extend, Reach-unsent}
use ra_multiplex.Session.Steps.{Session, extend, server_says, Reach, here, next}

if_same : {A : Type 0} (b : Bool) {x : A} → (if b then x else x) ≡ x
if_same true = refl
if_same false = refl

module _ {V : Type 0} where
  -- The messages of a stream before its end.
  unfoldable pub before_close : List (Received V) → List (Message V)
  before_close [] = []
  before_close (closed ∷ rounds) = []
  before_close (failure e ∷ rounds) = before_close rounds
  before_close (message m ∷ rounds) = m ∷ before_close rounds

  -- The notifications among the messages, in order.
  unfoldable pub notifications : List (Message V) → List (Notification V)
  notifications [] = []
  notifications (notification n ∷ ms) = n ∷ notifications ms
  notifications (request r ∷ ms) = notifications ms
  notifications (response_success r ∷ ms) = notifications ms
  notifications (response_error r ∷ ms) = notifications ms

  notifications-append :
      (ms ns : List (Message V)) → notifications (ms ++ ns) ≡ notifications ms ++ notifications ns
  unfolding notifications
  notifications-append [] ns = refl
  notifications-append (notification n ∷ ms) ns = ap (◌∷◌ n) (notifications-append ms ns)
  notifications-append (request r ∷ ms) ns = notifications-append ms ns
  notifications-append (response_success r ∷ ms) ns = notifications-append ms ns
  notifications-append (response_error r ∷ ms) ns = notifications-append ms ns

  -- What reaches one client of some effects, of the server's notifications.
  abbrev pub told_client : ℕ → List (Effect V) → List (Notification V)
  told_client n es = notifications (client_messages n es)

  told_client-send_to :
      (n k : ℕ) (clients : HashMap ℕ ClientData) (m : Message V)
      → notifications (m ∷ []) ≡ []
      → told_client n (send_to clients k m) ≡ []
  unfolding send_to client_messages notifications
  told_client-send_to n k clients m h = elim (Option-cases (HashMap.get k clients)) [
    | inl e ↦ ground arith
    | inr (d, e) ↦ ground arith
  ]

  told_client-route :
      (n : ℕ) (clients : HashMap ℕ ClientData) (reply : RequestId → Message V)
      (t : Option Tag × RequestId)
      → ((id : RequestId) → notifications (reply id ∷ []) ≡ [])
      → told_client n (route clients reply t) ≡ []
  unfolding route client_messages notifications
  told_client-route n clients reply (some (client_id k), id) h =
      told_client-send_to n k clients (reply id) (h id)
  told_client-route n clients reply (some drop, id) h = refl
  told_client-route n clients reply (some forward, id) h = refl
  told_client-route n clients reply (none, id) h = refl

  told_client-send_to_first :
      (n : ℕ) (clients : HashMap ℕ ClientData) (req : Request V)
      → told_client n (send_to_first clients (request req)) ≡ []
  unfolding send_to_first client_messages notifications
  told_client-send_to_first n [] req = refl
  told_client-send_to_first n ((k, d) ∷ clients) req = ground arith

module _ {V : Type 0} ⦃json : Json V⦄ where
  told_client-fake_response :
      (n : ℕ) (clients : HashMap ℕ ClientData) (req : Request V)
      → IsOrdered clients
      → told_client n (fake_response clients req) ≡ []
  unfolding notifications
  told_client-fake_response n clients req v =
      ground (arith, client_messages-fake_response n clients req v)

  told_client-handle_request :
      (n : ℕ) (k : ServerRequest) (self : Instance V) (req : Request V)
      → IsOrdered self.clients
      → told_client n (handle_request k self req).1 ≡ []
  unfolding handle_request client_messages notifications
  told_client-handle_request n refresh self req v = told_client-fake_response n self.clients req v
  told_client-handle_request n configuration self req v = told_client-send_to_first n self.clients _
  told_client-handle_request n register_capability self req v =
      told_client-fake_response n self.clients req v
  told_client-handle_request n unregister_capability self req v =
      told_client-fake_response n self.clients req v
  told_client-handle_request n unknown self req v = refl

  -- A round tells a connected client the message if it is a notification, and else nothing.
  told_client-handle_server_message :
      (n : ℕ) (self : Instance V) (m : Message V)
      → IsOrdered self.clients
      → told_client n (handle_server_message self m).1
        ≡ (if HashMap.contains_key n self.clients then notifications (m ∷ []) else [])
  unfolding handle_server_message notifications
  told_client-handle_server_message n self (notification notif) v =
      ground (arith, (notification_broadcast self notif n v).1)
  told_client-handle_server_message n self (request req) v =
      told_client-handle_request n (classify req.method) self req v
      ∙ sym (if_same (HashMap.contains_key n self.clients))
  told_client-handle_server_message n self (response_success res) v =
      told_client-route n self.clients _ (untag res.id) (λ id. refl)
      ∙ sym (if_same (HashMap.contains_key n self.clients))
  told_client-handle_server_message n self (response_error res) v =
      told_client-route n self.clients _ (untag res.id) (λ id. refl)
      ∙ sym (if_same (HashMap.contains_key n self.clients))

  stdout_task-Reach :
      (s : Session V) (rounds : List (Received V))
      → Reach s
          (extend s (stdout_task s.instance rounds).instance (stdout_task s.instance rounds).sent)
  unfolding stdout_task
  stdout_task-Reach s [] = Reach-unsent s
  stdout_task-Reach s (closed ∷ rounds) = Reach-unsent s
  stdout_task-Reach s (failure e ∷ rounds) = stdout_task-Reach s rounds
  stdout_task-Reach s (message m ∷ rounds) =
      let (self', es) = handle_server_message s.instance m in
      let rest = stdout_task self' rounds in
      subst (Reach s) (extend-extend s self' rest.instance es rest.sent) (
        Reach_trans (next here (server_says m refl)) (stdout_task-Reach (extend s self' es) rounds))

  pub told_client-stdout_task :
      (self : Instance V) (n : ℕ) (rounds : List (Received V))
      → IsOrdered self.clients
      → told_client n (stdout_task self rounds).sent
        ≡ (if HashMap.contains_key n self.clients then notifications (before_close rounds) else [])
  unfolding stdout_task before_close notifications client_messages
  told_client-stdout_task self n [] v = sym (if_same (HashMap.contains_key n self.clients))
  told_client-stdout_task self n (closed ∷ rounds) v =
      sym (if_same (HashMap.contains_key n self.clients))
  told_client-stdout_task self n (failure e ∷ rounds) v = told_client-stdout_task self n rounds v
  told_client-stdout_task self n (message m ∷ rounds) v =
      let (self', es) = handle_server_message self m in
      let same = handle_server_message-clients self m in
      let rest = stdout_task self' rounds in
      ground (
        arith,
        same,
        client_messages-append n es rest.sent,
        notifications-append (client_messages n es) (client_messages n rest.sent),
        notifications-append (m ∷ []) (before_close rounds),
        told_client-handle_server_message n self m v,
        told_client-stdout_task self' n rounds (subst IsOrdered (sym same) v),
      )

  -- The task of the language server's stdout, over whatever `read_message` brings to its loop,
  -- makes a run of the session's steps, and hands to a connected client exactly the notifications
  -- that came before the stream was closed, each once and in their order, whatever came between
  -- them; to another number it hands no notification. The client map is assumed to be in order at
  -- the start, and no other task changes the instance meanwhile.
  pub stdout_task_broadcasts :
      (s : Session V) (n : ℕ) (rounds : List (Received V))
      → IsOrdered s.instance.clients
      → Reach s
          (extend s (stdout_task s.instance rounds).instance (stdout_task s.instance rounds).sent)
        × (notifications (client_messages n (stdout_task s.instance rounds).sent) ≡ (
            if HashMap.contains_key n s.instance.clients
            then notifications (before_close rounds)
            else []))
  stdout_task_broadcasts s n rounds v =
      (stdout_task-Reach s rounds, told_client-stdout_task s.instance n rounds v)
