-- ===== src/Examples/Requests.antt =====
-- Requests, answers and notifications of an instance that two clients share.
use ra_multiplex.Base.{
  codes, [], ◌∷◌, some, none, true, false, ◌==◌, list_beq, list_eq, nat_eq, ◌≡◌, refl, ok, arith,
  if◌then◌else◌, List, Error,
}
use ra_multiplex.Base.Int.{pos}
use ra_multiplex.Base.HashMap
use ra_multiplex.Base.HashSet
use ra_multiplex.Lsp.Jsonrpc.{
  version, string, request, notification, response_success, success, Request, RequestId,
}
use ra_multiplex.Lsp.Ext.{tag, client_id, drop, forward}
use ra_multiplex.Effect.{to_server, to_client, server_messages, client_messages}
use ra_multiplex.Instance.{keep_alive}
use ra_multiplex.Instance.Stdout.{handle_server_message}
use ra_multiplex.Client.Output.{proceed, handle_client_message}
use ra_multiplex.Session.Clients.{keyed}
use ra_multiplex.Session.Invariant.{IsOrdered}
use ra_multiplex.Session.Routing.{answer_returns}
use ra_multiplex.Session.ServerRequests.{answered_methods, server_request_answered}
use ra_multiplex.Session.Configuration.{configuration_forwarded}
use ra_multiplex.Session.Steps.{Session, extend, Reach}
use ra_multiplex.Session.Notifications.{before_close, notifications, stdout_task_broadcasts}
use ra_multiplex.Instance.Task.{Received, message, closed, failure, stdout_task}
use ra_multiplex.Examples.World.{
  Value, value_json, shared_instance, client, connected, did_open_message, ask, reply,
}

abbrev hover : Request Value
hover = ask (codes "textDocument/hover")

abbrev five : RequestId
five = string (codes "5")

pub shared_IsOrdered : IsOrdered shared_instance.clients
unfolding HashMap.unique HashMap.contains_key keyed
shared_IsOrdered = record { one_each = refl; own_id = refl }

no_shutdown : (hover.method == codes "shutdown") ≡ false
unfolding list_beq
no_shutdown = refl

second_client : HashMap.get 2 shared_instance.clients ≡ some (connected 2 []).1
unfolding HashMap.get
second_client = refl

answer_returns_example :
    (handle_client_message shared_instance (client 2) (pos 9) true (request hover)
      ≡ ok (
        keep_alive shared_instance (pos 9),
        to_server (request (record hover { id = tag five (client_id 2) })) ∷ [],
        proceed,
      ))
    × (handle_server_message shared_instance (response_success (reply (tag five (client_id 2))))
        ≡ (shared_instance, to_client 2 (response_success (reply five)) ∷ []))
answer_returns_example =
    answer_returns shared_instance shared_instance (client 2) (connected 2 []).1 (pos 9) true hover
      (success (reply (tag five (client_id 2)))) tt (omega arith) no_shutdown shared_IsOrdered
      second_client refl

third_is_gone : HashMap.get 3 shared_instance.clients ≡ none
unfolding HashMap.get
third_is_gone = refl

abbrev register : Request Value
register = ask (codes "client/registerCapability")

registers : HashSet.contains answered_methods register.method ≡ true
unfolding HashSet.contains list_beq
registers = refl

server_request_answered_example :
    (server_messages (handle_server_message shared_instance (request register)).1
      ≡ response_success (record { jsonrpc = version; result = value_json.null; id = five }) ∷ [])
    × (client_messages 2 (handle_server_message shared_instance (request register)).1 ≡ (
        if HashMap.contains_key 2 shared_instance.clients
        then request (record register { id = tag five drop }) ∷ []
        else []))
    × (handle_client_message shared_instance
          (client 2)
          (pos 9)
          true
          (response_success (reply (tag five drop)))
        ≡ ok (keep_alive shared_instance (pos 9), [], proceed))
server_request_answered_example =
    server_request_answered shared_instance shared_instance register 2 (client 2) (pos 9) true
      (reply (tag five drop)) registers tt shared_IsOrdered refl

abbrev configure : Request Value
configure = ask (codes "workspace/configuration")

abbrev shared : Session Value
shared = record { instance = shared_instance; log = [] }

-- A notification, a request that goes to one client, an error, an answer, and another notification;
-- what comes after the stream was closed is not read.
abbrev rounds : List (Received Value)
rounds =
    message (notification did_open_message)
    ∷ message (request configure)
    ∷ failure Error.invalid_body
    ∷ message (response_success (reply (tag five (client_id 1))))
    ∷ message (notification did_open_message)
    ∷ closed
    ∷ message (notification did_open_message)
    ∷ []

stdout_task_broadcasts_example :
    Reach shared (
      extend shared
        (stdout_task shared_instance rounds).instance
        (stdout_task shared_instance rounds).sent)
    × (notifications (client_messages 1 (stdout_task shared_instance rounds).sent) ≡ (
        if HashMap.contains_key 1 shared_instance.clients
        then notifications (before_close rounds)
        else []))
stdout_task_broadcasts_example = stdout_task_broadcasts shared 1 rounds shared_IsOrdered

two_notifications : notifications (before_close rounds) ≡ did_open_message ∷ did_open_message ∷ []
unfolding notifications before_close
two_notifications = refl

configuration_forwarded_example :
    (handle_server_message shared_instance (request configure)
      ≡ (shared_instance, to_client 1 (request (record configure { id = tag five forward })) ∷ []))
    × (handle_client_message shared_instance
          (client 1)
          (pos 9)
          true
          (response_success (reply (tag five forward)))
        ≡ ok (
          keep_alive shared_instance (pos 9),
          to_server (response_success (reply five)) ∷ [],
          proceed,
        ))
configuration_forwarded_example =
    configuration_forwarded shared_instance shared_instance configure
      (connected 1 (codes "a.rs" ∷ [])).1 ((connected 2 []).1 ∷ []) (client 1) (pos 9) true
      (reply (tag five forward)) refl refl tt refl
