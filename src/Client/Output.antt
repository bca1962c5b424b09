-- ===== src/Client/Output.antt =====
-- src/client.rs, `output_task`: what the program does with one message of a client.
use ra_multiplex.Base.{
  Text, codes, List, [], ◌∷◌, Option, some, none, Bool, ◌==◌, nat_eq, list_eq, if◌then◌else◌,
  Outcome, ok, err, panic,
}
use ra_multiplex.Base.Int.{ℤ}
use ra_multiplex.Lsp.Json.{Json}
use ra_multiplex.Lsp.Jsonrpc.{
  Message, Request, Notification, request, notification, response_success, response_error,
  RequestId,
}
use ra_multiplex.Lsp.Ext.{Tag, client_id, drop, forward, tag, untag}
use ra_multiplex.Effect.{Effect, to_server, to_client}
use ra_multiplex.Instance.{Instance, Client, keep_alive, open_file, close_file}
use ra_multiplex.Instance.Stdout.{null_response}

-- Whether the loop goes on, or the client is cleaned up.
pub data Flow : Type 0 where
  proceed leave : Flow

-- `is_err()` of a send to the instance ends the loop.
abbrev pub after_send : Bool → Flow
after_send sent = if sent then proceed else leave

-- The arms of the match on a client notification, by its method.
pub data ClientNotification : Type 0 where
  did_open did_close other : ClientNotification

unfoldable pub classify : Text → ClientNotification
classify method =
    if method == codes "textDocument/didOpen"
    then did_open
    else if method == codes "textDocument/didClose"
    then did_close
    else other

-- What a round returns: the instance, what it sent, and how the loop goes on.
abbrev pub Turn : Type 0 → Type 0
Turn V = Outcome (Instance V × List (Effect V) × Flow)

module _ {V : Type 0} where
  -- An error of `open_file` or `close_file` is logged, and the loop goes on.
  abbrev pub or_warn : Instance V → Outcome (Instance V × List (Effect V)) → Turn V
  or_warn self (ok (self', es)) = ok (self', es, proceed)
  or_warn self (err e) = ok (self, [], proceed)
  or_warn self panic = panic

  -- Only a response to a forwarded request goes on to the server, under its own id.
  unfoldable pub forward_response :
      Instance V → Bool → (RequestId → Message V) → Option Tag × RequestId → Turn V
  forward_response self sent reply (some forward, id) =
      ok (self, to_server (reply id) ∷ [], after_send sent)
  forward_response self sent reply (some drop, id) = ok (self, [], proceed)
  forward_response self sent reply (some (client_id n), id) = ok (self, [], proceed)
  forward_response self sent reply (none, id) = ok (self, [], proceed)

module _ {V : Type 0} ⦃json : Json V⦄ where
  unfoldable pub client_request : Instance V → Client → Bool → Request V → Turn V
  unfolding null_response
  client_request self client sent req =
      if req.method == codes "shutdown"
      then ok (self, to_client client.id (response_success (null_response req.id)) ∷ [], leave)
      else ok (
        self,
        to_server (request (record req { id = tag req.id (client_id client.id) })) ∷ [],
        after_send sent,
      )

  unfoldable pub client_notification :
      ClientNotification → Instance V → Client → Bool → Notification V → Turn V
  client_notification did_open self client sent notif =
      or_warn self (open_file self client.id notif.params)
  client_notification did_close self client sent notif =
      or_warn self (close_file self client.id notif.params)
  client_notification other self client sent notif =
      ok (self, to_server (notification notif) ∷ [], after_send sent)

  unfoldable pub dispatch : Instance V → Client → Bool → Message V → Turn V
  unfolding client_request forward_response classify client_notification
  dispatch self client sent (request req) = client_request self client sent req
  dispatch self client sent (response_success res) =
      forward_response self sent (λ id. response_success (record res { id = id })) (untag res.id)
  dispatch self client sent (response_error res) = ok (self, [], proceed)
  dispatch self client sent (notification notif) =
      client_notification (classify notif.method) self client sent notif

  -- One round of the loop at time `now`; `sent` is whether a send to the instance succeeded.
  unfoldable pub handle_client_message : Instance V → Client → ℤ → Bool → Message V → Turn V
  unfolding dispatch keep_alive
  handle_client_message self client now sent message =
      dispatch (keep_alive self now) client sent message
