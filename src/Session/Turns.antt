-- ===== src/Session/Turns.antt =====
-- A round of a client's task, which does not panic while the client is connected.
use ra_multiplex.Base.{
  ℕ, codes, ◌==◌, list_eq, Option, none, some, List, Bool, true, false, ◌≡◌, ◌≢◌, if◌then◌else◌,
  refl, arith, Outcome, ok, err, panic, nat_eq,
}
use ra_multiplex.Base.Int.{ℤ}
use ra_multiplex.Base.HashMap
use ra_multiplex.Lsp.Json.{Json}
use ra_multiplex.Lsp.Jsonrpc.{
  Message, Notification, RequestId, request, notification, response_success, response_error,
}
use ra_multiplex.Lsp.Ext.{Tag, client_id, drop, forward, untag}
use ra_multiplex.Effect.{Effect}
use ra_multiplex.Instance.{Instance, Client, open_file, close_file, keep_alive}
use ra_multiplex.Client.Output
use ra_multiplex.Client.Output.{
  Flow, proceed, leave, Turn, ClientNotification, did_open, did_close, other, or_warn,
  forward_response, client_request, client_notification, dispatch, handle_client_message,
}

-- A result that is a value.
abbrev pub IsValue : {A : Type 0} → Outcome A → Type 0
IsValue {A} o = (a : A) × (o ≡ ok a)

either-IsValue : {A : Type 0} (b : Bool) (x y : A) → IsValue (if b then ok x else ok y)
either-IsValue true x y = (x, refl)
either-IsValue false x y = (y, refl)

or_warn-IsValue :
    {V : Type 0} (self : Instance V) (o : Outcome (Instance V × List (Effect V)))
    → o ≢ panic
    → IsValue (or_warn self o)
or_warn-IsValue self (ok (i, es)) h = (_, refl)
or_warn-IsValue self (err e) h = (_, refl)
or_warn-IsValue self panic h = absurd (h refl)

forward_response-IsValue :
    {V : Type 0} (self : Instance V) (sent : Bool) (reply : RequestId → Message V)
    (t : Option Tag × RequestId)
    → IsValue (forward_response self sent reply t)
unfolding forward_response
forward_response-IsValue self sent reply (some forward, id) = (_, refl)
forward_response-IsValue self sent reply (some drop, id) = (_, refl)
forward_response-IsValue self sent reply (some (client_id n), id) = (_, refl)
forward_response-IsValue self sent reply (none, id) = (_, refl)

module _ {V : Type 0} ⦃json : Json V⦄ where
  open_file-ne-panic :
      (self : Instance V) (n : ℕ) (value : V)
      → HashMap.contains_key n self.clients ≡ true
      → open_file self n value ≢ panic
  unfolding open_file
  open_file-ne-panic self n value h = ground arith

  close_file-ne-panic : (self : Instance V) (n : ℕ) (value : V) → close_file self n value ≢ panic
  unfolding close_file
  close_file-ne-panic self n value = ground arith

  client_notification-IsValue :
      (k : ClientNotification) (self : Instance V) (c : Client) (sent : Bool)
      (notif : Notification V)
      → HashMap.contains_key c.id self.clients ≡ true
      → IsValue (client_notification k self c sent notif)
  unfolding client_notification
  client_notification-IsValue did_open self c sent notif h =
      or_warn-IsValue self (open_file self c.id notif.params)
        (open_file-ne-panic self c.id notif.params h)
  client_notification-IsValue did_close self c sent notif h =
      or_warn-IsValue self (close_file self c.id notif.params)
        (close_file-ne-panic self c.id notif.params)
  client_notification-IsValue other self c sent notif h = (_, refl)

  -- A round does not panic for a client that is connected.
  pub turn-IsValue :
      (self : Instance V) (c : Client) (now : ℤ) (sent : Bool) (m : Message V)
      → HashMap.contains_key c.id self.clients ≡ true
      → IsValue (handle_client_message self c now sent m)
  unfolding handle_client_message dispatch keep_alive client_request
  turn-IsValue self c now sent (request req) h = either-IsValue (req.method == codes "shutdown") _ _
  turn-IsValue self c now sent (notification notif) h =
      client_notification-IsValue (Output.classify notif.method) (keep_alive self now) c sent notif
        h
  turn-IsValue self c now sent (response_success res) h =
      forward_response-IsValue (keep_alive self now) sent _ (untag res.id)
  turn-IsValue self c now sent (response_error res) h = (_, refl)
