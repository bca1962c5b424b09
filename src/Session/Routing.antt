-- ===== src/Session/Routing.antt =====
-- Which peer gets an answer.
use ra_multiplex.Base.{
  ℕ, codes, [], ◌∷◌, none, some, Bool, false, ◌==◌, ◌≡◌, ◌≤◌, ◌∙◌, ap, nat_eq, list_eq, arith, ok,
}
use ra_multiplex.Base.Int.{ℤ}
use ra_multiplex.Base.HashMap
use ra_multiplex.Base.HashMap.{HashMap}
use ra_multiplex.Str.Decimal.{usize_max}
use ra_multiplex.Lsp.Json.{Json}
use ra_multiplex.Lsp.Jsonrpc.{
  Message, Request, Response, success, failure, RequestId, request, response_success,
  response_error,
}
use ra_multiplex.Lsp.Ext.{client_id, tag}
use ra_multiplex.Lsp.Ext.TagLaws.{IdFits, untag-tag}
use ra_multiplex.Effect.{to_server, to_client}
use ra_multiplex.Instance.{Instance, Client, ClientData, keep_alive}
use ra_multiplex.Instance.Stdout.{send_to, route, handle_server_message}
use ra_multiplex.Client.Output.{after_send, client_request, handle_client_message}
use ra_multiplex.Session.Clients.{get-keyed}
use ra_multiplex.Session.Invariant.{IsOrdered}

module _ {V : Type 0} where
  send_to_connected :
      (clients : HashMap ℕ ClientData) (n : ℕ) (d : ClientData) (m : Message V)
      → IsOrdered clients
      → HashMap.get n clients ≡ some d
      → send_to clients n m ≡ to_client n m ∷ []
  unfolding send_to
  send_to_connected clients n d m v h = ground (arith, get-keyed n d clients v.own_id)

  send_to_gone :
      (clients : HashMap ℕ ClientData) (n : ℕ) (m : Message V)
      → HashMap.get n clients ≡ none
      → send_to clients n m ≡ []
  unfolding send_to
  send_to_gone clients n m h = ground arith

-- A response of either kind as a message, and the same response under another id.
abbrev pub response_id : {V : Type 0} → Response V → RequestId
response_id (success res) = res.id
response_id (failure res) = res.id

abbrev pub as_message : {V : Type 0} → Response V → Message V
as_message (success res) = response_success res
as_message (failure res) = response_error res

abbrev pub readdressed : {V : Type 0} → Response V → RequestId → Message V
readdressed (success res) id = response_success (record res { id = id })
readdressed (failure res) id = response_error (record res { id = id })

module _ {V : Type 0} ⦃json : Json V⦄ where
  response_routed :
      (later : Instance V) (n : ℕ) (id : RequestId) (res : Response V)
      → IdFits id
      → n ≤ usize_max
      → response_id res ≡ tag id (client_id n)
      → handle_server_message later (as_message res)
        ≡ (later, send_to later.clients n (readdressed res id))
  unfolding handle_server_message route
  response_routed later n id (success res) fits bound e =
      rw (handle_server_message, e, untag-tag id (client_id n) fits bound)
  response_routed later n id (failure res) fits bound e =
      rw (handle_server_message, e, untag-tag id (client_id n) fits bound)

  request_sent :
      (self : Instance V) (c : Client) (now : ℤ) (sent : Bool) (req : Request V)
      → (req.method == codes "shutdown") ≡ false
      → handle_client_message self c now sent (request req)
        ≡ ok (
          keep_alive self now,
          to_server (request (record req { id = tag req.id (client_id c.id) })) ∷ [],
          after_send sent,
        )
  unfolding handle_client_message client_request
  request_sent self c now sent req h = rw (handle_client_message, h)

  -- A client's request other than `shutdown` goes to the language server with a tagged id and is
  -- otherwise unchanged. When the server answers that id, with a result or with an error, and
  -- whatever happened in between, exactly this client gets the answer, once, under the id that it
  -- chose itself, provided that it is still connected.
  pub answer_returns :
      (self later : Instance V) (c : Client) (d : ClientData) (now : ℤ) (sent : Bool)
      (req : Request V) (res : Response V)
      → IdFits req.id
      → c.id ≤ usize_max
      → (req.method == codes "shutdown") ≡ false
      → IsOrdered later.clients
      → HashMap.get c.id later.clients ≡ some d
      → response_id res ≡ tag req.id (client_id c.id)
      → (handle_client_message self c now sent (request req)
          ≡ ok (
            keep_alive self now,
            to_server (request (record req { id = response_id res })) ∷ [],
            after_send sent,
          ))
        × (handle_server_message later (as_message res)
            ≡ (later, to_client c.id (readdressed res req.id) ∷ []))
  answer_returns self later c d now sent req res fits bound h v g e = (
    rw e (request_sent self c now sent req h),
    response_routed later c.id req.id res fits bound e
        ∙ ap (λ es. (later, es)) (send_to_connected later.clients c.id d _ v g),
  )

  -- If the client has left by then, the answer reaches nobody.
  pub answer_of_gone_client :
      (later : Instance V) (n : ℕ) (id : RequestId) (res : Response V)
      → IdFits id
      → n ≤ usize_max
      → HashMap.get n later.clients ≡ none
      → response_id res ≡ tag id (client_id n)
      → handle_server_message later (as_message res) ≡ (later, [])
  answer_of_gone_client later n id res fits bound g e =
      response_routed later n id res fits bound e
      ∙ ap (λ es. (later, es)) (send_to_gone later.clients n _ g)
