-- ===== src/Session/Configuration.antt =====
-- What becomes of the language server's requests for a client's configuration.
use ra_multiplex.Base.{
  ℕ, codes, List, [], ◌∷◌, Bool, ◌≡◌, refl, ◌∙◌, ap, nat_eq, list_eq, list_beq, arith, ok,
}
use ra_multiplex.Base.Int.{ℤ}
use ra_multiplex.Base.HashMap
use ra_multiplex.Base.HashMap.{HashMap}
use ra_multiplex.Base.HashSet
use ra_multiplex.Lsp.Json.{Json}
use ra_multiplex.Lsp.Jsonrpc.{
  Message, Request, ResponseSuccess, RequestId, request, response_success,
}
use ra_multiplex.Lsp.Ext.{forward, tag}
use ra_multiplex.Lsp.Ext.TagLaws.{IdFits, untag-tag}
use ra_multiplex.Effect.{to_server, to_client}
use ra_multiplex.Instance.{Instance, Client, ClientData, keep_alive}
use ra_multiplex.Instance.Stdout.{
  ServerRequest, refresh, configuration, register_capability, unregister_capability, unknown,
  classify, send_to_first, handle_request, handle_server_message,
}
use ra_multiplex.Client.Output.{after_send, forward_response, handle_client_message}

module _ {V : Type 0} ⦃json : Json V⦄ where
  classify-configuration :
      (req : Request V)
      → req.method ≡ codes "workspace/configuration"
      → classify req.method ≡ configuration
  unfolding classify HashSet.contains list_beq
  classify-configuration req h = rw h

  forwarded_request :
      (self : Instance V) (req : Request V) (k : ServerRequest)
      → k ≡ configuration
      → handle_request k self req
        ≡ (self, send_to_first self.clients (request (record req { id = tag req.id forward })))
  unfolding handle_request
  forwarded_request self req configuration h = refl
  forwarded_request self req refresh h = cc
  forwarded_request self req register_capability h = cc
  forwarded_request self req unregister_capability h = cc
  forwarded_request self req unknown h = cc

  forwarded_response :
      (later : Instance V) (c : Client) (now : ℤ) (sent : Bool) (id : RequestId)
      (res : ResponseSuccess V)
      → IdFits id
      → res.id ≡ tag id forward
      → handle_client_message later c now sent (response_success res)
        ≡ ok (
          keep_alive later now,
          to_server (response_success (record res { id = id })) ∷ [],
          after_send sent,
        )
  unfolding handle_client_message forward_response
  forwarded_response later c now sent id res fits e =
      rw (handle_client_message, e, untag-tag id forward fits tt)

  first_client :
      (clients : HashMap ℕ ClientData) (d : ClientData) (ds : List ClientData) (m : Message V)
      → HashMap.values clients ≡ d ∷ ds
      → send_to_first clients m ≡ to_client d.client.id m ∷ []
  unfolding send_to_first
  first_client [] d ds m h = cc
  first_client ((n, e) ∷ clients) d ds m h = ground arith

  configuration_sent :
      (self : Instance V) (req : Request V) (d : ClientData) (ds : List ClientData)
      → req.method ≡ codes "workspace/configuration"
      → HashMap.values self.clients ≡ d ∷ ds
      → handle_server_message self (request req)
        ≡ (self, to_client d.client.id (request (record req { id = tag req.id forward })) ∷ [])
  unfolding handle_server_message
  configuration_sent self req d ds h v =
      forwarded_request self req (classify req.method) (classify-configuration req h)
      ∙ ap (λ es. (self, es)) (first_client self.clients d ds _ v)

  -- A `workspace/configuration` request goes to the client that stands first in the order of
  -- iteration, and to nobody else. A client's successful answer to it reaches the server under the
  -- id that the server chose, whenever it comes.
  pub configuration_forwarded :
      (self later : Instance V) (req : Request V) (d : ClientData) (ds : List ClientData)
      (c : Client) (now : ℤ) (sent : Bool) (res : ResponseSuccess V)
      → req.method ≡ codes "workspace/configuration"
      → HashMap.values self.clients ≡ d ∷ ds
      → IdFits req.id
      → res.id ≡ tag req.id forward
      → (handle_server_message self (request req)
          ≡ (self, to_client d.client.id (request (record req { id = res.id })) ∷ []))
        × (handle_client_message later c now sent (response_success res)
            ≡ ok (
              keep_alive later now,
              to_server (response_success (record res { id = req.id })) ∷ [],
              after_send sent,
            ))
  configuration_forwarded self later req d ds c now sent res h v fits e = (
    rw e (configuration_sent self req d ds h v),
    forwarded_response later c now sent req.id res fits e,
  )
