-- ===== src/Proxy/Handover.antt =====
-- What the server makes of the first message that a proxy forwards.
use ra_multiplex.Base.{
  codes, ◌≡◌, refl, ◌==◌, list_eq, nat_eq, none, some, true, arith, ok, list_beq,
}
use ra_multiplex.Lsp.{InitializeParams}
use ra_multiplex.Lsp.Json.{Json, IsReadBack}
use ra_multiplex.Lsp.Jsonrpc.{Request, request}
use ra_multiplex.Lsp.Ext.{Method}
use ra_multiplex.Client.Connect.{first_message, expect_initialize, take_lsp_mux}
use ra_multiplex.Proxy.{options_or_default, lsp_mux_or, patch, forwarded_request}

module _ {V : Type 0} ⦃json : Json V⦄ where
  -- What the proxy makes of an `initialize` request.
  abbrev pub patched : Method → Request V → InitializeParams V → Request V
  patched method req params = record req {
    params = json.initialize_params.to_value (patch method params);
  }

  -- What the server goes on with: what the editor sent, without the section.
  abbrev pub without_section : InitializeParams V → InitializeParams V
  without_section params = record params {
    initialization_options =
        some (record (options_or_default params.initialization_options) { lsp_mux = none });
  }

  pub forwarded_request-patched :
      (method : Method) (req : Request V) (params : InitializeParams V)
      → (req.method == codes "initialize") ≡ true
      → json.initialize_params.from_value req.params ≡ some params
      → forwarded_request method (ok (some (request req)))
        ≡ ok (request (patched method req params))
  unfolding forwarded_request expect_initialize
  forwarded_request-patched method req params is_init parses = rw (is_init, parses)

  pub first_message-patched :
      (method : Method) (req : Request V) (params : InitializeParams V)
      → IsReadBack json.initialize_params (patch method params)
      → (req.method == codes "initialize") ≡ true
      → (options_or_default params.initialization_options).lsp_mux ≡ none
      → first_message (ok (some (request (patched method req params))))
        ≡ ok (patched method req params, method, without_section params)
  unfolding first_message expect_initialize take_lsp_mux patch lsp_mux_or list_beq
  first_message-patched method req params reads is_init bare = ground (arith, is_init, reads)

  -- The proxy forwards an editor's `initialize` request that has no `lspMux` section under the
  -- editor's id, and the server finds in it exactly the method that the proxy put there. What the
  -- server goes on with is what the editor sent, with empty options where it sent none: no
  -- `lspMux` reaches the language server. It is assumed that serde reads the parameters that the
  -- proxy writes back.
  pub forwarded_request-first_message :
      (method : Method) (req : Request V) (params : InitializeParams V)
      → IsReadBack json.initialize_params (patch method params)
      → (req.method == codes "initialize") ≡ true
      → json.initialize_params.from_value req.params ≡ some params
      → (options_or_default params.initialization_options).lsp_mux ≡ none
      → (req' : Request V) × (forwarded_request method (ok (some (request req)))
          ≡ ok (request req'))
        × (first_message (ok (some (request req'))) ≡ ok (req', method, without_section params))
        × (req'.id ≡ req.id)
  forwarded_request-first_message method req params reads is_init parses bare = (
    patched method req params,
    forwarded_request-patched method req params is_init parses,
    first_message-patched method req params reads is_init bare,
    refl,
  )
