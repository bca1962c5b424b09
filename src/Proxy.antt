-- ===== src/Proxy.antt =====
-- src/proxy.rs: the client process that an editor starts. Behind the first message it copies bytes
-- in both directions, which is tokio's.
pub mod Handover
pub mod Run
pub mod Environment
pub mod Relaying
use ra_multiplex.Base.{
  ℕ, Text, codes, List, [], ◌∷◌, Option, none, some, Outcome, ok, err, panic, Error,
}
use ra_multiplex.Base.Fallible.{◌>>=◌, or_error}
use ra_multiplex.Lsp.{InitializeParams, InitializationOptions}
use ra_multiplex.Lsp.Json.{Json}
use ra_multiplex.Lsp.Jsonrpc.{Message, Request, request}
use ra_multiplex.Lsp.Ext.{Method, LspMuxOptions, connect, protocol_version}
use ra_multiplex.Client.Connect.{expect_initialize}

-- The variables of `pass_environment` that are set; `var` is `std::env::var(key).ok()`.
unfoldable pub passed : (Text → Option Text) → List Text → List (Text × Text)
passed var [] = []
passed var (key ∷ keys) =
    let rest = passed var keys in elim (var key) [ some val ↦ (key, val) ∷ rest | none ↦ rest ]

unfoldable pub lsp_mux_or : Option LspMuxOptions → Method → LspMuxOptions
lsp_mux_or (some lsp_mux) method = lsp_mux
lsp_mux_or none method = record { version = protocol_version; method = method }

module _ {V : Type 0} where
  -- `get_or_insert_with(InitializationOptions::default)`
  unfoldable pub options_or_default : Option (InitializationOptions V) → InitializationOptions V
  options_or_default (some options) = options
  options_or_default none = record { lsp_mux = none; other_options = [] }

  -- Options that are there are kept.
  unfoldable pub patch : Method → InitializeParams V → InitializeParams V
  unfolding options_or_default lsp_mux_or
  patch method params =
      let options = options_or_default params.initialization_options in
      record params {
        initialization_options =
            some (record options { lsp_mux = some (lsp_mux_or options.lsp_mux method) });
      }

module _ {V : Type 0} ⦃json : Json V⦄ where
  -- From the editor's first message to the one that the server gets.
  unfoldable pub forwarded_request : Method → Outcome (Option (Message V)) → Outcome (Message V)
  unfolding expect_initialize patch
  forwarded_request method received = do
    read ← received
    message ← or_error read Error.channel_closed
    req ← expect_initialize message
    params ← or_error (json.initialize_params.from_value req.params) Error.parsing_params
    ok (request (record req { params = json.initialize_params.to_value (patch method params) }))
