-- ===== src/Lsp/Json.antt =====
-- serde_json, as far as the program relies on it: the conversions between `Value` and the types of
-- src/lsp.rs and src/lsp/ext.rs. Where something relies on a value being read back as it was
-- written, it says so.
use ra_multiplex.Base.{◌≡◌, Option, some}
use ra_multiplex.Lsp.{
  InitializeParams, InitializeResult, RegistrationParams, UnregistrationParams,
  DidOpenTextDocumentParams, DidCloseTextDocumentParams,
}
use ra_multiplex.Lsp.Ext.{StatusResponse}

-- `to_value` and `from_value` at one type.
pub record Codec (V A : Type 0) : Type 0 where
  pub to_value : A → V
  pub from_value : V → Option A

-- What `to_value` wrote is read back.
abbrev pub IsReadBack : {V A : Type 0} → Codec V A → A → Type 0
IsReadBack c a = c.from_value (c.to_value a) ≡ some a

abbrev pub RoundTrips : {V A : Type 0} → Codec V A → Type 0
RoundTrips {A = A} c = (a : A) → IsReadBack c a

pub record Json (V : Type 0) : Type 0 where
  pub null : V
  -- `json!({})`
  pub empty_object : V
  pub initialize_params : Codec V (InitializeParams V)
  pub initialize_result : Codec V (InitializeResult V)
  pub registration_params : Codec V (RegistrationParams V)
  pub unregistration_params : Codec V UnregistrationParams
  pub did_open : Codec V DidOpenTextDocumentParams
  pub did_close : Codec V DidCloseTextDocumentParams
  pub status_response : Codec V StatusResponse
