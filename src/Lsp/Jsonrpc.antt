-- ===== src/Lsp/Jsonrpc.antt =====
-- src/lsp/jsonrpc.rs: the messages of JSON-RPC 2.0. `V` is `serde_json::Value`. How a message is
-- written and read as JSON is derived by serde, which is a parameter where it matters (Json).
use ra_multiplex.Base.{
  Text, Option, Bool, false, codes, ◌==◌, list_eq, nat_eq, if◌then◌else◌, Outcome, ok, err, Error,
}
use ra_multiplex.Base.Int.{ℤ}

pub data Version : Type 0 where
  version : Version

-- The visitor of `Version`: only the text "2.0" is accepted.
unfoldable pub visit_str : Text → Outcome Version
visit_str v = if v == codes "2.0" then ok version else err Error.invalid_value

pub data RequestId : Type 0 where
  number : ℤ → RequestId
  string : Text → RequestId

-- `PartialEq<S> for RequestId`: a number equals no text.
unfoldable pub id_eq : RequestId → Text → Bool
id_eq (number n) rhs = false
id_eq (string lhs) rhs = lhs == rhs

pub record RpcError (V : Type 0) : Type 0 where
  pub code : ℤ
  pub message : Text
  pub details : Option V

pub record Request (V : Type 0) : Type 0 where
  pub jsonrpc : Version
  pub method : Text
  pub params : V
  pub id : RequestId

pub record Notification (V : Type 0) : Type 0 where
  pub jsonrpc : Version
  pub method : Text
  pub params : V

pub record ResponseError (V : Type 0) : Type 0 where
  pub jsonrpc : Version
  pub error : RpcError V
  pub id : RequestId

pub record ResponseSuccess (V : Type 0) : Type 0 where
  pub jsonrpc : Version
  pub result : V
  pub id : RequestId

pub data Message (V : Type 0) : Type 0 where
  request : Request V → Message V
  notification : Notification V → Message V
  response_error : ResponseError V → Message V
  response_success : ResponseSuccess V → Message V

-- `Result<ResponseSuccess, ResponseError>`
pub data Response (V : Type 0) : Type 0 where
  success : ResponseSuccess V → Response V
  failure : ResponseError V → Response V

-- `Message::into_response`; the error is `NotResponseError`.
unfoldable pub into_response : {V : Type 0} → Message V → Outcome (Response V)
into_response (response_success res) = ok (success res)
into_response (response_error error) = ok (failure error)
into_response (request req) = err Error.not_a_response
into_response (notification notif) = err Error.not_a_response
