-- ===== src/Serde/Messages.antt =====
-- src/lsp/jsonrpc.rs: how messages are written, and how `#[serde(untagged)]` and
-- `#[serde(deny_unknown_fields)]` tell their kinds apart.
use ra_multiplex.Base.{
  Text, codes, List, [], ◌∷◌, Option, none, some, Bool, true, list_eq, nat_eq, if◌then◌else◌,
  Outcome, ok, err, panic, ◌&&◌,
}
use mathlib.Core.Option
use ra_multiplex.Base.Try.{◌>>=◌}
use ra_multiplex.Base.HashMap
use ra_multiplex.Base.HashMap.{HashMap}
use ra_multiplex.Base.HashSet
use ra_multiplex.Lsp.Jsonrpc.{
  Version, version, visit_str, RequestId, number, string, RpcError, Request, Notification,
  ResponseError, ResponseSuccess, Message, request, notification, response_error, response_success,
}
use ra_multiplex.Serde.{
  Value, Shape, required, optional, or_default, read_string, write_string, read_i64, write_i64,
  write_struct, as_object,
}

-- The fields of the strict structs.
abbrev pub error_names : List Text
error_names = codes "code" ∷ codes "message" ∷ codes "data" ∷ []

abbrev pub request_names : List Text
request_names = codes "jsonrpc" ∷ codes "method" ∷ codes "params" ∷ codes "id" ∷ []

abbrev pub notification_names : List Text
notification_names = codes "jsonrpc" ∷ codes "method" ∷ codes "params" ∷ []

abbrev pub error_response_names : List Text
error_response_names = codes "jsonrpc" ∷ codes "error" ∷ codes "id" ∷ []

abbrev pub success_names : List Text
success_names = codes "jsonrpc" ∷ codes "result" ∷ codes "id" ∷ []

abbrev pub succeeded : {A : Type 0} → Outcome A → Option A
succeeded (ok a) = some a
succeeded (err e) = none
succeeded panic = none

module _ {V : Type 0} where
  -- No entry stands under another name.
  unfoldable pub all_known : List Text → HashMap Text V → Bool
  unfolding HashSet.contains
  all_known names [] = true
  all_known names ((k, v) ∷ es) = HashSet.contains names k && all_known names es

  unfoldable pub strict_fields : List Text → HashMap Text V → Option (Text → Option V)
  unfolding all_known
  strict_fields names es = if all_known names es then some (λ k. HashMap.get k es) else none

module _ {V : Type 0} ⦃value : Value V⦄ where
  -- A struct with `deny_unknown_fields`.
  unfoldable pub read_strict : List Text → V → Option (Text → Option V)
  unfolding strict_fields as_object
  read_strict names v = do es ← as_object (value.view v); strict_fields names es

  abbrev pub write_version : Version → V
  write_version version = write_string (codes "2.0")

  unfoldable pub read_version : V → Option Version
  unfolding visit_str read_string
  read_version v = do s ← read_string v; succeeded (visit_str s)

  abbrev pub write_id : RequestId → V
  write_id (number n) = write_i64 n
  write_id (string s) = write_string s

  -- The variants in order; `null` is neither.
  unfoldable pub read_id : V → Option RequestId
  unfolding read_i64 read_string
  read_id v = elim (read_i64 v) [
    | some n ↦ some (number n)
    | none ↦ Option.map string (read_string v)
  ]

  abbrev pub error_fields : RpcError V → HashMap Text (Option V)
  error_fields e =
      (codes "code", some (write_i64 e.code))
      ∷ (codes "message", some (write_string e.message))
      ∷ (codes "data", e.details)
      ∷ []

  unfoldable pub read_error : V → Option (RpcError V)
  unfolding read_strict required optional read_i64 read_string
  read_error v = do
    field ← read_strict error_names v
    code ← required read_i64 (field (codes "code"))
    message ← required read_string (field (codes "message"))
    details ← optional some (field (codes "data"))
    some (record { code = code; message = message; details = details })

  abbrev pub request_fields : Request V → HashMap Text (Option V)
  request_fields req =
      (codes "jsonrpc", some (write_version req.jsonrpc))
      ∷ (codes "method", some (write_string req.method))
      ∷ (codes "params", some req.params)
      ∷ (codes "id", some (write_id req.id))
      ∷ []

  -- `#[serde(default)]` of a `Value` is `null`.
  unfoldable pub read_request : V → Option (Request V)
  unfolding read_strict required or_default read_version read_string read_id
  read_request v = do
    field ← read_strict request_names v
    jsonrpc ← required read_version (field (codes "jsonrpc"))
    method ← required read_string (field (codes "method"))
    params ← or_default some (value.build Shape.null) (field (codes "params"))
    id ← required read_id (field (codes "id"))
    some (record { jsonrpc = jsonrpc; method = method; params = params; id = id })

  abbrev pub notification_fields : Notification V → HashMap Text (Option V)
  notification_fields notif =
      (codes "jsonrpc", some (write_version notif.jsonrpc))
      ∷ (codes "method", some (write_string notif.method))
      ∷ (codes "params", some notif.params)
      ∷ []

  unfoldable pub read_notification : V → Option (Notification V)
  unfolding read_strict required or_default read_version read_string
  read_notification v = do
    field ← read_strict notification_names v
    jsonrpc ← required read_version (field (codes "jsonrpc"))
    method ← required read_string (field (codes "method"))
    params ← or_default some (value.build Shape.null) (field (codes "params"))
    some (record { jsonrpc = jsonrpc; method = method; params = params })

  abbrev pub response_error_fields : ResponseError V → HashMap Text (Option V)
  response_error_fields res =
      (codes "jsonrpc", some (write_version res.jsonrpc))
      ∷ (codes "error", some (write_struct (error_fields res.error)))
      ∷ (codes "id", some (write_id res.id))
      ∷ []

  unfoldable pub read_response_error : V → Option (ResponseError V)
  unfolding read_strict required read_version read_error read_id
  read_response_error v = do
    field ← read_strict error_response_names v
    jsonrpc ← required read_version (field (codes "jsonrpc"))
    error ← required read_error (field (codes "error"))
    id ← required read_id (field (codes "id"))
    some (record { jsonrpc = jsonrpc; error = error; id = id })

  abbrev pub response_success_fields : ResponseSuccess V → HashMap Text (Option V)
  response_success_fields res =
      (codes "jsonrpc", some (write_version res.jsonrpc))
      ∷ (codes "result", some res.result)
      ∷ (codes "id", some (write_id res.id))
      ∷ []

  unfoldable pub read_response_success : V → Option (ResponseSuccess V)
  unfolding read_strict required or_default read_version read_id
  read_response_success v = do
    field ← read_strict success_names v
    jsonrpc ← required read_version (field (codes "jsonrpc"))
    result ← or_default some (value.build Shape.null) (field (codes "result"))
    id ← required read_id (field (codes "id"))
    some (record { jsonrpc = jsonrpc; result = result; id = id })

  abbrev pub write_message : Message V → V
  write_message (request req) = write_struct (request_fields req)
  write_message (notification notif) = write_struct (notification_fields notif)
  write_message (response_error res) = write_struct (response_error_fields res)
  write_message (response_success res) = write_struct (response_success_fields res)

  -- The first variant that can be read.
  unfoldable pub read_message : V → Option (Message V)
  unfolding read_request read_notification read_response_error read_response_success
  read_message v = elim (read_request v) [
    | some req ↦ some (request req)
    | none ↦ elim (read_notification v) [
      | some notif ↦ some (notification notif)
      | none ↦ elim (read_response_error v) [
        | some res ↦ some (response_error res)
        | none ↦ Option.map response_success (read_response_success v)
      ]
    ]
  ]
