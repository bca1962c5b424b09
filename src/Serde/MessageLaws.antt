-- ===== src/Serde/MessageLaws.antt =====
-- A message that was written is read as itself.
use ra_multiplex.Base.{
  Text, codes, List, [], ◌∷◌, Option, none, some, true, list_beq, list_eq, nat_eq, ◌≡◌, refl, ap,
  ◌∙◌, if◌then◌else◌,
}
use mathlib.Core.Path.{fun_ext}
use ra_multiplex.Base.Try.{◌>>=◌}
use ra_multiplex.Base.HashMap
use ra_multiplex.Base.HashMap.{HashMap}
use ra_multiplex.Base.HashSet
use ra_multiplex.Str.Decimal.RoundTrip.{Fits}
use ra_multiplex.Lsp.Jsonrpc.{
  Version, version, visit_str, RequestId, number, string, RpcError, Request, Notification,
  ResponseError, ResponseSuccess, Message, request, notification, response_error, response_success,
}
use ra_multiplex.Lsp.Ext.TagLaws.{IdFits}
use ra_multiplex.Serde.{
  Value, Shape, required, or_default, write_string, read_i64, write_i64, write_struct, as_object,
  present, written, is_solid, as_i64,
}
use ra_multiplex.Serde.Laws.{optional_solid, read_string_lem, read_i64_lem, get-present}
use ra_multiplex.Serde.Messages.{
  error_names, request_names, notification_names, error_response_names, success_names, all_known,
  strict_fields, read_strict, read_version, write_version, read_id, write_id, error_fields,
  read_error, request_fields, read_request, notification_fields, read_notification,
  response_error_fields, read_response_error, response_success_fields, read_response_success,
  write_message, read_message,
}

-- A numeric id is an `i64`, a numeric code too, and an error's data, if it has any, is not `null`.
abbrev pub IsSendable : {V : Type 0} ⦃value : Value V⦄ → Message V → Type 0
IsSendable (request req) = IdFits req.id
IsSendable (notification notif) = Unit
IsSendable (response_error res) =
    IdFits res.id × Fits res.error.code × (is_solid res.error.details ≡ true)
IsSendable (response_success res) = IdFits res.id

module _ (V : Type 0) ⦃value : Value V⦄ where
  read_strict_lem :
      (names : List Text) (fields : HashMap Text (Option V))
      → HashMap.unique fields ≡ true
      → read_strict names (write_struct fields)
        ≡ (if all_known names (present fields) then some (written fields) else none)
  unfolding read_strict as_object strict_fields
  read_strict_lem names fields u =
      ap (λ s. as_object s >>= strict_fields names)
        (value.view-build (Shape.object (present fields)))
      ∙ ap (λ f. if all_known names (present fields) then some f else none)
          (fun_ext (λ k. get-present fields k u))

  read_version_lem : (v : Version) → read_version {V = V} (write_version v) ≡ some v
  unfolding read_version visit_str list_beq
  read_version_lem version = rw (read_string_lem V (codes "2.0"))

  read_i64_string : (s : Text) → read_i64 {V = V} (write_string s) ≡ none
  unfolding read_i64 as_i64
  read_i64_string s = ap as_i64 (value.view-build (Shape.string s))

  read_id_lem : (id : RequestId) → IdFits id → read_id {V = V} (write_id id) ≡ some id
  unfolding read_id
  read_id_lem (number n) h = rw (read_id, read_i64_lem V n h)
  read_id_lem (string s) h = rw (read_id, read_i64_string s, read_string_lem V s)

  error_known :
      (code message : V) (details : Option V)
      → all_known error_names (
          present (
            (codes "code", some code)
            ∷ (codes "message", some message)
            ∷ (codes "data", details)
            ∷ []))
        ≡ true
  unfolding all_known present HashSet.contains list_beq
  error_known code message none = refl
  error_known code message (some v) = refl

  error_unique : (e : RpcError V) → HashMap.unique (error_fields e) ≡ true
  unfolding HashMap.unique HashMap.contains_key list_beq
  error_unique e = refl

  read_error_lem :
      (e : RpcError V)
      → Fits e.code
      → is_solid e.details ≡ true
      → read_error (write_struct (error_fields e)) ≡ some e
  unfolding read_error required HashMap.get list_beq
  read_error_lem e h solid = rw (
    read_strict_lem error_names (error_fields e) (error_unique e),
    error_known (write_i64 e.code) (write_string e.message) e.details,
    read_i64_lem V e.code h,
    read_string_lem V e.message,
    optional_solid V e.details solid,
  )

  request_read :
      (req : Request V)
      → IdFits req.id
      → read_request (write_struct (request_fields req)) ≡ some req
  unfolding read_request required or_default all_known present HashSet.contains HashMap.unique
      HashMap.contains_key HashMap.get list_beq
  request_read req h = rw (
    read_strict_lem request_names (request_fields req) refl,
    read_version_lem req.jsonrpc,
    read_string_lem V req.method,
    read_id_lem req.id h,
  )

  notification_read :
      (notif : Notification V)
      → (read_request (write_struct (notification_fields notif)) ≡ none)
        × (read_notification (write_struct (notification_fields notif)) ≡ some notif)
  unfolding read_request read_notification required or_default all_known present HashSet.contains
      HashMap.unique HashMap.contains_key HashMap.get list_beq
  notification_read notif = (
    rw (
      read_strict_lem request_names (notification_fields notif) refl,
      read_version_lem notif.jsonrpc,
      read_string_lem V notif.method,
    ),
    rw (
      read_strict_lem notification_names (notification_fields notif) refl,
      read_version_lem notif.jsonrpc,
      read_string_lem V notif.method,
    ),
  )

  error_read :
      (res : ResponseError V)
      → IsSendable (response_error res)
      → (read_request (write_struct (response_error_fields res)) ≡ none)
        × (read_notification (write_struct (response_error_fields res)) ≡ none)
        × (read_response_error (write_struct (response_error_fields res)) ≡ some res)
  unfolding read_request read_notification read_response_error required or_default all_known present
      HashSet.contains HashMap.unique HashMap.contains_key HashMap.get list_beq
  error_read res h = (
    rw (read_strict_lem request_names (response_error_fields res) refl),
    rw (read_strict_lem notification_names (response_error_fields res) refl),
    rw (
      read_strict_lem error_response_names (response_error_fields res) refl,
      read_version_lem res.jsonrpc,
      read_error_lem res.error h.1 h.2,
      read_id_lem res.id h.0,
    ),
  )

  success_read :
      (res : ResponseSuccess V)
      → IdFits res.id
      → (read_request (write_struct (response_success_fields res)) ≡ none)
        × (read_notification (write_struct (response_success_fields res)) ≡ none)
        × (read_response_error (write_struct (response_success_fields res)) ≡ none)
        × (read_response_success (write_struct (response_success_fields res)) ≡ some res)
  unfolding read_request read_notification read_response_error read_response_success required
      or_default all_known present HashSet.contains HashMap.unique HashMap.contains_key HashMap.get
      list_beq
  success_read res h = (
    rw (read_strict_lem request_names (response_success_fields res) refl),
    rw (read_strict_lem notification_names (response_success_fields res) refl),
    rw (read_strict_lem error_response_names (response_success_fields res) refl),
    rw (
      read_strict_lem success_names (response_success_fields res) refl,
      read_version_lem res.jsonrpc,
      read_id_lem res.id h,
    ),
  )

  -- A message that is written is read back as it was, and not as one of another kind, although the
  -- kind is not written: as long as its id, and an error's code, fit an `i64` if they are numbers,
  -- and an error's data is not `null`.
  pub read_message-write_message :
      (m : Message V) → IsSendable m → read_message (write_message m) ≡ some m
  unfolding read_message
  read_message-write_message (request req) h = rw (read_message, request_read req h)
  read_message-write_message (notification notif) h =
      let (a, b) = notification_read notif in rw (read_message, a, b)
  read_message-write_message (response_error res) h =
      let (a, b, c) = error_read res h in rw (read_message, a, b, c)
  read_message-write_message (response_success res) h =
      let (a, b, c, d) = success_read res h in rw (read_message, a, b, c, d)
