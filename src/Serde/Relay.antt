-- ===== src/Serde/Relay.antt =====
-- What was read of a peer can be written for the next one.
use mathlib.Core.Option.{some-injective}
use ra_multiplex.Base.{
  codes, Option, none, some, true, list_eq, nat_eq, ◌≡◌, Option-cases, Bool-cases, inl, inr, subst,
  arith, leb,
}
use ra_multiplex.Base.Int.{ℤ, pos, negsuc}
use ra_multiplex.Base.Try.{bind-some}
use ra_multiplex.Str.Decimal.{i64_max}
use ra_multiplex.Str.Decimal.RoundTrip.{Fits}
use ra_multiplex.Lsp.Jsonrpc.{
  RequestId, number, string, RpcError, Request, ResponseError, ResponseSuccess, Message, request,
  notification, response_error, response_success,
}
use ra_multiplex.Lsp.Ext.TagLaws.{IdFits}
use ra_multiplex.Serde.{
  Value, Shape, required, optional, or_default, read_string, read_i64, as_i64, is_solid,
}
use ra_multiplex.Serde.Messages.{
  error_names, request_names, error_response_names, success_names, read_strict, read_version,
  read_id, read_error, read_request, read_notification, read_response_error, read_response_success,
  write_message, read_message,
}
use ra_multiplex.Serde.MessageLaws.{IsSendable, read_message-write_message}
use ra_multiplex.Serde.Readable.{optional-is_solid}

module _ {V : Type 0} ⦃value : Value V⦄ where
  as_i64-Fits : (s : Shape V) (n : ℤ) → as_i64 s ≡ some n → Fits n
  unfolding as_i64
  as_i64-Fits (Shape.number (pos k)) n h = elim (Bool-cases (leb k i64_max)) [
    | inl e ↦ subst Fits (some-injective (pos k) n (ground arith)) (ground arith)
    | inr e ↦ ground arith
  ]
  as_i64-Fits (Shape.number (negsuc k)) n h = elim (Bool-cases (leb k i64_max)) [
    | inl e ↦ subst Fits (some-injective (negsuc k) n (ground arith)) (ground arith)
    | inr e ↦ ground arith
  ]
  as_i64-Fits Shape.null n h = cc
  as_i64-Fits (Shape.boolean b) n h = cc
  as_i64-Fits (Shape.float t) n h = cc
  as_i64-Fits (Shape.string t) n h = cc
  as_i64-Fits (Shape.array vs) n h = cc
  as_i64-Fits (Shape.object es) n h = cc

  read_i64-Fits : (v : V) (n : ℤ) → read_i64 v ≡ some n → Fits n
  unfolding read_i64
  read_i64-Fits v n h = as_i64-Fits (value.view v) n h

  read_id-IdFits : (v : V) (id : RequestId) → read_id v ≡ some id → IdFits id
  unfolding read_id
  read_id-IdFits v id h = elim (Option-cases (read_i64 v)) [
    | inl e ↦ elim (Option-cases (read_string v)) [
      | inl f ↦ ground arith
      | inr (s, f) ↦ subst IdFits (some-injective (string s) id (ground arith)) tt
    ]
    | inr (n, e) ↦ subst IdFits (some-injective (number n) id (ground arith)) (read_i64-Fits v n e)
  ]

  required-some :
      {A : Type 0} (read : V → Option A) (o : Option V) (a : A)
      → required read o ≡ some a
      → (v : V) × (read v ≡ some a)
  unfolding required
  required-some read none a h = ground arith
  required-some read (some v) a h = (v, h)

  id-IdFits : (o : Option V) (id : RequestId) → required read_id o ≡ some id → IdFits id
  id-IdFits o id h = let (v, r) = required-some read_id o id h in read_id-IdFits v id r

  read_request-IdFits : (v : V) (req : Request V) → read_request v ≡ some req → IdFits req.id
  unfolding read_request
  read_request-IdFits v req h =
      let (field, e, h1) = bind-some (read_strict request_names v) _ req h in
      let (jsonrpc, e1, h2) =
        bind-some (required read_version (field (codes "jsonrpc"))) _ req h1 in
      let (method, e2, h3) = bind-some (required read_string (field (codes "method"))) _ req h2 in
      let (params, e3, h4) =
        bind-some (or_default some (value.build Shape.null) (field (codes "params"))) _ req h3 in
      let (id, e4, h5) = bind-some (required read_id (field (codes "id"))) _ req h4 in
      subst (λ (r : Request V). IdFits r.id) (some-injective _ _ h5)
        (id-IdFits (field (codes "id")) id e4)

  read_response_success-IdFits :
      (v : V) (res : ResponseSuccess V) → read_response_success v ≡ some res → IdFits res.id
  unfolding read_response_success
  read_response_success-IdFits v res h =
      let (field, e, h1) = bind-some (read_strict success_names v) _ res h in
      let (jsonrpc, e1, h2) =
        bind-some (required read_version (field (codes "jsonrpc"))) _ res h1 in
      let (result, e2, h3) =
        bind-some (or_default some (value.build Shape.null) (field (codes "result"))) _ res h2 in
      let (id, e3, h4) = bind-some (required read_id (field (codes "id"))) _ res h3 in
      subst (λ (r : ResponseSuccess V). IdFits r.id) (some-injective _ _ h4)
        (id-IdFits (field (codes "id")) id e3)

  abbrev IsErrorSendable : RpcError V → Type 0
  IsErrorSendable e = Fits e.code × (is_solid e.details ≡ true)

  read_error-IsErrorSendable :
      (v : V) (err : RpcError V) → read_error v ≡ some err → IsErrorSendable err
  unfolding read_error
  read_error-IsErrorSendable v err h =
      let (field, e, h1) = bind-some (read_strict error_names v) _ err h in
      let (code, e1, h2) = bind-some (required read_i64 (field (codes "code"))) _ err h1 in
      let (message, e2, h3) = bind-some (required read_string (field (codes "message"))) _ err h2 in
      let (details, e3, h4) = bind-some (optional some (field (codes "data"))) _ err h3 in
      let (w, r) = required-some read_i64 (field (codes "code")) code e1 in
      subst IsErrorSendable (some-injective _ _ h4)
        (read_i64-Fits w code r, optional-is_solid (field (codes "data")) details e3)

  read_response_error-IsSendable :
      (v : V) (res : ResponseError V)
      → read_response_error v ≡ some res
      → IsSendable (response_error res)
  unfolding read_response_error
  read_response_error-IsSendable v res h =
      let (field, e, h1) = bind-some (read_strict error_response_names v) _ res h in
      let (jsonrpc, e1, h2) =
        bind-some (required read_version (field (codes "jsonrpc"))) _ res h1 in
      let (err, e2, h3) = bind-some (required read_error (field (codes "error"))) _ res h2 in
      let (id, e3, h4) = bind-some (required read_id (field (codes "id"))) _ res h3 in
      let (w, r) = required-some read_error (field (codes "error")) err e2 in
      let (fits, solid) = read_error-IsErrorSendable w err r in
      subst (λ (s : ResponseError V). IsSendable (response_error s)) (some-injective _ _ h4)
        (id-IdFits (field (codes "id")) id e3, fits, solid)

  -- What was read can be sent on.
  pub read_message-IsSendable : (v : V) (m : Message V) → read_message v ≡ some m → IsSendable m
  unfolding read_message
  read_message-IsSendable v m h = elim (Option-cases (read_request v)) [
    | inr (req, e) ↦
        subst IsSendable (some-injective (request req) m (ground arith))
          (read_request-IdFits v req e)
    | inl e ↦ elim (Option-cases (read_notification v)) [
      | inr (notif, f) ↦ subst IsSendable (some-injective (notification notif) m (ground arith)) tt
      | inl f ↦ elim (Option-cases (read_response_error v)) [
        | inr (res, g) ↦
            subst IsSendable (some-injective (response_error res) m (ground arith))
              (read_response_error-IsSendable v res g)
        | inl g ↦ elim (Option-cases (read_response_success v)) [
          | inl k ↦ ground arith
          | inr (res, k) ↦
              subst IsSendable (some-injective (response_success res) m (ground arith))
                (read_response_success-IdFits v res k)
        ]
      ]
    ]
  ]

  -- A message that was read of one peer is read as the same message by the next peer, to which it is
  -- written: whatever its kind, its id, its error or its parameters.
  pub relayed :
      (v : V) (m : Message V) → read_message v ≡ some m → read_message (write_message m) ≡ some m
  relayed v m h = read_message-write_message V m (read_message-IsSendable v m h)
