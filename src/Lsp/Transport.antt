-- ===== src/Lsp/Transport.antt =====
-- src/lsp/transport.rs: messages on a stream of bytes. Of `LspReader` the buffer is scratch space
-- and the tag is for the log, so only the reader and the batch are kept.
pub mod Headers
pub mod Termination
pub mod Framing
pub mod Messages
pub mod Queue
use ra_multiplex.Base.{
  ℕ, zero, suc, Text, codes, List, [], ◌∷◌, ◌++◌, Option, none, some, Bool, true, false, ◌==◌,
  nat_eq, list_eq, if◌then◌else◌, Outcome, ok, err, panic, Error, length, reverse, not,
}
use mathlib.Core.Option
use ra_multiplex.Str.{starts_with}
use ra_multiplex.Str.Utf8.{is_utf8}
use ra_multiplex.Str.Decimal.{display_usize}
use ra_multiplex.Lsp.Jsonrpc.{Message}
use ra_multiplex.Io.{
  ErrorKind, connection_reset, connection_aborted, broken_pipe, unexpected_eof, IoResult, done,
  failed, AsyncBufRead, AsyncWrite,
}
use Headers.{Header, read_header, is_closed}

-- A `Vec` is listed from its front; `pop` takes from its back.
unfoldable pub pop {ℓ} : {A : Type ℓ} → List A → Option (A × List A)
pop xs = elim (reverse xs) [ [] ↦ none | x ∷ rest ↦ some (x, reverse rest) ]

-- serde_json on whole messages: `to_writer`, and `from_str` at `Message` and at `Vec<Message>`.
pub record MessageJson (V : Type 0) : Type 0 where
  pub to_writer : Message V → Text
  pub from_str : Text → Option (Message V)
  pub batch_from_str : Text → Option (List (Message V))

pub record LspReader (R V : Type 0) : Type 0 where
  pub reader : R
  pub batch : List (Message V)

module _ {R V : Type 0} (io : AsyncBufRead R) (json : MessageJson V) where
  abbrev pub ReadResult : Type 0
  ReadResult = Option (Outcome (Option (Message V)) × LspReader R V)

  unfoldable pub new : R → LspReader R V
  new r = record { reader = r; batch = [] }

  -- The first message of a batch that was just stored.
  unfoldable pub first_of_batch : LspReader R V → Outcome (Option (Message V)) × LspReader R V
  unfolding pop
  first_of_batch self = elim (pop self.batch) [
    | some (m, rest) ↦ (ok (some m), record self { batch = rest })
    | none ↦ (err Error.empty_batch, self)
  ]

  unfoldable pub parse_body : LspReader R V → Text → Outcome (Option (Message V)) × LspReader R V
  unfolding first_of_batch
  parse_body self body =
      if not (is_utf8 body)
      then (err Error.invalid_utf8, self)
      else if starts_with (codes "[") body
      then (elim (json.batch_from_str body) [
        | some messages ↦ first_of_batch (record self { batch = reverse messages })
        | none ↦ (err Error.invalid_body, self)
      ])
      else (elim (json.from_str body) [
        | some m ↦ (ok (some m), self)
        | none ↦ (err Error.invalid_body, self)
      ])

  -- What `read_exact` brought. A stream that ends within the body is a closed one.
  unfoldable pub take_body :
      List (Message V) → IoResult Text × R → Outcome (Option (Message V)) × LspReader R V
  unfolding parse_body
  take_body batch (done body, r) = parse_body (record { reader = r; batch = batch }) body
  take_body batch (failed unexpected_eof, r) = (ok none, record { reader = r; batch = batch })
  take_body batch (failed kind, r) = (
    (if is_closed kind then ok none else err Error.io_error),
    record { reader = r; batch = batch },
  )

  unfoldable pub after_header :
      List (Message V) → Outcome (Option Header) × R → Outcome (Option (Message V)) × LspReader R V
  unfolding take_body
  after_header batch (ok (some header), r) = take_body batch (io.read_exact header.content_length r)
  after_header batch (ok none, r) = (ok none, record { reader = r; batch = batch })
  after_header batch (err e, r) = (err e, record { reader = r; batch = batch })
  after_header batch (panic, r) = (panic, record { reader = r; batch = batch })

  -- `none` means that `read_header` ran out of fuel, which it never does.
  unfoldable pub read_message : LspReader R V → ReadResult
  unfolding pop after_header read_header
  read_message self = elim (pop self.batch) [
    | some (pending, rest) ↦ some (ok (some pending), record self { batch = rest })
    | none ↦ Option.map (after_header self.batch) (read_header io self.reader)
  ]

-- What `write_message` puts in front of the body.
unfoldable pub content_header : Text → Text
content_header body = codes "Content-Length: " ++ display_usize (length body) ++ codes "\r\n\r\n"

module _ {W V : Type 0} (io : AsyncWrite W) (json : MessageJson V) where
  -- `?` between two writes.
  abbrev then_io : IoResult (Unit {0}) × W → (W → IoResult (Unit {0}) × W) → IoResult (Unit {0}) × W
  then_io (done u, w) next = next w
  then_io (failed kind, w) next = (failed kind, w)

  unfoldable pub write_message : Message V → W → IoResult (Unit {0}) × W
  unfolding content_header
  write_message message w =
      let body = json.to_writer message in
      then_io (io.write_all (content_header body) w) λ w'. then_io (io.write_all body w') io.flush
