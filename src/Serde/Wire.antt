-- ===== src/Serde/Wire.antt =====
-- src/lsp/transport.rs over serde_json: messages as text. How a `Value` is printed and parsed is
-- serde_json's, and a parameter.
use ra_multiplex.Base.{
  ◌≤◌, Text, codes, List, [], ◌∷◌, Option, some, true, false, ◌≡◌, ap, ◌∙◌, All, length,
}
use ra_multiplex.Base.Try.{◌>>=◌}
use ra_multiplex.Str.{starts_with}
use ra_multiplex.Str.Utf8.{is_utf8}
use ra_multiplex.Str.Decimal.{usize_max}
use ra_multiplex.Io.{AsyncBufRead, AsyncWrite}
use ra_multiplex.Lsp.Jsonrpc.{Message}
use ra_multiplex.Lsp.Transport.{MessageJson}
use ra_multiplex.Lsp.Transport.Framing.{Delivers}
use ra_multiplex.Lsp.Transport.Messages.{IsCarried, Keeps, read_many, received}
use ra_multiplex.Tasks.{stdin_task}
use ra_multiplex.Tasks.Delivery.{stdin_task-read_many}
use ra_multiplex.Serde.{Value, read_list}
use ra_multiplex.Serde.Messages.{write_message, read_message}
use ra_multiplex.Serde.MessageLaws.{IsSendable, read_message-write_message}

-- serde_json's text: `to_string` and `from_str` at `Value`.
pub record Printer (V : Type 0) : Type 0 where
  pub print : V → Text
  pub parse : Text → Option V

-- A value that is printed as UTF-8, not as an array, no longer than a `usize` can say, and parsed
-- back.
pub record IsPrinted {V : Type 0} (printer : Printer V) (v : V) : Type 0 where
  pub utf8 : is_utf8 (printer.print v) ≡ true
  pub no_array : starts_with (codes "[") (printer.print v) ≡ false
  pub parses : printer.parse (printer.print v) ≡ some v
  pub fits : length (printer.print v) ≤ usize_max

module _ {V : Type 0} ⦃value : Value V⦄ where
  abbrev pub message_json : Printer V → MessageJson V
  message_json printer = record {
    to_writer = λ m. printer.print (write_message m);
    from_str = λ s. printer.parse s >>= read_message;
    batch_from_str = λ s. printer.parse s >>= read_list read_message;
  }

  -- A message that can be sent, and whose value can be printed.
  abbrev pub IsWritable : Printer V → Message V → Type 0
  IsWritable printer m = IsSendable m × IsPrinted printer (write_message m)

module _ (V : Type 0) ⦃value : Value V⦄ (printer : Printer V) where
  pub message-IsCarried :
      (m : Message V) → IsWritable printer m → IsCarried (message_json printer) m
  message-IsCarried m (sendable, p) = record {
    utf8 = p.utf8;
    no_array = p.no_array;
    round_trip = ap (λ o. o >>= read_message) p.parses ∙ read_message-write_message V m sendable;
    fits = p.fits;
  }

  messages-IsCarried :
      (ms : List (Message V))
      → All (IsWritable printer) ms
      → All (IsCarried (message_json printer)) ms
  messages-IsCarried [] h = tt
  messages-IsCarried (m ∷ ms) h = (message-IsCarried m h.0, messages-IsCarried ms h.1)

  -- Over serde_json, if the task of a language server's stdin ends with nothing unwritten, then
  -- `read_message` reads from the other end of the pipe exactly the messages that the channel brought,
  -- each as one of its own kind, and nothing else. It is assumed that each can be sent, that
  -- serde_json parses what it printed of these messages, and that the pipe carries bytes in order.
  pub messages_delivered :
      {W R : Type 0} (io : AsyncWrite W) (written : W → Text) (input : AsyncBufRead R)
      (content : R → Text) (ms : List (Message V)) (w : W) (r : R)
      → Keeps io written
      → Delivers input content
      → All (IsWritable printer) ms
      → (stdin_task io (message_json printer) ms w).unwritten ≡ []
      → written w ≡ []
      → content r ≡ written (stdin_task io (message_json printer) ms w).stream
      → (r' : R) × (read_many input
            (message_json printer)
            (length ms)
            (record { reader = r; batch = [] })
          ≡ (received input (message_json printer) ms, record { reader = r'; batch = [] }))
        × (content r' ≡ [])
  messages_delivered io written input content ms w r k d writable none_left empty same =
      stdin_task-read_many io written input content (message_json printer) ms w r k d
        (messages-IsCarried ms writable) none_left empty same
