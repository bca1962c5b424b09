-- ===== src/Serde/Editor.antt =====
-- src/instance.rs and src/client.rs over serde_json: from the language server's stdout to the bytes
-- that an editor gets, through `stdout_task`, the client's channel and `input_task`.
use ra_multiplex.Base.{Text, [], List, true, ◌≡◌, nat_eq, All, length, arith}
use ra_multiplex.Base.HashMap
use ra_multiplex.Io.{AsyncBufRead, AsyncWrite}
use ra_multiplex.Effect.{client_messages}
use ra_multiplex.Instance.{Instance, Client}
use ra_multiplex.Instance.Task.{Received, stdout_task}
use ra_multiplex.Lsp.Jsonrpc.{Message}
use ra_multiplex.Lsp.Transport.Framing.{Delivers}
use ra_multiplex.Lsp.Transport.Messages.{Keeps, read_many, received}
use ra_multiplex.Tasks.{stdin_task, input_task}
use ra_multiplex.Serde.{Value}
use ra_multiplex.Serde.Codecs.{serde_json}
use ra_multiplex.Serde.Wire.{Printer, message_json, IsWritable, messages_delivered}
use ra_multiplex.Session.Invariant.{IsOrdered}
use ra_multiplex.Session.Notifications.{before_close, notifications, told_client-stdout_task}

module _ (V : Type 0) ⦃value : Value V⦄ (printer : Printer V) where
  -- If a client's channel brings what `stdout_task` handed to it, and the client's input task ends
  -- with nothing unwritten, then `read_message` reads at the editor's end exactly these messages
  -- and nothing else, and the notifications among them are exactly those that the language server
  -- sent before its stdout was closed, each once and in their order. The client is connected and
  -- the map of clients is in order, and no other task changes the instance meanwhile; each message
  -- can be written and is parsed back, and the stream carries bytes in order.
  pub editor_notified :
      {W R : Type 0} (io : AsyncWrite W) (written : W → Text) (input : AsyncBufRead R)
      (content : R → Text) (self : Instance V) (c : Client) (rounds : List (Received V))
      (ms : List (Message V)) (w : W) (r : R)
      → HashMap.contains_key c.id self.clients ≡ true
      → IsOrdered self.clients
      → ms ≡ client_messages c.id (stdout_task ⦃json = serde_json⦄ self rounds).sent
      → Keeps io written
      → Delivers input content
      → All (IsWritable printer) ms
      → (input_task io (message_json printer) ms w).unwritten ≡ []
      → written w ≡ []
      → content r ≡ written (input_task io (message_json printer) ms w).stream
      → (r' : R) × (read_many input
            (message_json printer)
            (length ms)
            (record { reader = r; batch = [] })
          ≡ (received input (message_json printer) ms, record { reader = r'; batch = [] }))
        × (content r' ≡ [])
        × (notifications ms ≡ notifications (before_close rounds))
  unfolding input_task stdin_task
  editor_notified io written input content self c rounds ms w r there v brought k d writable
        none_left empty same =
      let (r', reads, end) =
        messages_delivered V printer io written input content ms w r k d writable none_left empty
          same in
      (
        r',
        reads,
        end,
        ground
            (arith, brought, there, told_client-stdout_task ⦃json = serde_json⦄ self c.id rounds v),
      )
