-- ===== src/Tasks.antt =====
-- src/instance.rs and src/client.rs: the tasks that write what a channel brings to a language server
-- or to a client.
pub mod Delivery
use ra_multiplex.Base.{ℕ, Text, List, [], ◌∷◌, Option, none, some}
use ra_multiplex.Io.{
  ErrorKind, broken_pipe, connection_reset, connection_aborted, unexpected_eof, not_connected,
  not_found, other, IoResult, done, failed, AsyncWrite,
}
use ra_multiplex.Lsp.Jsonrpc.{Message}
use ra_multiplex.Lsp.Transport.{MessageJson, write_message}

-- How a task ended: the messages that it took from the channel and did not write, the error that it
-- logged, and the stream.
pub record Ended (W V : Type 0) : Type 0 where
  pub unwritten : List (Message V)
  pub logged : Option ErrorKind
  pub stream : W

-- A broken pipe is a closed stream, which is not logged.
unfoldable pub reported : ErrorKind → Option ErrorKind
reported broken_pipe = none
reported connection_reset = some connection_reset
reported connection_aborted = some connection_aborted
reported unexpected_eof = some unexpected_eof
reported not_connected = some not_connected
reported not_found = some not_found
reported other = some other

module _ {W V : Type 0} (io : AsyncWrite W) (json : MessageJson V) where
  -- The loop of both tasks. The list is what the channel brings before it is closed.
  unfoldable pub write_loop : List (Message V) → W → Ended W V
  unfolding reported
  write_loop [] writer = record { unwritten = []; logged = none; stream = writer }
  write_loop (message ∷ receiver) writer =
      let (result, writer') = write_message io json message writer in
      elim result [
        | done u ↦ write_loop receiver writer'
        | failed kind ↦ record {
          unwritten = message ∷ receiver;
          logged = reported kind;
          stream = writer';
        }
      ]

  -- The task of a language server's stdin.
  unfoldable pub stdin_task : List (Message V) → W → Ended W V
  unfolding write_loop
  stdin_task = write_loop

  -- The task of a client's input.
  unfoldable pub input_task : List (Message V) → W → Ended W V
  unfolding write_loop
  input_task = write_loop
