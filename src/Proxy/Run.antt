-- ===== src/Proxy/Run.antt =====
-- src/proxy.rs, `run`: from the connection to the server up to the copying of bytes. tokio's streams
-- and its copying are a parameter, and a call of a stream returns the stream's next state.
use mathlib.Core.Option
use ra_multiplex.Base.{Text, List, Option, none, Outcome, ok, err, panic, Error}
use ra_multiplex.Io.{IoResult, done, failed, AsyncBufRead, AsyncWrite}
use ra_multiplex.Config.{Config}
use ra_multiplex.Lsp.Json.{Json}
use ra_multiplex.Lsp.Jsonrpc.{Message}
use ra_multiplex.Lsp.Ext.{Method, connect}
use ra_multiplex.Lsp.Transport.{MessageJson, LspReader, read_message, write_message, new}
use ra_multiplex.Socket
use ra_multiplex.Socket.{Network, Stream}
use ra_multiplex.Proxy.{passed, forwarded_request}

-- What the process got from the system that started it; a directory is known by its `to_str`.
pub record Process : Type 0 where
  pub current_dir : IoResult (Option Text)
  pub var : Text → Option Text

unfoldable pub working_directory : IoResult (Option Text) → Option Text
working_directory (done path) = path
working_directory (failed kind) = none

-- The method that the proxy asks the server for.
unfoldable pub connect_method : Config → Text → List Text → Process → Method
unfolding working_directory passed
connect_method config server args process =
    connect server args (passed process.var config.pass_environment)
      (working_directory process.current_dir)

-- tokio's buffered standard input and output, the stream to the server, and the copying between.
pub record Pipes (S D : Type 0) : Type 0 where
  pub from_editor : AsyncBufRead D
  pub to_server : AsyncWrite S
  pub copy_bidirectional : S → D → IoResult (Unit {0}) × S × D

-- How the proxy ends, and how it leaves its two streams.
pub record Ended (S D : Type 0) : Type 0 where
  pub result : Outcome (Unit {0})
  pub stream : S
  pub stdio : D

module _ {S D V : Type 0} (pipes : Pipes S D) (wire : MessageJson V) where
  unfoldable pub copied : IoResult (Unit {0}) × S × D → Ended S D
  copied (done u, stream, stdio) = record { result = ok u; stream = stream; stdio = stdio }
  copied (failed kind, stream, stdio) = record {
    result = err Error.io_error;
    stream = stream;
    stdio = stdio;
  }

  -- What the writing of the first message came to.
  unfoldable pub copy_on : IoResult (Unit {0}) × S → D → Ended S D
  unfolding copied
  copy_on (done u, stream) stdio = copied (pipes.copy_bidirectional stream stdio)
  copy_on (failed kind, stream) stdio = record {
    result = err Error.write_failed;
    stream = stream;
    stdio = stdio;
  }

  unfoldable pub forward : Outcome (Message V) → S → D → Ended S D
  unfolding copy_on write_message
  forward (ok message) stream stdio =
      copy_on (write_message pipes.to_server wire message stream) stdio
  forward (err e) stream stdio = record { result = err e; stream = stream; stdio = stdio }
  forward panic stream stdio = record { result = panic; stream = stream; stdio = stdio }

  module _ ⦃json : Json V⦄ where
    -- Behind the connection. The reader and what it holds of a batch are gone after one message.
    unfoldable pub relay : Method → S → D → Option (Ended S D)
    unfolding new read_message forwarded_request forward
    relay method stream stdio =
        Option.map
          (λ (r : Outcome (Option (Message V)) × LspReader D V).
            forward (forwarded_request method r.0) stream r.1.reader)
          (read_message pipes.from_editor wire (new pipes.from_editor wire stdio))

module _ (net : Network) {D V : Type 0} (pipes : Pipes (Stream net) D) (wire : MessageJson V)
    ⦃json : Json V⦄ where
  -- Without a connection there is an error and nothing is read. `none` for the end means that
  -- `read_header` ran out of fuel, which it never does.
  abbrev pub RunResult : Type 0
  RunResult = Outcome (Option (Ended (Stream net) D)) × net.World

  abbrev on_connection : Method → D → Outcome (Stream net) × net.World → RunResult
  on_connection method stdio (ok stream, w) = (ok (relay pipes wire method stream stdio), w)
  on_connection method stdio (err e, w) = (err e, w)
  on_connection method stdio (panic, w) = (panic, w)

  unfoldable pub run : Config → Text → List Text → Process → D → net.World → RunResult
  unfolding Socket.connect relay connect_method
  run config server args process stdio w =
      on_connection (connect_method config server args process) stdio
        (Socket.connect net config.connect w)
