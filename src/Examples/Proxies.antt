-- ===== src/Examples/Proxies.antt =====
-- A proxy whose editor sends a batch, over Unix streams that are lists of bytes.
use ra_multiplex.Base.{
  ◌==◌, if◌then◌else◌, Option, true, Text, codes, [], ◌∷◌, ◌++◌, none, some, ◌≡◌, refl, ◌⊎◌, ok,
  err, Error, list_eq, nat_eq, list_beq, arith,
}
use ra_multiplex.Base.HashMap
use ra_multiplex.Base.BTreeSet
use ra_multiplex.Io.{IoResult, done, failed, broken_pipe, other}
use ra_multiplex.Str.{starts_with}
use ra_multiplex.Str.Utf8.{is_utf8}
use ra_multiplex.Config.{Address, Config, default}
use ra_multiplex.Lsp.Ext.{Method}
use ra_multiplex.Lsp.Jsonrpc.{Message, Request, request, version, RequestId}
use ra_multiplex.Lsp.Transport.{MessageJson}
use ra_multiplex.Lsp.Transport.Framing.{frame}
use ra_multiplex.Lsp.Transport.Messages.{IsCarried, Keeps}
use ra_multiplex.Lsp.Transport.Queue.{Parcel, batch, IsParcel}
use ra_multiplex.Socket
use ra_multiplex.Socket.{Network, Stream, Variant, tcp, unix}
use ra_multiplex.Proxy.{passed, options_or_default, patch}
use ra_multiplex.Proxy.Environment.{passed_environment}
use ra_multiplex.Proxy.Handover.{patched, without_section}
use ra_multiplex.Proxy.Run.{Process, Pipes, Ended, connect_method, run}
use ra_multiplex.Proxy.Relaying.{Copies, Receives, Arrives, run-Arrives}
use ra_multiplex.Serde.{
  present, is_null, read_struct, as_object, as_string, optional, or_default, read_string,
}
use ra_multiplex.Serde.Codecs.{params_IsReadBack}
use ra_multiplex.Serde.Peers.{patch-IsReadable}
use ra_multiplex.Serde.Messages.{write_message}
use ra_multiplex.Serde.Params.{read_params, take_params}
use ra_multiplex.Serde.Readable.{read_params-IsReadable}
use ra_multiplex.Serde.Wire.{message_json, IsPrinted, message-IsCarried}
use ra_multiplex.Examples.Trees.{Tree, trees}
use ra_multiplex.Examples.Peers.{initialize_params, read_hello}
use ra_multiplex.Examples.World.{value_json}
use ra_multiplex.Examples.Printing.{printer, note}
use ra_multiplex.Examples.Wire.{bytes_io, content, bytes_deliver}
use ra_multiplex.Examples.Sockets.{one_host, left_over}

abbrev host : Network
host = record one_host { unix_connect = λ path w. (done [], w) }

abbrev sent : Stream host → Text
sent (tcp n) = []
sent (unix s) = s

abbrev write_bytes : Text → Stream host → IoResult (Unit {0}) × Stream host
write_bytes bytes (tcp n) = (failed broken_pipe, tcp n)
write_bytes bytes (unix s) = (done tt, unix (s ++ bytes))

abbrev copy_all : Stream host → Text → IoResult (Unit {0}) × Stream host × Text
copy_all (tcp n) d = (failed broken_pipe, tcp n, d)
copy_all (unix s) d = (done tt, unix (s ++ d), [])

abbrev pipes : Pipes (Stream host) Text
pipes = record {
  from_editor = bytes_io;
  to_server = record { write_all = write_bytes; flush = λ s. (done tt, s) };
  copy_bidirectional = copy_all;
}

write_bytes_lem :
    (bytes : Text) (s s' : Stream host)
    → write_bytes bytes s ≡ (done tt, s')
    → sent s' ≡ sent s ++ bytes
write_bytes_lem bytes (tcp n) s' e = ground arith
write_bytes_lem bytes (unix s) s' e = ground arith

copy_all_lem :
    (s s' : Stream host) (d d' : Text)
    → copy_all s d ≡ (done tt, s', d')
    → sent s' ≡ sent s ++ content d
copy_all_lem (tcp n) s' d d' e = ground arith
copy_all_lem (unix s) s' d d' e = ground arith

sent-Keeps : Keeps pipes.to_server sent
sent-Keeps = record { write_at = write_bytes_lem; flush_at = λ w w' e. ground arith }

pipes-Copies : Copies pipes content sent
pipes-Copies = record { copies = copy_all_lem }

bytes-Receives : Receives bytes_io content
bytes-Receives = record { delivers = bytes_deliver; opened = λ t. t; holds = λ t. refl }

-- A format whose only batch is `[]`.
abbrev hello : Request Tree
hello = record {
  jsonrpc = version;
  method = codes "initialize";
  params = initialize_params;
  id = RequestId.string (codes "1");
}

abbrev wire : MessageJson Tree
wire = record (message_json printer) { batch_from_str = λ s. some (request hello ∷ note ∷ []) }

abbrev parcel : Parcel Tree
parcel = batch (codes "[]") (request hello) (note ∷ [])

abbrev config : Config
config = record default { connect = Address.unix (codes "/run/mux") }

abbrev process : Process
process = record { current_dir = failed other; var = λ key. none }

abbrev stdin : Text
stdin = frame (codes "[]") ++ codes "more"

abbrev patched_hello : Message Tree
patched_hello = request (patched (connect_method config (codes "ra") [] process) hello read_hello)

patched_hello-IsPrinted : IsPrinted printer (write_message patched_hello)
unfolding printer is_utf8 starts_with present connect_method patch default
patched_hello-IsPrinted = record { utf8 = refl; no_array = refl; parses = refl; fits = omega arith }

patched_hello-Carried : IsCarried (message_json printer) patched_hello
patched_hello-Carried = message-IsCarried Tree printer patched_hello (tt, patched_hello-IsPrinted)

hello_parses : read_params initialize_params ≡ some read_hello
unfolding read_params take_params read_struct as_object as_string optional or_default is_null
    read_string HashMap.get list_beq
hello_parses = refl

parcel-IsParcel : IsParcel wire parcel
unfolding is_utf8 starts_with
parcel-IsParcel = (omega arith, refl, refl, refl)

connected : Socket.connect host config.connect left_over ≡ (ok (unix []), left_over)
unfolding Socket.connect
connected = refl

abbrev method : Method
method = connect_method config (codes "ra") [] process

-- The note that the batch holds besides the request is lost.
run-Arrives_example :
    (e : Ended (Stream host) Text) × (run host pipes wire config
        (codes "ra")
        []
        process
        stdin
        left_over
      ≡ (ok (some e), left_over))
    × (((e.result ≡ ok tt)
          × Arrives bytes_io content wire
              (sent e.stream)
              (patched method hello read_hello)
              method
              (without_section read_hello)
              (codes "more"))
        ⊎ ((e.result ≡ err Error.write_failed) ⊎ (e.result ≡ err Error.io_error)))
unfolding list_beq options_or_default bytes-Receives
run-Arrives_example =
    run-Arrives host pipes content sent bytes_io content wire config (codes "ra") [] process stdin
      left_over left_over (unix []) parcel hello read_hello (codes "more") bytes_deliver sent-Keeps
      pipes-Copies bytes-Receives connected refl parcel-IsParcel refl refl refl hello_parses refl
      (params_IsReadBack Tree (patch method read_hello) (
        patch-IsReadable Tree method read_hello
          (read_params-IsReadable initialize_params read_hello hello_parses)))
      (record {
        utf8 = patched_hello-Carried.utf8;
        no_array = patched_hello-Carried.no_array;
        round_trip = patched_hello-Carried.round_trip;
        fits = patched_hello-Carried.fits;
      })

abbrev colours : Text → Option Text
colours key = if key == codes "LANG" then some (codes "C") else none

passed_environment_example :
    (HashMap.get (codes "LANG") (passed colours (codes "LANG" ∷ codes "PATH" ∷ []))
      ≡ some (codes "C"))
    × (BTreeSet.ascending (HashMap.keys (passed colours (codes "LANG" ∷ codes "PATH" ∷ []))) ≡ true)
unfolding BTreeSet.ascending BTreeSet.text_lt BTreeSet.contains list_beq
passed_environment_example =
    passed_environment colours (codes "LANG" ∷ codes "PATH" ∷ []) (codes "LANG") refl
