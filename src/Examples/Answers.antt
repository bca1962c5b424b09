-- ===== src/Examples/Answers.antt =====
-- The status command on a connection whose other end has answered.
use ra_multiplex.Base.{
  Text, codes, List, [], ◌++◌, some, false, Outcome, ok, err, Error, list_eq, nat_eq, ◌≡◌, ◌⊎◌,
  refl, arith, All,
}
use ra_multiplex.Base.HashMap
use ra_multiplex.Base.Int.{pos}
use ra_multiplex.Io.{IoResult, done, failed, broken_pipe}
use ra_multiplex.Str.{starts_with}
use ra_multiplex.Str.Utf8.{is_utf8}
use ra_multiplex.Config.{Address, Config, default}
use ra_multiplex.Instance.{instance_status}
use ra_multiplex.Lsp.Ext.{status}
use ra_multiplex.Lsp.Transport.Framing.{frame}
use ra_multiplex.Lsp.Transport.Messages.{IsCarried, Keeps}
use ra_multiplex.Client.Connect.{status_reply}
use ra_multiplex.Commands.{command_request}
use ra_multiplex.Commands.Run.{Link, Debug, run_status, print_status, exchange}
use ra_multiplex.Commands.Exchange.{run_status_prints}
use ra_multiplex.Registry.{get_status, instances}
use ra_multiplex.Serde.{present}
use ra_multiplex.Serde.Codecs.{status_IsReadBack}
use ra_multiplex.Serde.Messages.{write_message}
use ra_multiplex.Serde.Status.{IsInRange}
use ra_multiplex.Serde.Wire.{message_json, IsPrinted, message-IsCarried}
use ra_multiplex.Socket
use ra_multiplex.Socket.{Network, Stream, OwnedReadHalf, OwnedWriteHalf, into_split, tcp, unix}
use ra_multiplex.Examples.Trees.{Tree, trees}
use ra_multiplex.Examples.Printing.{printer}
use ra_multiplex.Examples.Registries.{one_child}
use ra_multiplex.Examples.Sockets.{one_host, left_over}
use ra_multiplex.Examples.Wire.{bytes_io, content, bytes_deliver}
use ra_multiplex.Examples.World.{value_json}

status_reply-IsPrinted : IsPrinted printer (write_message (status_reply one_child))
unfolding printer is_utf8 starts_with present status_reply get_status instances instance_status
    HashMap.get
status_reply-IsPrinted = record { utf8 = refl; no_array = refl; parses = refl; fits = omega arith }

status_reply-IsCarried : IsCarried (message_json printer) (status_reply one_child)
unfolding status_reply
status_reply-IsCarried =
    message-IsCarried Tree printer (status_reply one_child) (omega arith, status_reply-IsPrinted)

-- The server has written its answer before the command asks.
abbrev answer : Text
answer = frame (printer.print (write_message (status_reply one_child))) ++ codes "x"

abbrev host : Network
host = record one_host { unix_connect = λ path w. (done answer, w); unix_split = λ s. (s, []) }

abbrev held : OwnedReadHalf host → Text
held (tcp n) = []
held (unix s) = s

abbrev sent : OwnedWriteHalf host → Text
sent (tcp n) = []
sent (unix s) = s

abbrev write_bytes : Text → OwnedWriteHalf host → IoResult (Unit {0}) × OwnedWriteHalf host
write_bytes bytes (tcp n) = (failed broken_pipe, tcp n)
write_bytes bytes (unix s) = (done tt, unix (s ++ bytes))

abbrev link : Link host Text
link = record {
  buffered = held;
  reads = bytes_io;
  writes = record { write_all = write_bytes; flush = λ s. (done tt, s) };
}

write_bytes_lem :
    (bytes : Text) (s s' : OwnedWriteHalf host)
    → write_bytes bytes s ≡ (done tt, s')
    → sent s' ≡ sent s ++ bytes
write_bytes_lem bytes (tcp n) s' e = ground arith
write_bytes_lem bytes (unix s) s' e = ground arith

sent-Keeps : Keeps link.writes sent
sent-Keeps = record { write_at = write_bytes_lem; flush_at = λ w w' e. ground arith }

in_range : All IsInRange (get_status one_child).instances
unfolding get_status instances instance_status HashMap.get
in_range = ((omega arith, omega arith), tt)

abbrev config : Config
config = record default { connect = Address.unix (codes "/run/mux") }

connected : Socket.connect host config.connect left_over ≡ (ok (unix answer), left_over)
unfolding Socket.connect
connected = refl

abbrev debug : Debug
debug = record { text = λ s. s; list = λ ss. [] }

run_status_prints_example :
    (o : Outcome (List Text)) × (run_status debug host link
        (message_json printer)
        (λ s. codes "{}")
        (λ n. pos n)
        config
        false
        left_over
      ≡ (some o, left_over))
    × ((o ≡ err Error.write_failed)
        ⊎ ((o ≡ ok (print_status debug (λ s. codes "{}") (λ n. pos n) false (get_status one_child)))
            × (sent
                  (exchange host link
                    (message_json printer)
                    value_json.status_response.from_value
                    status
                    (unix answer)).1
                ≡ frame (printer.print (write_message (command_request status))))))
unfolding into_split
run_status_prints_example =
    run_status_prints host link content sent (message_json printer) debug (λ s. codes "{}")
      (λ n. pos n) config false left_over left_over (unix answer) one_child (codes "x")
      bytes_deliver sent-Keeps status_reply-IsCarried
      (status_IsReadBack Tree (get_status one_child) in_range) connected refl
