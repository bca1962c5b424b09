-- ===== src/Examples/Streams.antt =====
-- The transport on concrete streams.
use ra_multiplex.Base.{
  List, ◌≡◌, ◌≢◌, refl, Text, codes, [], ◌∷◌, ◌++◌, none, some, true, arith, nat_eq, list_eq, ok,
}
use ra_multiplex.Lsp.Jsonrpc.{Message}
use ra_multiplex.Io.{done}
use ra_multiplex.Str.{starts_with}
use ra_multiplex.Str.Utf8.{is_utf8}
use ra_multiplex.Lsp.Transport.{MessageJson, write_message, LspReader}
use ra_multiplex.Lsp.Transport.Headers.{read_header}
use ra_multiplex.Lsp.Transport.Termination.{read_header-ne-none}
use ra_multiplex.Lsp.Transport.Framing.{frame}
use ra_multiplex.Lsp.Transport.Messages.{read_many, received, IsCarried}
use ra_multiplex.Str.{starts_with}
use ra_multiplex.Str.Utf8.{is_utf8}
use ra_multiplex.Lsp.Transport.Queue.{Parcel, batch, single, bytes, Holds, read_message-pop}
use ra_multiplex.Lsp.Transport
use ra_multiplex.Tasks.{stdin_task}
use ra_multiplex.Tasks.Delivery.{Outcomes, stdin_task-Outcomes}
use ra_multiplex.Serde.Wire.{message_json, message-IsCarried, messages_delivered}
use ra_multiplex.Examples.Trees.{Tree, trees}
use ra_multiplex.Examples.Printing.{printer, note, notes, note-IsWritable}
use ra_multiplex.Examples.Wire.{bytes_io, content, bytes_deliver, list_io, list_io-Keeps}

read_header-ne-none_example : read_header bytes_io (codes "Content-Length: 1\r\n\r\nx") ≢ none
read_header-ne-none_example = read_header-ne-none bytes_io (codes "Content-Length: 1\r\n\r\nx")

abbrev wire : MessageJson Tree
wire = message_json printer

note-IsCarried : IsCarried wire note
note-IsCarried = message-IsCarried Tree printer note note-IsWritable

-- A format whose only batch is `[]`, read as two notes.
abbrev batch_json : MessageJson Tree
batch_json = record wire { batch_from_str = λ s. some (note ∷ note ∷ []) }

brackets_utf8 : is_utf8 (codes "[]") ≡ true
unfolding is_utf8
brackets_utf8 = refl

brackets_start : starts_with (codes "[") (codes "[]") ≡ true
unfolding starts_with
brackets_start = refl

note_written : write_message list_io wire note [] ≡ (done tt, frame (wire.to_writer note))
unfolding write_message list_io
note_written = refl

stdin_task-Outcomes_example :
    Outcomes list_io content wire notes [] (stdin_task list_io wire notes [])
stdin_task-Outcomes_example = stdin_task-Outcomes list_io content wire notes [] list_io-Keeps

all_written : (stdin_task list_io wire notes []).unwritten ≡ []
unfolding stdin_task write_message list_io
all_written = refl

messages_delivered_example :
    (r' : Text) × (read_many bytes_io wire 2
        (record { reader = (stdin_task list_io wire notes []).stream; batch = [] })
      ≡ (received bytes_io wire notes, record { reader = r'; batch = [] }))
    × (content r' ≡ [])
messages_delivered_example =
    messages_delivered Tree printer list_io content bytes_io content notes []
      (stdin_task list_io wire notes []).stream list_io-Keeps bytes_deliver
      (note-IsWritable, (note-IsWritable, tt)) all_written refl refl

batch-IsCarried : IsCarried batch_json note
batch-IsCarried = record {
  utf8 = note-IsCarried.utf8;
  no_array = note-IsCarried.no_array;
  round_trip = note-IsCarried.round_trip;
  fits = note-IsCarried.fits;
}

-- A batch, and a message of its own.
abbrev parcels : List (Parcel Tree)
parcels = batch (codes "[]") note (note ∷ []) ∷ single note ∷ []

-- One message of an earlier batch is left.
abbrev reader : LspReader Text Tree
reader = record { reader = bytes batch_json parcels ++ codes "x"; batch = note ∷ [] }

abbrev queue : List (Message Tree)
queue = note ∷ note ∷ note ∷ []

four-Holds : Holds bytes_io content batch_json (codes "x") reader (note ∷ queue)
four-Holds = record {
  parcels = parcels;
  are_parcels = ((omega arith, brackets_utf8, brackets_start, refl), (batch-IsCarried, tt));
  on_stream = refl;
  in_order = refl;
}

read_message-pop_example :
    (self' : LspReader Text Tree) × (Transport.read_message bytes_io batch_json reader
      ≡ some (ok (some note), self'))
    × Holds bytes_io content batch_json (codes "x") self' queue
read_message-pop_example =
    read_message-pop bytes_io content batch_json (codes "x") reader note queue bytes_deliver
      four-Holds
