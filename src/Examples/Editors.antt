-- ===== src/Examples/Editors.antt =====
-- An editor whose language server sends two notifications, with an unreadable message between them.
use ra_multiplex.Base.{Text, List, [], ◌∷◌, true, nat_eq, list_eq, ◌≡◌, refl, Error}
use ra_multiplex.Base.HashMap
use ra_multiplex.Lsp.Transport.{write_message}
use ra_multiplex.Lsp.Transport.Messages.{read_many, received}
use ra_multiplex.Effect.{client_messages}
use ra_multiplex.Instance.Stdout.{handle_server_message, broadcast}
use ra_multiplex.Instance.Task.{Received, message, closed, failure, stdout_task}
use ra_multiplex.Tasks.{input_task}
use ra_multiplex.Session.Notifications.{before_close, notifications}
use ra_multiplex.Serde.Wire.{message_json}
use ra_multiplex.Serde.Editor.{editor_notified}
use ra_multiplex.Examples.Printing.{printer, note, notes, note-IsWritable}
use ra_multiplex.Examples.Requests.{shared_IsOrdered}
use ra_multiplex.Examples.Trees.{Tree, trees}
use ra_multiplex.Examples.Wire.{bytes_io, content, bytes_deliver, list_io, list_io-Keeps}
use ra_multiplex.Examples.World.{value_json, shared_instance, client}

abbrev stream : List (Received Tree)
stream = message note ∷ failure Error.invalid_body ∷ message note ∷ closed ∷ message note ∷ []

handed_over : notes ≡ client_messages 2 (stdout_task shared_instance stream).sent
unfolding client_messages stdout_task handle_server_message broadcast
handed_over = refl

input_written : (input_task list_io (message_json printer) notes []).unwritten ≡ []
unfolding input_task write_message list_io
input_written = refl

editor_there : HashMap.contains_key 2 shared_instance.clients ≡ true
unfolding HashMap.contains_key
editor_there = refl

editor_notified_example :
    (r' : Text) × (read_many bytes_io (message_json printer) 2 (record {
      reader = (input_task list_io (message_json printer) notes []).stream;
      batch = [];
    })
      ≡ (received bytes_io (message_json printer) notes, record { reader = r'; batch = [] }))
    × (content r' ≡ [])
    × (notifications notes ≡ notifications (before_close stream))
editor_notified_example =
    editor_notified Tree printer list_io content bytes_io content shared_instance (client 2) stream
      notes [] (input_task list_io (message_json printer) notes []).stream editor_there
      shared_IsOrdered handed_over list_io-Keeps bytes_deliver
      (note-IsWritable, (note-IsWritable, tt)) input_written refl refl
