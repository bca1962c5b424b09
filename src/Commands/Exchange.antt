-- ===== src/Commands/Exchange.antt =====
-- A command's request and the server's answer on one connection.
use ra_multiplex.Base.{
  ℕ, Text, List, [], ◌++◌, Option, some, Bool, Outcome, ok, err, Error, ◌≡◌, refl, ◌⊎◌, inl, inr,
}
use ra_multiplex.Base.Int.{ℤ}
use ra_multiplex.Io.{IoResult, done, failed}
use ra_multiplex.Config.{Config}
use ra_multiplex.Lsp.Json.{Json, IsReadBack}
use ra_multiplex.Lsp.Ext.{status, StatusResponse}
use ra_multiplex.Lsp.Transport.{MessageJson, LspReader, write_message, new}
use ra_multiplex.Lsp.Transport.Framing.{Delivers, frame, body_read}
use ra_multiplex.Lsp.Transport.Messages.{IsCarried, Keeps, write_message-frame, parse_body-message}
use ra_multiplex.Client.Connect.{status_reply}
use ra_multiplex.Registry.{Registry, get_status}
use ra_multiplex.Socket
use ra_multiplex.Socket.{Network, Stream, OwnedReadHalf, OwnedWriteHalf, into_split}
use ra_multiplex.Commands.{command_request, status_command}
use ra_multiplex.Commands.Answers.{status_command-status_reply}
use ra_multiplex.Commands.Run.{
  Link, Debug, answered, exchange, request_on, run_status, print_status,
}

module _ (net : Network) {R V : Type 0} (link : Link net R) (content : R → Text)
    (written : OwnedWriteHalf net → Text) (wire : MessageJson V) ⦃json : Json V⦄ where
  -- A status request that could not be written, or one that was, whose answer was read.
  abbrev pub IsAnswered : {A : Type 0} → A → Text → Option (Outcome A) × OwnedWriteHalf net → Type 0
  IsAnswered a sent (result, writer) =
      (result ≡ some (err Error.write_failed)) ⊎ ((result ≡ some (ok a)) × (written writer ≡ sent))

  answered-IsAnswered :
      (self : Registry V) (reader : R) (writer : OwnedWriteHalf net) (rest : Text)
      (res : IoResult (Unit {0}) × OwnedWriteHalf net)
      → Delivers link.reads content
      → Keeps link.writes written
      → IsCarried wire (status_reply self)
      → IsReadBack json.status_response (get_status self)
      → content reader ≡ frame (wire.to_writer (status_reply self)) ++ rest
      → write_message link.writes wire (command_request status) writer ≡ res
      → IsAnswered
          (get_status self)
          (written writer ++ frame (wire.to_writer (command_request status)))
          (answered net link wire json.status_response.from_value reader res)
  unfolding new status_command
  answered-IsAnswered self reader writer rest (failed kind, w') d k carried reads e sent = inl refl
  answered-IsAnswered self reader writer rest (done u, w') d k carried reads e sent =
      let (r, read, left) =
        body_read link.reads content d wire reader (wire.to_writer (status_reply self)) rest
          carried.fits e in
      let next : LspReader R V = record { reader = r; batch = [] } in
      inr (
        rw (
          read,
          parse_body-message link.reads wire next (status_reply self) carried,
          status_command-status_reply self reads,
        ),
        write_message-frame link.writes written wire (command_request status) writer w' k sent,
      )

  pub run_status_prints :
      (debug : Debug) (to_string : StatusResponse → Text) (clock : ℕ → ℤ) (config : Config)
      (as_json : Bool) (w w' : net.World) (stream : Stream net) (self : Registry V) (rest : Text)
      → Delivers link.reads content
      → Keeps link.writes written
      → IsCarried wire (status_reply self)
      → IsReadBack json.status_response (get_status self)
      → Socket.connect net config.connect w ≡ (ok stream, w')
      → content (link.buffered (into_split net stream).0)
        ≡ frame (wire.to_writer (status_reply self)) ++ rest
      → (o : Outcome (List Text)) × (run_status debug net link wire to_string clock config as_json w
          ≡ (some o, w'))
        × ((o ≡ err Error.write_failed)
            ⊎ ((o ≡ ok (print_status debug to_string clock as_json (get_status self)))
                × (written (exchange net link wire json.status_response.from_value status stream).1
                    ≡ written (into_split net stream).1
                      ++ frame (wire.to_writer (command_request status)))))
  unfolding run_status request_on exchange
  run_status_prints debug to_string clock config as_json w w' stream self rest d k carried reads
        connects answer =
      let (reader, writer) = into_split net stream in
      let sent = write_message link.writes wire (command_request status) writer in
      elim (answered-IsAnswered self (link.buffered reader) writer rest sent d k carried reads
        answer refl) [
          | inl fails ↦ (err Error.write_failed, rw (connects, fails), inl refl)
          | inr (well, bytes) ↦ (
            ok (print_status debug to_string clock as_json (get_status self)),
            rw (connects, well),
            inr (refl, bytes),
          )
        ]
