-- ===== src/Proxy/Relaying.antt =====
-- What reaches the server of the bytes that an editor gives to its proxy.
use ra_multiplex.Base.{
  ◌≡◌, refl, ap, subst, sym, ◌∙◌, ◌⊎◌, inl, inr, Text, codes, List, [], ◌++◌, none, some, true,
  ◌==◌, nat_eq, list_eq, ok, err, Error, reverse,
}
use ra_multiplex.Io.{IoResult, done, failed, AsyncBufRead}
use ra_multiplex.Config.{Config}
use ra_multiplex.Lsp.{InitializeParams}
use ra_multiplex.Lsp.Json.{Json, IsReadBack}
use ra_multiplex.Lsp.Jsonrpc.{Message, Request, request}
use ra_multiplex.Lsp.Ext.{Method}
use ra_multiplex.Lsp.Transport.{MessageJson, LspReader, read_message, write_message, new}
use ra_multiplex.Lsp.Transport.Framing.{Delivers, frame, body_read}
use ra_multiplex.Lsp.Transport.Messages.{
  IsCarried, Keeps, write_message-frame, parse_body-message, parse_body-batch,
}
use ra_multiplex.Lsp.Transport.Queue.{Parcel, single, batch, body, IsParcel}
use ra_multiplex.Client.Connect.{first_message}
use ra_multiplex.Socket
use ra_multiplex.Socket.{Network, Stream}
use ra_multiplex.Proxy.{options_or_default, patch, forwarded_request}
use ra_multiplex.Proxy.Handover.{
  patched, without_section, forwarded_request-patched, first_message-patched,
}
use ra_multiplex.Proxy.Run.{
  Process, Pipes, Ended, connect_method, copied, copy_on, forward, relay, run,
}

-- What is relied on of `copy_bidirectional`: if it succeeds, the server got all bytes that the
-- editor still had to send, in order and behind those that were written before.
pub record Copies {S D : Type 0} (pipes : Pipes S D) (content : D → Text) (written : S → Text)
    : Type 0 where
  pub copies :
      (s s' : S) (d d' : D)
      → pipes.copy_bidirectional s d ≡ (done tt, s', d')
      → written s' ≡ written s ++ content d

-- The message of a frame that is read first. What else a batch holds has not been delivered yet.
abbrev pub leading : {V : Type 0} → Parcel V → Message V
leading (single m) = m
leading (batch t m ms) = m

module _ {S D : Type 0} (written : S → Text) where
  -- The proxy ended well and the server got these bytes, or a write or the copying failed.
  abbrev pub Handed : Text → Ended S D → Type 0
  Handed bytes e =
      ((e.result ≡ ok tt) × (written e.stream ≡ bytes))
      ⊎ ((e.result ≡ err Error.write_failed) ⊎ (e.result ≡ err Error.io_error))

module _ {S D V : Type 0} (pipes : Pipes S D) (wire : MessageJson V) (content : D → Text)
    (written : S → Text) where
  copied-Handed :
      (stream : S) (stdio : D) (res : IoResult (Unit {0}) × S × D)
      → Copies pipes content written
      → pipes.copy_bidirectional stream stdio ≡ res
      → Handed written (written stream ++ content stdio) (copied pipes wire res)
  unfolding copied
  copied-Handed stream stdio (done u, s', d') c e = inl (refl, c.copies stream s' stdio d' e)
  copied-Handed stream stdio (failed kind, s', d') c e = inr (inr refl)

  copy_on-Handed :
      (m : Message V) (stream : S) (stdio : D) (res : IoResult (Unit {0}) × S)
      → Keeps pipes.to_server written
      → Copies pipes content written
      → write_message pipes.to_server wire m stream ≡ res
      → written stream ≡ []
      → Handed written (frame (wire.to_writer m) ++ content stdio) (copy_on pipes wire res stdio)
  unfolding copy_on
  copy_on-Handed m stream stdio (done u, s') k c e empty =
      let wrote : written s' ≡ frame (wire.to_writer m) =
        write_message-frame pipes.to_server written wire m stream s' k e
        ∙ ap (λ t. t ++ frame (wire.to_writer m)) empty in
      subst
        (λ t.
          Handed written (t ++ content stdio)
            (copied pipes wire (pipes.copy_bidirectional s' stdio)))
        wrote (copied-Handed s' stdio (pipes.copy_bidirectional s' stdio) c refl)
  copy_on-Handed m stream stdio (failed kind, s') k c e empty = inr (inl refl)

  -- The first message of the first frame is read, and behind the frame the stream is untouched.
  first_read :
      (p : Parcel V) (stdio : D) (rest : Text)
      → Delivers pipes.from_editor content
      → IsParcel wire p
      → content stdio ≡ frame (body wire p) ++ rest
      → (reader : LspReader D V) × (read_message pipes.from_editor wire
            (new pipes.from_editor wire stdio)
          ≡ some (ok (some (leading p)), reader))
        × (content reader.reader ≡ rest)
  unfolding new
  first_read (single m) stdio rest d w e =
      let (r, read, left) = body_read pipes.from_editor content d wire stdio _ rest w.fits e in
      let reader : LspReader D V = record { reader = r; batch = [] } in
      (reader, rw (read, parse_body-message pipes.from_editor wire reader m w), left)
  first_read (batch t m ms) stdio rest d (fits, utf8, array, reads) e =
      let (r, read, left) = body_read pipes.from_editor content d wire stdio t rest fits e in
      (
        record { reader = r; batch = reverse ms },
        rw (read, parse_body-batch pipes.from_editor wire r t m ms utf8 array reads),
        left,
      )

  module _ ⦃json : Json V⦄ where
    relay-Handed :
        (p : Parcel V) (method : Method) (message : Message V) (stream : S) (stdio : D)
        (rest : Text)
        → Delivers pipes.from_editor content
        → Keeps pipes.to_server written
        → Copies pipes content written
        → IsParcel wire p
        → content stdio ≡ frame (body wire p) ++ rest
        → written stream ≡ []
        → forwarded_request method (ok (some (leading p))) ≡ ok message
        → (e : Ended S D) × (relay pipes wire method stream stdio ≡ some e)
          × Handed written (frame (wire.to_writer message) ++ rest) e
    unfolding relay forward
    relay-Handed p method message stream stdio rest d k c parcel e empty forwards =
        let (reader, read, left) = first_read p stdio rest d parcel e in
        let sent = write_message pipes.to_server wire message stream in
        (
          copy_on pipes wire sent reader.reader,
          rw (read, forwards),
          subst
              (λ t.
                Handed written (frame (wire.to_writer message) ++ t)
                  (copy_on pipes wire sent reader.reader))
              left (copy_on-Handed message stream reader.reader sent k c refl empty),
        )

-- The server's side of a connection: a reader that holds the bytes that were written to it.
pub record Receives {R : Type 0} (input : AsyncBufRead R) (content : R → Text) : Type 0 where
  pub delivers : Delivers input content
  pub opened : Text → R
  pub holds : (t : Text) → content (opened t) ≡ t

module _ {R V : Type 0} (input : AsyncBufRead R) (content : R → Text) (wire : MessageJson V)
    ⦃json : Json V⦄ where
  -- The server reads this request first, finds this method in it and goes on with these
  -- parameters, and then these bytes are left.
  abbrev pub Arrives : R → Request V → Method → InitializeParams V → Text → Type 0
  Arrives r req method params rest =
      (r' : R) × (read_message input wire (new input wire r)
        ≡ some (ok (some (request req)), record { reader = r'; batch = [] }))
      × (first_message (ok (some (request req))) ≡ ok (req, method, params))
      × (content r' ≡ rest)

  arrival :
      (r : R) (req : Request V) (method : Method) (params : InitializeParams V) (rest : Text)
      → Delivers input content
      → IsCarried wire (request req)
      → first_message (ok (some (request req))) ≡ ok (req, method, params)
      → content r ≡ frame (wire.to_writer (request req)) ++ rest
      → Arrives r req method params rest
  unfolding new
  arrival r req method params rest d w finds e =
      let (r', read, left) = body_read input content d wire r _ rest w.fits e in
      let reader : LspReader R V = record { reader = r'; batch = [] } in
      (r', rw (read, parse_body-message input wire reader (request req) w), finds, left)

module _ (net : Network) {D R V : Type 0} (pipes : Pipes (Stream net) D) (content : D → Text)
    (written : Stream net → Text) (input : AsyncBufRead R) (received : R → Text)
    (wire : MessageJson V) ⦃json : Json V⦄ where
  -- An editor's first frame is an `initialize` request without a section, or a batch that starts
  -- with one, and the proxy is connected. Then the proxy ends with an error of a write or of the
  -- copying, or it ends well and the server reads the request first, finds in it the method with
  -- the proxy's server, arguments, environment and directory and what the editor sent, and is left
  -- with exactly the bytes that the editor sent behind its first frame: what a batch held besides
  -- the request has reached nobody. It is assumed that streams deliver and keep bytes, that a
  -- copying that succeeds copies what is left, and that serde_json carries the patched request.
  pub run-Arrives :
      (config : Config) (server : Text) (args : List Text) (process : Process) (stdio : D)
      (w w' : net.World) (stream : Stream net) (p : Parcel V) (req : Request V)
      (params : InitializeParams V) (rest : Text)
      → let method = connect_method config server args process in
        Delivers pipes.from_editor content
        → Keeps pipes.to_server written
        → Copies pipes content written
        → (server_side : Receives input received)
        → Socket.connect net config.connect w ≡ (ok stream, w')
        → written stream ≡ []
        → IsParcel wire p
        → leading p ≡ request req
        → content stdio ≡ frame (body wire p) ++ rest
        → (req.method == codes "initialize") ≡ true
        → json.initialize_params.from_value req.params ≡ some params
        → (options_or_default params.initialization_options).lsp_mux ≡ none
        → IsReadBack json.initialize_params (patch method params)
        → IsCarried wire (request (patched method req params))
        → (e : Ended (Stream net) D) × (run net pipes wire config server args process stdio w
            ≡ (ok (some e), w'))
          × (((e.result ≡ ok tt)
                × Arrives input received wire
                    (server_side.opened (written e.stream))
                    (patched method req params)
                    method
                    (without_section params)
                    rest)
              ⊎ ((e.result ≡ err Error.write_failed) ⊎ (e.result ≡ err Error.io_error)))
  unfolding run
  run-Arrives config server args process stdio w w' stream p req params rest d k c far connected
        empty parcel leads e is_init parses bare reads carried =
      let method = connect_method config server args process in
      let forwards =
        subst
          (λ m. forwarded_request method (ok (some m)) ≡ ok (request (patched method req params)))
          (sym leads) (forwarded_request-patched method req params is_init parses) in
      let (end, runs, handed) =
        relay-Handed pipes wire content written p method (request (patched method req params))
          stream stdio rest d k c parcel e empty forwards in
      (
        end,
        rw (connected, runs),
        elim handed [
          | inl (well, bytes) ↦ inl (
            well,
            arrival input received wire (far.opened (written end.stream)) _ method _ rest
                far.delivers carried (first_message-patched method req params reads is_init bare)
                (far.holds (written end.stream) ∙ bytes),
          )
          | inr failure ↦ inr failure
        ],
      )
