-- ===== src/Tasks/Delivery.antt =====
-- What a task that writes messages leaves on its stream, and what is read from it.
use ra_multiplex.Base.{
  Text, List, [], ◌∷◌, ◌++◌, append_assoc, append-nil, subst, none, ◌≡◌, refl, sym, ap, ◌∙◌, All,
  length, inl, inr, ◌⊎◌,
}
use ra_multiplex.Io.{ErrorKind, IoResult, done, failed, AsyncWrite, AsyncBufRead}
use ra_multiplex.Lsp.Jsonrpc.{Message}
use ra_multiplex.Lsp.Transport.{MessageJson, write_message}
use ra_multiplex.Lsp.Transport.Framing.{Delivers, frame}
use ra_multiplex.Lsp.Transport.Messages.{
  Keeps, IsCarried, frames, read_many, received, read_many-frames, write_message-frame,
}
use ra_multiplex.Tasks.{Ended, reported, write_loop, stdin_task, input_task}

module _ {W V : Type 0} (io : AsyncWrite W) (written : W → Text) (json : MessageJson V) where
  IoResult-cases :
      (r : IoResult (Unit {0}) × W)
      → ((w : W) × (r ≡ (done tt, w))) ⊎ ((k : ErrorKind) × (w : W) × (r ≡ (failed k, w)))
  IoResult-cases (done u, w) = inl (w, refl)
  IoResult-cases (failed k, w) = inr (k, w, refl)

  -- How the loop ends: either everything is on the stream, or it is up to the first message
  -- whose writing failed, and what is logged is the error of that.
  abbrev pub Outcomes : List (Message V) → W → Ended W V → Type 0
  Outcomes ms w e =
      ((e.unwritten ≡ []) × (e.logged ≡ none) × (written e.stream ≡ written w ++ frames json ms))
      ⊎ ((sent : List (Message V)) × (m : Message V) × (rest : List (Message V)) × (w' : W)
          × (k : ErrorKind) × (ms ≡ sent ++ m ∷ rest)
          × (written w' ≡ written w ++ frames json sent)
          × (write_message io json m w' ≡ (failed k, e.stream))
          × (e.unwritten ≡ m ∷ rest)
          × (e.logged ≡ reported k))

  written_one :
      (m : Message V) (ms : List (Message V)) (w w' : W)
      → write_message io json m w ≡ (done tt, w')
      → write_loop io json (m ∷ ms) w ≡ write_loop io json ms w'
  unfolding write_loop
  written_one m ms w w' e = rw (write_loop, e, ap (λ (p : IoResult (Unit {0}) × W). p.1) e)

  stopped_at :
      (m : Message V) (ms : List (Message V)) (w w' : W) (k : ErrorKind)
      → write_message io json m w ≡ (failed k, w')
      → write_loop io json (m ∷ ms) w
        ≡ record { unwritten = m ∷ ms; logged = reported k; stream = w' }
  unfolding write_loop
  stopped_at m ms w w' k e = rw (write_loop, e, ap (λ (p : IoResult (Unit {0}) × W). p.1) e)

  -- What follows a message that was written stands behind its frame.
  behind :
      (m : Message V) (more : Text) (w w' : W) (t : Text)
      → Keeps io written
      → write_message io json m w ≡ (done tt, w')
      → t ≡ written w' ++ more
      → t ≡ written w ++ (frame (json.to_writer m) ++ more)
  behind m more w w' t k e h =
      h
      ∙ ap (λ s. s ++ more) (write_message-frame io written json m w w' k e)
      ∙ append_assoc (written w) (frame (json.to_writer m)) more

  write_loop-Outcomes :
      (ms : List (Message V)) (w : W) → Keeps io written → Outcomes ms w (write_loop io json ms w)
  write_loop-Outcomes [] w k = inl (
    unfold write_loop in refl,
    unfold write_loop in refl,
    unfold write_loop in sym (append-nil (written w)),
  )
  write_loop-Outcomes (m ∷ ms) w k = elim (IoResult-cases (write_message io json m w)) [
    | inl (w', e) ↦
        subst (Outcomes (m ∷ ms) w) (sym (written_one m ms w w' e))
          (elim (write_loop-Outcomes ms w' k) [
            | inl (all, silent, kept) ↦ inl (all, silent, behind m (frames json ms) w w' _ k e kept)
            | inr (sent, n, rest, w'', kind, split, kept, fails, left, logs) ↦ inr (
              m ∷ sent,
              n,
              rest,
              w'',
              kind,
              ap (λ xs. m ∷ xs) split,
              behind m (frames json sent) w w' _ k e kept,
              fails,
              left,
              logs,
            )
          ])
    | inr (kind, w', e) ↦
        subst (Outcomes (m ∷ ms) w) (sym (stopped_at m ms w w' kind e))
          (inr ([], m, ms, w, kind, refl, sym (append-nil (written w)), e, refl, refl))
  ]

  -- The task of a language server's stdin writes every message that the channel brings, in order and
  -- with nothing between them, until the first whose writing fails; it writes none after that, and
  -- logs the error unless it is a broken pipe. It is assumed that the stream keeps what is written.
  pub stdin_task-Outcomes :
      (ms : List (Message V)) (w : W) → Keeps io written → Outcomes ms w (stdin_task io json ms w)
  unfolding stdin_task
  stdin_task-Outcomes ms w k = write_loop-Outcomes ms w k

  -- The same of the task of a client's input.
  pub input_task-Outcomes :
      (ms : List (Message V)) (w : W) → Keeps io written → Outcomes ms w (input_task io json ms w)
  unfolding input_task
  input_task-Outcomes ms w k = write_loop-Outcomes ms w k

module _ {W R V : Type 0} (io : AsyncWrite W) (written : W → Text) (input : AsyncBufRead R)
    (content : R → Text) (json : MessageJson V) where
  all_written :
      (ms : List (Message V)) (w : W)
      → Outcomes io written json ms w (stdin_task io json ms w)
      → (stdin_task io json ms w).unwritten ≡ []
      → written w ≡ []
      → written (stdin_task io json ms w).stream ≡ frames json ms
  all_written ms w (inl (all, silent, kept)) none_left empty =
      kept ∙ ap (λ t. t ++ frames json ms) empty
  all_written ms w (inr (sent, m, rest, w', k, split, kept, fails, left, logs)) none_left empty = cc

  -- If the task of a language server's stdin ends with nothing unwritten, then whoever reads from
  -- the other end of the pipe with `read_message` gets exactly the messages that the channel brought,
  -- in their order, and the stream is empty then. It is assumed that the writer keeps what is
  -- written, that the reader delivers it, and that serde_json writes these messages as text that is
  -- read back.
  pub stdin_task-read_many :
      (ms : List (Message V)) (w : W) (r : R)
      → Keeps io written
      → Delivers input content
      → All (IsCarried json) ms
      → (stdin_task io json ms w).unwritten ≡ []
      → written w ≡ []
      → content r ≡ written (stdin_task io json ms w).stream
      → (r' : R) × (read_many input json (length ms) (record { reader = r; batch = [] })
          ≡ (received input json ms, record { reader = r'; batch = [] }))
        × (content r' ≡ [])
  stdin_task-read_many ms w r k d carried none_left empty same =
      read_many-frames input content json r ms [] d carried (
        same
        ∙ all_written ms w (stdin_task-Outcomes io written json ms w k) none_left empty
        ∙ sym (append-nil (frames json ms)))
