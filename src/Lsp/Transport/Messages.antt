-- ===== src/Lsp/Transport/Messages.antt =====
-- What `read_message` makes of the frames on a stream.
use mathlib.Core.List.{reverse-reverse}
use ra_multiplex.Base.{
  ℕ, zero, suc, ◌≤◌, ◌≡◌, refl, ◌∙◌, ap, Text, codes, List, [], ◌∷◌, ◌++◌, append_assoc, Option,
  none, some, true, false, arith, length, map, reverse, All, Outcome, ok,
}
use ra_multiplex.Str.{starts_with}
use ra_multiplex.Str.Utf8.{is_utf8}
use ra_multiplex.Str.Decimal.{usize_max}
use ra_multiplex.Lsp.Jsonrpc.{Message}
use ra_multiplex.Io.{IoResult, done, failed, AsyncBufRead, AsyncWrite}
use ra_multiplex.Lsp.Transport.{
  MessageJson, LspReader, pop, content_header, parse_body, first_of_batch, read_message,
  write_message, then_io,
}
use ra_multiplex.Lsp.Transport.Framing.{Delivers, frame, body_read}

-- What is relied on of serde_json for one message: it is written as UTF-8 and not as an array, is
-- read back, and is no longer than a `usize` can say.
pub record IsCarried {V : Type 0} (json : MessageJson V) (m : Message V) : Type 0 where
  pub utf8 : is_utf8 (json.to_writer m) ≡ true
  pub no_array : starts_with (codes "[") (json.to_writer m) ≡ false
  pub round_trip : json.from_str (json.to_writer m) ≡ some m
  pub fits : length (json.to_writer m) ≤ usize_max

-- What it relies on of a writer: what was written is kept in order.
pub record Keeps {W : Type 0} (io : AsyncWrite W) (written : W → Text) : Type 0 where
  pub write_at :
      (bytes : Text) (w w' : W)
      → io.write_all bytes w ≡ (done tt, w')
      → written w' ≡ written w ++ bytes
  pub flush_at : (w w' : W) → io.flush w ≡ (done tt, w') → written w' ≡ written w

pop-reverse {ℓ} : {A : Type ℓ} (x : A) (xs : List A) → pop (reverse (x ∷ xs)) ≡ some (x, reverse xs)
unfolding pop
pop-reverse x xs = rw (pop, reverse-reverse (x ∷ xs))

module _ {R V : Type 0} (io : AsyncBufRead R) (json : MessageJson V) where
  -- `n` calls of `read_message`, one after the other.
  unfoldable pub read_many :
      ℕ → LspReader R V → List (Option (Outcome (Option (Message V)))) × LspReader R V
  read_many zero self = ([], self)
  read_many (suc n) self = elim (read_message io json self) [
    | some (result, self') ↦ let (rest, last) = read_many n self' in (some result ∷ rest, last)
    | none ↦ (none ∷ [], self)
  ]

  abbrev pub received : List (Message V) → List (Option (Outcome (Option (Message V))))
  received = map (λ m. some (ok (some m)))

  pub read_pending :
      (r : R) (m : Message V) (ms : List (Message V))
      → read_message io json (record { reader = r; batch = reverse (m ∷ ms) })
        ≡ some (ok (some m), record { reader = r; batch = reverse ms })
  unfolding read_message
  read_pending r m ms = rw (read_message, pop-reverse m ms)

  read_many-batch :
      (r : R) (ms : List (Message V))
      → read_many (length ms) (record { reader = r; batch = reverse ms })
        ≡ (received ms, record { reader = r; batch = [] })
  unfolding read_many
  read_many-batch r [] = refl
  read_many-batch r (m ∷ ms) = rw (read_many, read_pending r m ms, read_many-batch r ms)

  pub parse_body-message :
      (self : LspReader R V) (m : Message V)
      → IsCarried json m
      → parse_body io json self (json.to_writer m) ≡ (ok (some m), self)
  unfolding parse_body
  parse_body-message self m w = rw (parse_body, w.utf8, w.no_array, w.round_trip)

  pub parse_body-batch :
      (r : R) (body : Text) (m : Message V) (ms : List (Message V))
      → is_utf8 body ≡ true
      → starts_with (codes "[") body ≡ true
      → json.batch_from_str body ≡ some (m ∷ ms)
      → parse_body io json (record { reader = r; batch = [] }) body
        ≡ (ok (some m), record { reader = r; batch = reverse ms })
  unfolding parse_body
  parse_body-batch r body m ms u a b = rw (parse_body, u, a, b, first_of_batch, pop-reverse m ms)

-- The frames of messages, one after the other.
abbrev pub frames : {V : Type 0} → MessageJson V → List (Message V) → Text
frames json [] = []
frames json (m ∷ ms) = frame (json.to_writer m) ++ frames json ms

module _ {R V : Type 0} (io : AsyncBufRead R) (content : R → Text) (json : MessageJson V) where
  -- A stream that holds the frames of messages is read as these messages, in order and nothing
  -- else, and what stands behind the frames stays in the stream. It is assumed that the reader
  -- delivers its bytes and, of these messages only, that serde_json writes them as UTF-8 text that is
  -- no array, reads them back, and makes no text longer than a `usize` can say.
  pub read_many-frames :
      (r : R) (ms : List (Message V)) (rest : Text)
      → Delivers io content
      → All (IsCarried json) ms
      → content r ≡ frames json ms ++ rest
      → (r' : R) × (read_many io json (length ms) (record { reader = r; batch = [] })
          ≡ (received io json ms, record { reader = r'; batch = [] }))
        × (content r' ≡ rest)
  unfolding read_many
  read_many-frames r [] rest d w e = (r, refl, e)
  read_many-frames r (m ∷ ms) rest d w e =
      let (r1, first, rest1) =
        body_read io content d json r (json.to_writer m) (frames json ms ++ rest) w.0.fits
          (e ∙ append_assoc (frame (json.to_writer m)) (frames json ms) rest) in
      let (r2, others, rest2) = read_many-frames r1 ms rest d w.1 rest1 in
      (r2, rw (read_many, first, parse_body-message io json _ m w.0, others), rest2)

  -- A batch is delivered as its messages, one a call and in order, and the stream is not touched
  -- again before the last of them. It is assumed that the reader delivers its bytes and that
  -- serde_json reads the body as a batch of at least one message.
  pub read_many-batch_frame :
      (r : R) (body : Text) (m : Message V) (ms : List (Message V)) (rest : Text)
      → Delivers io content
      → length body ≤ usize_max
      → is_utf8 body ≡ true
      → starts_with (codes "[") body ≡ true
      → json.batch_from_str body ≡ some (m ∷ ms)
      → content r ≡ frame body ++ rest
      → (r' : R) × (read_many io json (length (m ∷ ms)) (record { reader = r; batch = [] })
          ≡ (received io json (m ∷ ms), record { reader = r'; batch = [] }))
        × (content r' ≡ rest)
  unfolding read_many
  read_many-batch_frame r body m ms rest d fits u a b e =
      let (r1, first, rest1) = body_read io content d json r body rest fits e in
      (
        r1,
        rw (
          read_many,
          first,
          parse_body-batch io json r1 body m ms u a b,
          read_many-batch io json r1 ms,
        ),
        rest1,
      )

-- If two writes in a row succeed, both did.
then_io-done :
    {W V : Type 0} (io : AsyncWrite W) (json : MessageJson V) (r : IoResult (Unit {0}) × W)
    (next : W → IoResult (Unit {0}) × W) (w' : W)
    → then_io io json r next ≡ (done tt, w')
    → (w : W) × (r ≡ (done tt, w)) × (next w ≡ (done tt, w'))
then_io-done io json (done u, w) next w' e = (w, refl, e)
then_io-done io json (failed kind, w) next w' e = ground arith

-- A message that is written without an error adds exactly its frame to the stream.
pub write_message-frame :
    {W V : Type 0} (io : AsyncWrite W) (written : W → Text) (json : MessageJson V) (m : Message V)
    (w w' : W)
    → Keeps io written
    → write_message io json m w ≡ (done tt, w')
    → written w' ≡ written w ++ frame (json.to_writer m)
unfolding write_message
write_message-frame io written json m w w' k e =
    let body = json.to_writer m in
    let (w1, wrote1, e1) = then_io-done io json (io.write_all (content_header body) w) _ w' e in
    let (w2, wrote2, e2) = then_io-done io json (io.write_all body w1) io.flush w' e1 in
    k.flush_at w2 w' e2
    ∙ k.write_at body w1 w2 wrote2
    ∙ ap (λ t. t ++ body) (k.write_at (content_header body) w w1 wrote1)
    ∙ append_assoc (written w) (content_header body) body
