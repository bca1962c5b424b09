-- ===== src/Lsp/Transport/Queue.antt =====
-- `LspReader` as a queue of messages, whichever of them came in batches.
use mathlib.Core.List.{reverse-reverse}
use ra_multiplex.Base.{
  ◌≤◌, ◌≡◌, refl, subst, ◌∙◌, ap, Text, codes, List, [], ◌∷◌, ◌++◌, append_assoc, some, true,
  length, reverse, All, ok,
}
use ra_multiplex.Str.{starts_with}
use ra_multiplex.Str.Utf8.{is_utf8}
use ra_multiplex.Str.Decimal.{usize_max}
use ra_multiplex.Lsp.Jsonrpc.{Message}
use ra_multiplex.Io.{AsyncBufRead}
use ra_multiplex.Lsp.Transport.{MessageJson, LspReader, read_message}
use ra_multiplex.Lsp.Transport.Framing.{Delivers, frame, body_read}
use ra_multiplex.Lsp.Transport.Messages.{
  IsCarried, parse_body-message, parse_body-batch, read_pending, read_many, received,
}

-- What one frame carries: a message, or a batch of at least one.
pub data Parcel (V : Type 0) : Type 0 where
  single : Message V → Parcel V
  batch : Text → Message V → List (Message V) → Parcel V

module _ {V : Type 0} (json : MessageJson V) where
  abbrev pub body : Parcel V → Text
  body (single m) = json.to_writer m
  body (batch t m ms) = t

  -- Is the body read as what the parcel carries?
  abbrev pub IsParcel : Parcel V → Type 0
  IsParcel (single m) = IsCarried json m
  IsParcel (batch t m ms) =
      (length t ≤ usize_max)
      × (is_utf8 t ≡ true)
      × (starts_with (codes "[") t ≡ true)
      × (json.batch_from_str t ≡ some (m ∷ ms))

  abbrev pub bytes : List (Parcel V) → Text
  bytes [] = []
  bytes (p ∷ ps) = frame (body p) ++ bytes ps

abbrev pub contents : {V : Type 0} → List (Parcel V) → List (Message V)
contents [] = []
contents (single m ∷ ps) = m ∷ contents ps
contents (batch t m ms ∷ ps) = m ∷ (ms ++ contents ps)

module _ {R V : Type 0} (io : AsyncBufRead R) (content : R → Text) (json : MessageJson V) where
  -- The messages that a reader holds: those that are left of a batch, and those on the stream, in
  -- front of `rest`.
  pub record Holds (rest : Text) (self : LspReader R V) (queue : List (Message V)) : Type 0 where
    pub parcels : List (Parcel V)
    pub are_parcels : All (IsParcel json) parcels
    pub on_stream : content self.reader ≡ bytes json parcels ++ rest
    pub in_order : reverse self.batch ++ contents parcels ≡ queue

  -- Of a queue that is not empty the first message is delivered, and the others stay.
  abbrev Delivered : Text → LspReader R V → List (Message V) → Type 0
  Delivered rest self [] = Unit {0}
  Delivered rest self (m ∷ queue) =
      (self' : LspReader R V) × (read_message io json self ≡ some (ok (some m), self'))
      × Holds rest self' queue

  from_stream :
      (r : R) (parcels : List (Parcel V)) (rest : Text)
      → Delivers io content
      → All (IsParcel json) parcels
      → content r ≡ bytes json parcels ++ rest
      → Delivered rest (record { reader = r; batch = [] }) (contents parcels)
  from_stream r [] rest d ps e = tt
  from_stream r (single m ∷ parcels) rest d ps e =
      let (r1, first, rest1) =
        body_read io content d json r (json.to_writer m) (bytes json parcels ++ rest) ps.0.fits
          (e ∙ append_assoc (frame (json.to_writer m)) (bytes json parcels) rest) in
      (
        record { reader = r1; batch = [] },
        rw (first, parse_body-message io json (record { reader = r1; batch = [] }) m ps.0),
        record { parcels = parcels; are_parcels = ps.1; on_stream = rest1; in_order = refl },
      )
  from_stream r (batch t m ms ∷ parcels) rest d ((fits, utf8, array, reads), ps) e =
      let (r1, first, rest1) =
        body_read io content d json r t (bytes json parcels ++ rest) fits
          (e ∙ append_assoc (frame t) (bytes json parcels) rest) in
      (
        record { reader = r1; batch = reverse ms },
        rw (first, parse_body-batch io json r1 t m ms utf8 array reads),
        record {
          parcels = parcels;
          are_parcels = ps;
          on_stream = rest1;
          in_order = rw (reverse-reverse ms);
        },
      )

  from_batch :
      (r : R) (pending : List (Message V)) (parcels : List (Parcel V)) (rest : Text)
      → Delivers io content
      → All (IsParcel json) parcels
      → content r ≡ bytes json parcels ++ rest
      → Delivered rest
          (record { reader = r; batch = reverse pending })
          (pending ++ contents parcels)
  from_batch r [] parcels rest d ps e = from_stream r parcels rest d ps e
  from_batch r (m ∷ ms) parcels rest d ps e = (
    record { reader = r; batch = reverse ms },
    read_pending io json r m ms,
    record {
      parcels = parcels;
      are_parcels = ps;
      on_stream = e;
      in_order = rw (reverse-reverse ms);
    },
  )

  Holds-Delivered :
      (rest : Text) (self : LspReader R V) (queue : List (Message V))
      → Delivers io content
      → Holds rest self queue
      → Delivered rest self queue
  Holds-Delivered rest self queue d h =
      let held : ◌≡◌ {A = LspReader R V}
          (record { reader = self.reader; batch = reverse (reverse self.batch) }) self =
        ap (λ b. record { reader = self.reader; batch = b }) (reverse-reverse self.batch) in
      subst (Delivered rest self) h.in_order (
        subst (λ s. Delivered rest s (reverse self.batch ++ contents h.parcels)) held
          (from_batch self.reader (reverse self.batch) h.parcels rest d h.are_parcels h.on_stream))

  -- `LspReader` is a queue of messages: where the stream holds frames of single messages and of
  -- batches in any order, and the reader may still hold a part of a batch, `read_message` returns
  -- the first of all these messages and leaves a reader that holds the others. It is assumed that
  -- the stream's reader delivers its bytes and that serde_json reads each body as what it carries.
  pub read_message-pop :
      (rest : Text) (self : LspReader R V) (m : Message V) (queue : List (Message V))
      → Delivers io content
      → Holds rest self (m ∷ queue)
      → (self' : LspReader R V) × (read_message io json self ≡ some (ok (some m), self'))
        × Holds rest self' queue
  read_message-pop rest self m queue d h = Holds-Delivered rest self (m ∷ queue) d h

  -- As many calls as there are messages deliver all of them in order.
  pub read_many-Holds :
      (rest : Text) (self : LspReader R V) (queue : List (Message V))
      → Delivers io content
      → Holds rest self queue
      → (self' : LspReader R V) × (read_many io json (length queue) self
          ≡ (received io json queue, self'))
        × Holds rest self' []
  unfolding read_many
  read_many-Holds rest self [] d h = (self, refl, h)
  read_many-Holds rest self (m ∷ queue) d h =
      let (self1, first, h1) = read_message-pop rest self m queue d h in
      let (self2, others, h2) = read_many-Holds rest self1 queue d h1 in
      (self2, rw (read_many, first, others), h2)
