-- ===== src/Serde/Documents.antt =====
-- src/lsp.rs: how the parameters about documents and registrations are written and read.
use ra_multiplex.Base.{Text, codes, [], ◌∷◌, Option, some, list_beq, list_eq, nat_eq, ◌≡◌, refl}
use ra_multiplex.Base.Try.{◌>>=◌}
use ra_multiplex.Base.HashMap
use ra_multiplex.Base.HashMap.{HashMap}
use ra_multiplex.Lsp.{
  TextDocumentItem, DidOpenTextDocumentParams, TextDocumentIdentifier, DidCloseTextDocumentParams,
}
use ra_multiplex.Serde.{
  Value, required, read_string, write_string, read_u64, write_u64, read_struct, write_struct,
}
use ra_multiplex.Serde.Laws.{read_string_lem, read_u64_lem, read_struct_lem}

module _ {V : Type 0} ⦃value : Value V⦄ where
  abbrev pub item_fields : TextDocumentItem → HashMap Text (Option V)
  item_fields item =
      (codes "uri", some (write_string item.uri))
      ∷ (codes "languageId", some (write_string item.language_id))
      ∷ (codes "version", some (write_u64 item.version))
      ∷ (codes "text", some (write_string item.text))
      ∷ []

  unfoldable pub read_item : V → Option TextDocumentItem
  unfolding required read_string read_u64 read_struct
  read_item v = do
    field ← read_struct v
    uri ← required read_string (field (codes "uri"))
    language_id ← required read_string (field (codes "languageId"))
    version ← required read_u64 (field (codes "version"))
    content ← required read_string (field (codes "text"))
    some (record { uri = uri; language_id = language_id; version = version; text = content })

  abbrev pub open_fields : DidOpenTextDocumentParams → HashMap Text (Option V)
  open_fields params =
      (codes "textDocument", some (write_struct (item_fields params.text_document))) ∷ []

  unfoldable pub read_open : V → Option DidOpenTextDocumentParams
  unfolding read_item
  read_open v = do
    field ← read_struct v
    text_document ← required read_item (field (codes "textDocument"))
    some (record { text_document = text_document })

  abbrev pub identifier_fields : TextDocumentIdentifier → HashMap Text (Option V)
  identifier_fields identifier = (codes "uri", some (write_string identifier.uri)) ∷ []

  unfoldable pub read_identifier : V → Option TextDocumentIdentifier
  unfolding required read_string read_struct
  read_identifier v = do
    field ← read_struct v
    uri ← required read_string (field (codes "uri"))
    some (record { uri = uri })

  abbrev pub close_fields : DidCloseTextDocumentParams → HashMap Text (Option V)
  close_fields params =
      (codes "textDocument", some (write_struct (identifier_fields params.text_document))) ∷ []

  unfoldable pub read_close : V → Option DidCloseTextDocumentParams
  unfolding read_identifier
  read_close v = do
    field ← read_struct v
    text_document ← required read_identifier (field (codes "textDocument"))
    some (record { text_document = text_document })

module _ (V : Type 0) ⦃value : Value V⦄ where
  read_item_lem :
      (item : TextDocumentItem) → read_item {V = V} (write_struct (item_fields item)) ≡ some item
  unfolding read_item required HashMap.unique HashMap.contains_key HashMap.get list_beq
  read_item_lem item = rw (
    read_struct_lem V (item_fields item) refl,
    read_string_lem V item.uri,
    read_string_lem V item.language_id,
    read_u64_lem V item.version,
    read_string_lem V item.text,
  )

  pub read_open_lem :
      (params : DidOpenTextDocumentParams)
      → read_open {V = V} (write_struct (open_fields params)) ≡ some params
  unfolding read_open required HashMap.unique HashMap.contains_key HashMap.get list_beq
  read_open_lem params =
      rw (read_struct_lem V (open_fields params) refl, read_item_lem params.text_document)

  read_identifier_lem :
      (identifier : TextDocumentIdentifier)
      → read_identifier {V = V} (write_struct (identifier_fields identifier)) ≡ some identifier
  unfolding read_identifier required HashMap.unique HashMap.contains_key HashMap.get list_beq
  read_identifier_lem identifier =
      rw (read_struct_lem V (identifier_fields identifier) refl, read_string_lem V identifier.uri)

  pub read_close_lem :
      (params : DidCloseTextDocumentParams)
      → read_close {V = V} (write_struct (close_fields params)) ≡ some params
  unfolding read_close required HashMap.unique HashMap.contains_key HashMap.get list_beq
  read_close_lem params =
      rw (read_struct_lem V (close_fields params) refl, read_identifier_lem params.text_document)
