-- ===== src/Session/Documents.antt =====
-- What a language server takes from the messages that it receives about one text document.
use ra_multiplex.Base.{
  Text, codes, List, [], ◌∷◌, ◌++◌, none, some, Bool, true, false, not, ◌&&◌, ◌==◌, ◌≡◌, refl,
  nat_eq, list_eq, if◌then◌else◌,
}
use ra_multiplex.Lsp.Json.{Json}
use ra_multiplex.Lsp.Jsonrpc.{Message, request, notification, response_success, response_error}

-- `is_open`: the document was opened and not closed since. `clean`: it was never opened while open,
-- which the protocol forbids.
pub record Document : Type 0 where
  pub is_open : Bool
  pub clean : Bool

abbrev pub unopened : Document
unopened = record { is_open = false; clean = true }

abbrev pub opened : Document → Document
opened d = record { is_open = true; clean = d.clean && not d.is_open }

abbrev pub closed : Document → Document
closed d = record d { is_open = false }

module _ {V : Type 0} ⦃json : Json V⦄ (uri : Text) where
  abbrev on_open : V → Document → Document
  on_open value d = elim (json.did_open.from_value value) [
    | some params ↦ if params.text_document.uri == uri then opened d else d
    | none ↦ d
  ]

  abbrev on_close : V → Document → Document
  on_close value d = elim (json.did_close.from_value value) [
    | some params ↦ if params.text_document.uri == uri then closed d else d
    | none ↦ d
  ]

  unfoldable pub receive : Document → Message V → Document
  receive d (notification notif) =
      if notif.method == codes "textDocument/didOpen"
      then on_open notif.params d
      else if notif.method == codes "textDocument/didClose"
      then on_close notif.params d
      else d
  receive d (request req) = d
  receive d (response_success res) = d
  receive d (response_error res) = d

  unfoldable pub receive_all : Document → List (Message V) → Document
  unfolding receive
  receive_all d [] = d
  receive_all d (m ∷ ms) = receive_all (receive d m) ms

  pub receive_all-append :
      (d : Document) (ms ns : List (Message V))
      → receive_all d (ms ++ ns) ≡ receive_all (receive_all d ms) ns
  unfolding receive_all
  receive_all-append d [] ns = refl
  receive_all-append d (m ∷ ms) ns = receive_all-append (receive d m) ms ns
