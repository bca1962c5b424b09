-- ===== src/Session/Files.antt =====
-- Each operation on the files keeps the language server's view of a document and the clients' in
-- step.
use ra_multiplex.Base.{
  ℕ, Text, List, [], ◌∷◌, true, not, ◌&&◌, ◌==◌, ◌≡◌, refl, inl, inr, nat_eq, list_eq, text_eq,
  list_beq, arith, if◌then◌else◌, ok, Bool-cases, Option-cases,
}
use ra_multiplex.Base.HashMap
use ra_multiplex.Base.HashMap.{HashMap}
use ra_multiplex.Base.HashSet
use ra_multiplex.Lsp.{DidOpenTextDocumentParams}
use ra_multiplex.Lsp.Json.{Json, RoundTrips}
use ra_multiplex.Effect.{Effect, to_server, server_messages}
use ra_multiplex.Instance.{
  Instance, Client, ClientData, has_open, did_open_notification, did_close_notification, open_file,
  close_file, close_all_files, cleanup_client, add_client,
}
use ra_multiplex.Session.Clients.{
  add_file, drop_file, has_open-add_file, has_open-drop_file, has_open-drop_file_ne,
  has_open-remove, has_open-insert,
}
use ra_multiplex.Session.Documents.{Document, opened, closed, receive, receive_all}

-- The view of a server that was told everything.
abbrev pub told : Text → HashMap ℕ ClientData → Document
told uri clients = record { is_open = has_open uri clients; clean = true }

-- The document after what a step sent.
abbrev pub after : {V : Type 0} ⦃json : Json V⦄ → Text → Document → List (Effect V) → Document
after uri d es = receive_all uri d (server_messages es)

module _ (V : Type 0) ⦃json : Json V⦄ (opens : RoundTrips json.did_open)
    (closes : RoundTrips json.did_close) (uri : Text) where
  receive-did_open :
      (d : Document) (params : DidOpenTextDocumentParams)
      → receive {V = V} uri d (did_open_notification params)
        ≡ (if params.text_document.uri == uri then opened d else d)
  unfolding receive did_open_notification list_beq
  receive-did_open d params = ground (arith, opens params)

  receive-did_close :
      (d : Document) (u : Text)
      → receive {V = V} uri d (did_close_notification u) ≡ (if u == uri then closed d else d)
  unfolding receive did_close_notification list_beq
  receive-did_close d u = ground (arith, closes (record { text_document = record { uri = u } }))

  receive_all-close_all_files :
      (clients : HashMap ℕ ClientData) (files : List Text) (d : Document)
      → after {V = V} uri d (close_all_files clients files)
        ≡ (if HashSet.contains files uri && not (has_open uri clients) then closed d else d)
  unfolding receive_all server_messages close_all_files HashSet.contains
  receive_all-close_all_files clients [] d = refl
  receive_all-close_all_files clients (u ∷ files) d = ground (
    arith,
    receive-did_close d u,
    text_eq.beq_iff u uri,
    receive_all-close_all_files clients files d,
    receive_all-close_all_files clients files (closed d),
  )

  -- A client opens a document: the server is told if nobody had it open.
  opened_file :
      (n : ℕ) (params : DidOpenTextDocumentParams) (clients : HashMap ℕ ClientData)
      → HashMap.contains_key n clients ≡ true
      → after {V = V} uri (told uri clients) (
          if not (has_open params.text_document.uri clients)
          then to_server (did_open_notification params) ∷ []
          else [])
        ≡ told uri (HashMap.modify n (add_file params.text_document.uri) clients)
  unfolding receive_all server_messages
  opened_file n params clients h = ground (
    arith,
    receive-did_open (told uri clients) params,
    text_eq.beq_iff params.text_document.uri uri,
    has_open-add_file n params.text_document.uri uri clients,
  )

  -- A client closes a document: the server is told if nobody else has it open.
  closed_file :
      (n : ℕ) (u : Text) (clients : HashMap ℕ ClientData)
      → let clients' = HashMap.modify n (drop_file u) clients in
        after {V = V} uri (told uri clients) (close_all_files clients' (u ∷ [])) ≡ told uri clients'
  unfolding HashSet.contains
  closed_file n u clients = ground (
    arith,
    receive_all-close_all_files (HashMap.modify n (drop_file u) clients) (u ∷ [])
        (told uri clients),
    text_eq.beq_iff u uri,
    has_open-drop_file n u uri clients,
    has_open-drop_file_ne n u uri clients,
  )

  pub open_file-told :
      (self : Instance V) (n : ℕ) (value : V) {self' : Instance V} {es : List (Effect V)}
      → open_file self n value ≡ ok (self', es)
      → after uri (told uri self.clients) es ≡ told uri self'.clients
  unfolding open_file
  open_file-told self n value {self'} {es} h =
      elim (Option-cases (json.did_open.from_value value)) [
        | inl e ↦ cc
        | inr (params, e) ↦ elim (Bool-cases (HashMap.contains_key n self.clients)) [
          | inl c ↦ ground (arith, opened_file n params self.clients c)
          | inr c ↦ ground arith
        ]
      ]

  pub close_file-told :
      (self : Instance V) (n : ℕ) (value : V) {self' : Instance V} {es : List (Effect V)}
      → close_file self n value ≡ ok (self', es)
      → after uri (told uri self.clients) es ≡ told uri self'.clients
  unfolding close_file
  close_file-told self n value {self'} {es} h =
      elim (Option-cases (json.did_close.from_value value)) [
        | inl e ↦ cc
        | inr (params, e) ↦ ground (arith, closed_file n params.text_document.uri self.clients)
      ]

  pub cleanup_client-told :
      (self : Instance V) (client : Client) {self' : Instance V} {es : List (Effect V)}
      → cleanup_client self client ≡ ok (self', es)
      → after uri (told uri self.clients) es ≡ told uri self'.clients
  unfolding cleanup_client
  cleanup_client-told self client {self'} {es} h =
      elim (Option-cases (HashMap.get client.id self.clients)) [
        | inl e ↦ ground arith
        | inr (d, e) ↦ ground (
          arith,
          receive_all-close_all_files (HashMap.remove client.id self.clients) d.files
              (told uri self.clients),
          has_open-remove client.id uri d self.clients,
        )
      ]

  -- A new client has nothing open, and the server is told nothing.
  pub add_client-told :
      (self : Instance V) (client : Client) {self' : Instance V} {es : List (Effect V)}
      → add_client self client ≡ ok (self', es)
      → after uri (told uri self.clients) es ≡ told uri self'.clients
  unfolding add_client receive_all server_messages
  add_client-told self client {self'} {es} h =
      ground (arith, has_open-insert client.id uri client self.clients)
