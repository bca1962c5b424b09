-- ===== src/Instance/Capabilities.antt =====
-- Dynamic capabilities: what the server registers is told to every later client.
use ra_multiplex.Base.{
  ◌≡◌, refl, ◌∙◌, ap, subst, Text, codes, List, [], ◌∷◌, Option, none, some, true, false, ◌==◌,
  ==_refl, nat_eq, list_eq, list_beq, any, In, arith, if◌then◌else◌, ok,
}
use ra_multiplex.Base.HashMap
use ra_multiplex.Base.HashMap.{HashMap}
use ra_multiplex.Base.HashSet
use ra_multiplex.Lsp.{Registration, RegistrationParams, Unregistration, UnregistrationParams}
use ra_multiplex.Lsp.Json.{Json}
use ra_multiplex.Lsp.Jsonrpc.{Request, request, version, string}
use ra_multiplex.Lsp.Ext.{tag, drop}
use ra_multiplex.Effect.{to_client}
use ra_multiplex.Instance.{
  Instance, Client, ClientData, add_client, save_registrations, drop_registrations,
  register_capabilities, unregister_capabilities, replay, replays,
}
use ra_multiplex.Instance.Stdout.{
  or_keep, register_capability, unregister_capability, classify, handle_request,
  handle_server_message,
}

module _ {V : Type 0} where
  -- The last of some registrations that has an id, or else an earlier one.
  abbrev pub latest :
      Text → List (Registration V) → Option (Registration V) → Option (Registration V)
  latest id [] before = before
  latest id (r ∷ rs) before = latest id rs (if r.id == id then some r else before)

  get-save_registrations :
      (id : Text) (regs : List (Registration V)) (caps : HashMap Text (Registration V))
      → HashMap.get id (save_registrations regs caps) ≡ latest id regs (HashMap.get id caps)
  unfolding save_registrations
  get-save_registrations id [] caps = refl
  get-save_registrations id (r ∷ rs) caps =
      get-save_registrations id rs (HashMap.insert r.id r caps)
      ∙ ap (latest id rs) (HashMap.get-insert r.id id r caps)

  get-drop_registrations :
      (id : Text) (regs : List Unregistration) (caps : HashMap Text (Registration V))
      → HashMap.unique caps ≡ true
      → HashMap.get id (drop_registrations regs caps)
        ≡ (if any (λ u. u.id == id) regs then none else HashMap.get id caps)
  unfolding drop_registrations any
  get-drop_registrations id [] caps u = refl
  get-drop_registrations id (r ∷ rs) caps u = ground (
    arith,
    get-drop_registrations id rs (HashMap.remove r.id caps) (HashMap.remove-unique r.id caps u),
    HashMap.get-remove r.id id caps u,
  )

  none_found : (id : Text) (r : Registration V) → HashMap.get id [] ≡ some r → ⊥
  unfolding HashMap.get
  none_found id r h = cc

  In-values :
      (id : Text) (r : Registration V) (caps : HashMap Text (Registration V))
      → HashMap.get id caps ≡ some r
      → In r (HashMap.values caps)
  unfolding HashMap.get
  In-values id r [] h = cc
  In-values id r ((j, s) ∷ caps) h = ground (arith, In-values id r caps)

module _ {V : Type 0} ⦃json : Json V⦄ where
  classify_register :
      (req : Request V)
      → req.method ≡ codes "client/registerCapability"
      → classify req.method ≡ register_capability
  unfolding classify HashSet.contains list_beq
  classify_register req h = rw h

  -- The request that tells a client of some registrations.
  abbrev pub replayed : RegistrationParams V → Request V
  replayed params = record {
    jsonrpc = version;
    method = codes "client/registerCapability";
    params = json.registration_params.to_value params;
    id = tag (string (codes "replay:registerCapabilities")) drop;
  }

  -- What a client that joins is told, if the server has registered anything that still stands.
  add_client_told :
      (self : Instance V) (c : Client) (id : Text) (r : Registration V)
      → HashMap.contains_key c.id self.clients ≡ false
      → HashMap.get id self.dynamic_capabilities ≡ some r
      → (joined : Instance V) × (all : RegistrationParams V) × (add_client self c
          ≡ ok (joined, to_client c.id (request (replayed all)) ∷ []))
        × (HashMap.contains_key c.id joined.clients ≡ true)
        × In r all.registrations
  unfolding add_client replays replay
  add_client_told self c id r new h = by_caps self.dynamic_capabilities refl
    where
      by_caps :
          (caps : HashMap Text (Registration V))
          → self.dynamic_capabilities ≡ caps
          → (joined : Instance V) × (all : RegistrationParams V) × (add_client self c
              ≡ ok (joined, to_client c.id (request (replayed all)) ∷ []))
            × (HashMap.contains_key c.id joined.clients ≡ true)
            × In r all.registrations
      by_caps [] e = absurd (none_found id r (subst (λ cs. HashMap.get id cs ≡ some r) e h))
      by_caps (x ∷ xs) e =
          let entry : ClientData = record { client = c; files = [] } in
          (
            record self { clients = HashMap.insert c.id entry self.clients },
            record { registrations = HashMap.values self.dynamic_capabilities },
            rw (add_client, new, replays, e, replay, e),
            ground (arith, HashMap.contains_key-insert c.id c.id entry self.clients, ==_refl c.id),
            In-values id r self.dynamic_capabilities h,
          )

  registers :
      (self : Instance V) (value : V) (params : RegistrationParams V)
      → json.registration_params.from_value value ≡ some params
      → register_capabilities self value
        ≡ ok (record self {
          dynamic_capabilities = save_registrations params.registrations self.dynamic_capabilities;
        })
  unfolding register_capabilities
  registers self value params parses = rw parses

  unregisters :
      (self : Instance V) (value : V) (params : UnregistrationParams)
      → json.unregistration_params.from_value value ≡ some params
      → unregister_capabilities self value
        ≡ ok (record self {
          dynamic_capabilities =
              drop_registrations params.unregistrations self.dynamic_capabilities;
        })
  unfolding unregister_capabilities
  unregisters self value params parses = rw parses

  classify_unregister :
      (req : Request V)
      → req.method ≡ codes "client/unregisterCapability"
      → classify req.method ≡ unregister_capability
  unfolding classify HashSet.contains list_beq
  classify_unregister req h = rw h

  -- Registrations that the server asks for replace earlier ones under the same id, the last of
  -- several winning, and leave all other ids as they were; and `add_client` lets a client that has a
  -- new number join, and sends it one `client/registerCapability` request, whose answer is dropped,
  -- with what serde makes of registrations among which each is that then stands.
  pub registered_replayed :
      (self : Instance V) (req : Request V) (params : RegistrationParams V) (id : Text)
      (r : Registration V) (c : Client)
      → req.method ≡ codes "client/registerCapability"
      → json.registration_params.from_value req.params ≡ some params
      → latest id params.registrations (HashMap.get id self.dynamic_capabilities) ≡ some r
      → HashMap.contains_key c.id self.clients ≡ false
      → (HashMap.get id (handle_server_message self (request req)).0.dynamic_capabilities ≡ some r)
        × (joined : Instance V) × (all : RegistrationParams V) × (add_client
              (handle_server_message self (request req)).0
              c
            ≡ ok (joined, to_client c.id (request (replayed all)) ∷ []))
        × (HashMap.contains_key c.id joined.clients ≡ true)
        × In r all.registrations
  unfolding handle_server_message handle_request register_capabilities
  registered_replayed self req params id r c h parses last new =
      let t = record self {
        dynamic_capabilities = save_registrations params.registrations self.dynamic_capabilities;
      } in
      let becomes : ◌≡◌ {A = Instance V} (handle_server_message self (request req)).0 t =
        ap (λ k. (handle_request k self req).0) (classify_register req h)
        ∙ ap (or_keep self) (registers self req.params params parses) in
      let stands =
        get-save_registrations id params.registrations self.dynamic_capabilities ∙ last in
      let (joined, all, told, there, member) = add_client_told t c id r new stands in
      rw becomes (stands, joined, all, told, there, member)

  -- What the server unregisters is told to no later client: the id has no registration left. All
  -- other ids keep theirs. It is assumed that no id has two entries, which a hash map grants.
  pub unregistered_gone :
      (self : Instance V) (req : Request V) (params : UnregistrationParams) (id : Text)
      → HashMap.unique self.dynamic_capabilities ≡ true
      → req.method ≡ codes "client/unregisterCapability"
      → json.unregistration_params.from_value req.params ≡ some params
      → HashMap.get id (handle_server_message self (request req)).0.dynamic_capabilities ≡ (
          if any (λ u. u.id == id) params.unregistrations
          then none
          else HashMap.get id self.dynamic_capabilities)
  unfolding handle_server_message handle_request unregister_capabilities
  unregistered_gone self req params id u h parses =
      let t = record self {
        dynamic_capabilities = drop_registrations params.unregistrations self.dynamic_capabilities;
      } in
      let becomes : ◌≡◌ {A = Instance V} (handle_server_message self (request req)).0 t =
        ap (λ k. (handle_request k self req).0) (classify_unregister req h)
        ∙ ap (or_keep self) (unregisters self req.params params parses) in
      rw becomes (get-drop_registrations id params.unregistrations self.dynamic_capabilities u)
