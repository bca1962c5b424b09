-- ===== src/Client/Joining.antt =====
-- What `connect` does to the registry and to its client.
use ra_multiplex.Base.{
  ℕ, ◌≡◌, ◌==◌, nat_eq, Text, List, [], ◌∷◌, Option, some, Bool, false, arith, Outcome, ok,
  if◌then◌else◌,
}
use ra_multiplex.Base.Int.{ℤ}
use ra_multiplex.Base.HashMap
use ra_multiplex.Io.{IoResult}
use ra_multiplex.Lsp.{InitializeParams}
use ra_multiplex.Lsp.Json.{Json}
use ra_multiplex.Lsp.Jsonrpc.{Message, Request}
use ra_multiplex.Instance.{Instance, Client, ClientData, add_client, replays}
use ra_multiplex.Registry.{Registry, Process}
use ra_multiplex.Registry.Spawn.{Child, on_instance}
use ra_multiplex.Client.Connect.{connect, find_instance, greet, greeted, join, initialize_reply}
use ra_multiplex.Client.Workspace.{UriCrates}

module _ {V : Type 0} ⦃json : Json V⦄ (uri : UriCrates) (windows : Bool) where
  -- A client whose instance is found or spawned, and that sends `initialized`, gets the instance's
  -- own `initialize` result under the id of its request, and is then a client of that instance with
  -- no open file; the other clients of the instance, and all other instances, stay as they were.
  -- It is assumed that no client with its id is connected, else `add_client` panics.
  pub connect_joins :
      (self self' : Registry V) (n : ℕ) (server : Text) (args : List Text)
      (env : List (Text × Text)) (cwd : Option Text) (req : Request V) (params : InitializeParams V)
      (child : Child V) (now : ℤ) (write : IoResult (Unit {0}))
      (second : Outcome (Option (Message V))) (h : ℕ) (p : Process V)
      → find_instance uri windows self server args env cwd params child now ≡ ok (self', h)
      → HashMap.get h self'.store ≡ some p
      → HashMap.contains_key n p.instance.clients ≡ false
      → greeted write second ≡ ok tt
      → (t : Registry V) × (q : Process V) × (connect uri windows self n server args env cwd req
            params child now write second
          ≡ (
            t,
            initialize_reply p.instance req ∷ [],
            ok (h, replays p.instance (record { id = n })),
          ))
        × (HashMap.get h t.store ≡ some q)
        × ((m : ℕ)
            → HashMap.get m q.instance.clients ≡ (
                if n == m
                then some (record { client = record { id = n }; files = [] })
                else HashMap.get m p.instance.clients))
        × ((j : ℕ) → (h == j) ≡ false → HashMap.get j t.store ≡ HashMap.get j self'.store)
  unfolding connect greet join add_client
  connect_joins self self' n server args env cwd req params child now write second h p found at
        fresh said =
      let client : Client = record { id = n } in
      let entry : ClientData = record { client = client; files = [] } in
      let after : Instance V = record p.instance {
        clients = HashMap.insert n entry p.instance.clients;
      } in
      (
        record self' { store = HashMap.modify h (on_instance (λ i. after)) self'.store },
        record p { instance = after },
        rw (connect, found, greet, at, said, join, add_client, fresh),
        ground (arith, HashMap.get-modify h h (on_instance (λ i. after)) self'.store),
        λ m. HashMap.get-insert n m entry p.instance.clients,
        λ j other. ground (arith, HashMap.get-modify h j (on_instance (λ i. after)) self'.store),
      )
