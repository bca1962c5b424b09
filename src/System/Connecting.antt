-- ===== src/System/Connecting.antt =====
-- Which numbers are clients behind a call of `connect`.
use ra_multiplex.Base.{
  ℕ, Text, List, [], Option, none, some, Option-cases, Bool, Bool-cases, true, nat_eq, ◌≡◌, refl,
  sym, ◌⊎◌, inl, inr, subst, arith, ok, err, panic, Outcome,
}
use ra_multiplex.Base.Int.{ℤ}
use ra_multiplex.Base.Fallible.{◌>>=◌}
use ra_multiplex.Base.HashMap
use ra_multiplex.Base.HashMap.{HashMap}
use ra_multiplex.Io.{IoResult}
use ra_multiplex.Effect.{Effect}
use ra_multiplex.Lsp.{InitializeParams}
use ra_multiplex.Lsp.Json.{Json}
use ra_multiplex.Lsp.Jsonrpc.{Message, Request}
use ra_multiplex.Instance.{Instance, InstanceKey, Client, ClientData, add_client}
use ra_multiplex.Client.Connect.{
  connect, find_instance, greet, greeted, go_on, settle, join, initialize_reply,
}
use ra_multiplex.Client.Workspace.{UriCrates, select_workspace_root}
use ra_multiplex.Registry.{Registry, Process, key_eq}
use ra_multiplex.Registry.Spawn.{Child, spawn, get_or_spawn, on_instance}
use ra_multiplex.System.Connected.{IsConnected, insert-IsConnected, enter-IsConnected}

module _ {V : Type 0} ⦃json : Json V⦄ (m : ℕ) where
  join-IsConnected :
      (self after : Registry V) (h : ℕ) (p : Process V) (client : Client) (es : List (Effect V))
      → HashMap.get h self.store ≡ some p
      → join self h p.instance client ≡ ok (after, es)
      → IsConnected m after.store
      → (client.id ≡ m) ⊎ IsConnected m self.store
  unfolding join add_client
  join-IsConnected self after h p client es at joins c =
      let d : ClientData = record { client = client; files = [] } in
      let i : Instance V = record p.instance {
        clients = HashMap.insert client.id d p.instance.clients;
      } in
      elim (Bool-cases (HashMap.contains_key client.id p.instance.clients)) [
        | inl taken ↦ ground arith
        | inr free ↦
            let same : after.store ≡ HashMap.modify h (on_instance (λ j. i)) self.store =
              ground arith in
            enter-IsConnected m h p client i d self.store at refl (subst (IsConnected m) same c)
      ]

  settle-IsConnected :
      (self : Registry V) (h : ℕ) (p : Process V) (client : Client) (reply : Message V)
      (o : Outcome (Unit {0})) (r : Outcome (Registry V × List (Effect V)))
      → HashMap.get h self.store ≡ some p
      → r ≡ (o >>= λ u. join self h p.instance client)
      → IsConnected m (settle self h reply r).0.store
      → (client.id ≡ m) ⊎ IsConnected m self.store
  settle-IsConnected self h p client reply (ok u) (ok (after, es)) at e c =
      join-IsConnected self after h p client es at (sym e) c
  settle-IsConnected self h p client reply (err x) (ok (after, es)) at e c = ground arith
  settle-IsConnected self h p client reply panic (ok (after, es)) at e c = ground arith
  settle-IsConnected self h p client reply o (err x) at e c = inr c
  settle-IsConnected self h p client reply o panic at e c = inr c

  greet-IsConnected :
      (self : Registry V) (h : ℕ) (client : Client) (req : Request V) (write : IoResult (Unit {0}))
      (second : Outcome (Option (Message V)))
      → IsConnected m (greet self h client req write second).0.store
      → (client.id ≡ m) ⊎ IsConnected m self.store
  unfolding greet
  greet-IsConnected self h client req write second c =
      elim (Option-cases (HashMap.get h self.store)) [
        | inl e ↦
            let same : (greet self h client req write second).0.store ≡ self.store =
              rw (greet, e) in
            inr (subst (IsConnected m) same c)
        | inr (p, e) ↦
            let reply = initialize_reply p.instance req in
            let r : Outcome (Registry V × List (Effect V)) =
              greeted write second >>= λ u. join self h p.instance client in
            let same : (greet self h client req write second).0.store
                ≡ (settle self h reply r).0.store =
              rw (greet, e) in
            settle-IsConnected self h p client reply (greeted write second) r e refl
              (subst (IsConnected m) same c)
      ]

  pub spawn-clients :
      (key : InstanceKey) (params : InitializeParams V) (child : Child V) (now : ℤ) (i : Instance V)
      → spawn key params child now ≡ ok i
      → i.clients ≡ []
  unfolding spawn
  spawn-clients key params child now i h = ground arith

  -- Finding an instance brings no client, and a spawned one has none.
  get_or_spawn-IsConnected :
      (self after : Registry V) (key : InstanceKey) (params : InitializeParams V) (child : Child V)
      (now : ℤ) (h : ℕ)
      → get_or_spawn self key params child now ≡ ok (after, h)
      → IsConnected m after.store
      → IsConnected m self.store
  unfolding get_or_spawn
  get_or_spawn-IsConnected self after key params child now h e c =
      elim (Option-cases (HashMap.get key self.entries)) [
        | inl vacant ↦ spawned (spawn key params child now) refl vacant
        | inr (j, found) ↦
            let same : after.store ≡ self.store = ground arith in subst (IsConnected m) same c
      ]
    where
      spawned :
          (o : Outcome (Instance V))
          → spawn key params child now ≡ o
          → HashMap.get key self.entries ≡ none
          → IsConnected m self.store
      spawned (ok i) s vacant =
          let q : Process V = record { instance = i; running = true } in
          let same : after.store ≡ HashMap.insert self.next q self.store = ground arith in
          insert-IsConnected m self.next q self.store (spawn-clients key params child now i s)
            (subst (IsConnected m) same c)
      spawned (err x) s vacant = ground arith
      spawned panic s vacant = ground arith

  module _ (uri : UriCrates) (windows : Bool) where
    pub find_instance-IsConnected :
        (self after : Registry V) (server : Text) (args : List Text) (env : List (Text × Text))
        (cwd : Option Text) (params : InitializeParams V) (child : Child V) (now : ℤ) (h : ℕ)
        → find_instance uri windows self server args env cwd params child now ≡ ok (after, h)
        → IsConnected m after.store
        → IsConnected m self.store
    unfolding find_instance
    find_instance-IsConnected self after server args env cwd params child now h e c =
        by_root (select_workspace_root uri windows params cwd) refl
      where
        by_root :
            (o : Outcome Text)
            → select_workspace_root uri windows params cwd ≡ o
            → IsConnected m self.store
        by_root (ok root) s =
            get_or_spawn-IsConnected self after
              (record { server = server; args = args; env = env; workspace_root = root }) params
              child now h (ground arith) c
        by_root (err x) s = ground arith
        by_root panic s = ground arith

    go_on-IsConnected :
        (self : Registry V) (client : Client) (req : Request V) (write : IoResult (Unit {0}))
        (second : Outcome (Option (Message V))) (o : Outcome (Registry V × ℕ))
        → ((after : Registry V) (h : ℕ)
            → o ≡ ok (after, h)
            → IsConnected m after.store
            → IsConnected m self.store)
        → IsConnected m (go_on uri windows self client req write second o).0.store
        → (client.id ≡ m) ⊎ IsConnected m self.store
    go_on-IsConnected self client req write second (ok (after, h)) older c =
        elim (greet-IsConnected after h client req write second c) [
          | inl own ↦ inl own
          | inr there ↦ inr (older after h refl there)
        ]
    go_on-IsConnected self client req write second (err e) older c = inr c
    go_on-IsConnected self client req write second panic older c = inr c

    -- Behind `connect` for the client `n` only `n` may be a client that was none before.
    pub connect-IsConnected :
        (self : Registry V) (n : ℕ) (server : Text) (args : List Text) (env : List (Text × Text))
        (cwd : Option Text) (req : Request V) (params : InitializeParams V) (child : Child V)
        (now : ℤ) (write : IoResult (Unit {0})) (second : Outcome (Option (Message V)))
        → IsConnected m
            (connect uri windows self n server args env cwd req params child now write
              second).0.store
        → (n ≡ m) ⊎ IsConnected m self.store
    unfolding connect
    connect-IsConnected self n server args env cwd req params child now write second c =
        go_on-IsConnected self (record { id = n }) req write second
          (find_instance uri windows self server args env cwd params child now)
          (λ after h e there.
            find_instance-IsConnected self after server args env cwd params child now h e there)
          c
