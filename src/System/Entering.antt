-- ===== src/System/Entering.antt =====
-- What a call of `connect` keeps for the instances.
use ra_multiplex.Base.{
  ℕ, suc, Text, List, ◌++◌, Option, none, some, Option-cases, Bool, true, ◌≡◌, refl, inl, inr,
  arith, ok, err, panic, Outcome, nat_eq,
}
use ra_multiplex.Base.Int.{ℤ}
use ra_multiplex.Base.Fallible.{◌>>=◌}
use ra_multiplex.Base.HashMap
use ra_multiplex.Base.HashMap.{HashMap}
use ra_multiplex.Io.{IoResult}
use ra_multiplex.Effect.{Effect}
use ra_multiplex.Lsp.{InitializeParams}
use ra_multiplex.Lsp.Json.{Json}
use ra_multiplex.Lsp.Jsonrpc.{Message, Request}
use ra_multiplex.Instance.{Instance, InstanceKey, Client, add_client}
use ra_multiplex.Client.Connect.{
  Connected, connect, find_instance, greet, greeted, go_on, settle, join, initialize_reply,
}
use ra_multiplex.Client.Workspace.{UriCrates, select_workspace_root}
use ra_multiplex.Registry.{Registry, Process, key_eq}
use ra_multiplex.Registry.Spawn.{Child, spawn, get_or_spawn, on_instance}
use ra_multiplex.Session.Steps
use ra_multiplex.System.Connecting.{spawn-clients}
use ra_multiplex.System.Trace.{joining}
use ra_multiplex.System.Kept.{Invariant, IsKept, silent, modify-IsKept, insert-IsKept}

module _ {V : Type 0} ⦃json : Json V⦄ (inv : Invariant V) (logs : ℕ → List (Effect V)) where
  -- The invariant of a registry, with logs of their own.
  abbrev Keeps : Registry V → (ℕ → List (Effect V)) → Type 0
  Keeps r ls = IsKept inv r.store r.next ls

  -- What `connect` leaves, with what it sent.
  abbrev pub KeepsConnected : Connected V → Type 0
  KeepsConnected (r, replies, end) = Keeps r (λ k. logs k ++ joining end k)

  entered :
      (self : Registry V) (h : ℕ) (p : Process V) (client : Client)
      (o : Outcome (Instance V × List (Effect V)))
      → HashMap.get h self.store ≡ some p
      → add_client p.instance client ≡ o
      → Keeps self logs
      → (reply : Message V)
      → KeepsConnected (
          settle self h reply (
            o >>= λ r.
            ok (record self { store = HashMap.modify h (on_instance (λ i. r.0)) self.store }, r.1)))
  entered self h p client (ok (i, es)) at adds v reply =
      modify-IsKept inv self.store self.next logs h (on_instance (λ j. i)) p es at
        (λ up. (
          up,
          inv.in_steps {s = record { instance = p.instance; log = logs h }}
              {t = record { instance = i; log = logs h ++ es }} (Steps.join client i es adds refl),
        ))
        v
  entered self h p client (err e) at adds v reply = silent inv self.store self.next logs v
  entered self h p client panic at adds v reply = silent inv self.store self.next logs v

  settled :
      (self : Registry V) (h : ℕ) (p : Process V) (client : Client) (reply : Message V)
      (o : Outcome (Unit {0}))
      → HashMap.get h self.store ≡ some p
      → Keeps self logs
      → KeepsConnected (settle self h reply (o >>= λ u. join self h p.instance client))
  unfolding join
  settled self h p client reply (ok u) at v =
      entered self h p client (add_client p.instance client) at refl v reply
  settled self h p client reply (err e) at v = silent inv self.store self.next logs v
  settled self h p client reply panic at v = silent inv self.store self.next logs v

  greet-Keeps :
      (self : Registry V) (h : ℕ) (client : Client) (req : Request V) (write : IoResult (Unit {0}))
      (second : Outcome (Option (Message V)))
      → Keeps self logs
      → KeepsConnected (greet self h client req write second)
  unfolding greet
  greet-Keeps self h client req write second v = elim (Option-cases (HashMap.get h self.store)) [
    | inl e ↦ rw (greet, e) (silent inv self.store self.next logs v)
    | inr (p, e) ↦
        rw (greet, e)
          (settled self h p client (initialize_reply p.instance req) (greeted write second) e v)
  ]

  spawned :
      (self after : Registry V) (key : InstanceKey) (params : InitializeParams V) (child : Child V)
      (now : ℤ) (h : ℕ)
      → get_or_spawn self key params child now ≡ ok (after, h)
      → Keeps self logs
      → Keeps after logs
  unfolding get_or_spawn
  spawned self after key params child now h e v =
      elim (Option-cases (HashMap.get key self.entries)) [
        | inl vacant ↦ fresh (spawn key params child now) refl vacant
        | inr (j, found) ↦
            let store : after.store ≡ self.store = ground arith in
            let next : after.next ≡ self.next = ground arith in rw (store, next) v
      ]
    where
      fresh :
          (o : Outcome (Instance V))
          → spawn key params child now ≡ o
          → HashMap.get key self.entries ≡ none
          → Keeps after logs
      fresh (ok i) s vacant =
          let q : Process V = record { instance = i; running = true } in
          let store : after.store ≡ HashMap.insert self.next q self.store = ground arith in
          let next : after.next ≡ suc self.next = ground arith in
          rw (store, next)
            (insert-IsKept inv self.store self.next logs q
              (spawn-clients 0 key params child now i s) v)
      fresh (err x) s vacant = ground arith
      fresh panic s vacant = ground arith

  module _ (uri : UriCrates) (windows : Bool) where
    found-Keeps :
        (self after : Registry V) (server : Text) (args : List Text) (env : List (Text × Text))
        (cwd : Option Text) (params : InitializeParams V) (child : Child V) (now : ℤ) (h : ℕ)
        → find_instance uri windows self server args env cwd params child now ≡ ok (after, h)
        → Keeps self logs
        → Keeps after logs
    unfolding find_instance
    found-Keeps self after server args env cwd params child now h e v =
        by_root (select_workspace_root uri windows params cwd) refl
      where
        by_root :
            (o : Outcome Text) → select_workspace_root uri windows params cwd ≡ o → Keeps after logs
        by_root (ok root) s =
            spawned self after
              (record { server = server; args = args; env = env; workspace_root = root }) params
              child now h (ground arith) v
        by_root (err x) s = ground arith
        by_root panic s = ground arith

    go_on-Keeps :
        (self : Registry V) (client : Client) (req : Request V) (write : IoResult (Unit {0}))
        (second : Outcome (Option (Message V))) (o : Outcome (Registry V × ℕ))
        → ((after : Registry V) (h : ℕ) → o ≡ ok (after, h) → Keeps after logs)
        → Keeps self logs
        → KeepsConnected (go_on uri windows self client req write second o)
    go_on-Keeps self client req write second (ok (after, h)) found v =
        greet-Keeps after h client req write second (found after h refl)
    go_on-Keeps self client req write second (err x) found v =
        silent inv self.store self.next logs v
    go_on-Keeps self client req write second panic found v = silent inv self.store self.next logs v

    pub connect-Keeps :
        (self : Registry V) (n : ℕ) (server : Text) (args : List Text) (env : List (Text × Text))
        (cwd : Option Text) (req : Request V) (params : InitializeParams V) (child : Child V)
        (now : ℤ) (write : IoResult (Unit {0})) (second : Outcome (Option (Message V)))
        → Keeps self logs
        → KeepsConnected
            (connect uri windows self n server args env cwd req params child now write second)
    unfolding connect
    connect-Keeps self n server args env cwd req params child now write second v =
        go_on-Keeps self (record { id = n }) req write second
          (find_instance uri windows self server args env cwd params child now)
          (λ after h e. found-Keeps self after server args env cwd params child now h e v) v
