-- ===== src/System/Refinement.antt =====
-- The server as a whole does to the map of instances only what the steps of the registry are.
use ra_multiplex.Base.{
  ℕ, zero, suc, Text, List, Option, some, Option-cases, Bool, ◌≡◌, refl, ap, inl, inr, arith, ok,
  err, panic, Outcome, nat_eq,
}
use ra_multiplex.Base.Int.{ℤ}
use ra_multiplex.Base.Fallible.{◌>>=◌}
use ra_multiplex.Base.HashMap
use ra_multiplex.Base.HashMap.{HashMap}
use ra_multiplex.Io.{IoResult}
use ra_multiplex.Effect.{Effect}
use ra_multiplex.Lsp.{InitializeParams}
use ra_multiplex.Lsp.Json.{Json}
use ra_multiplex.Lsp.Jsonrpc.{Message, Request}
use ra_multiplex.Instance.{Instance, InstanceKey, Client, add_client}
use ra_multiplex.Instance.Stdout.{handle_server_message}
use ra_multiplex.Client.Connect.{
  connect, find_instance, greet, greeted, go_on, settle, join, initialize_reply,
}
use ra_multiplex.Client.Workspace.{UriCrates, select_workspace_root}
use ra_multiplex.Registry.{Registry, Process, empty}
use ra_multiplex.Registry.Spawn.{Child, on_instance}
use ra_multiplex.Registry.Invariant.{Reach-IsSound}
use ra_multiplex.Registry.Sound.{IsSound}
use ra_multiplex.Registry.Steps
use ra_multiplex.Session.Identity.{
  add_client-SameKey, handle_client_message-SameKey, handle_server_message-SameKey,
  cleanup_client-SameKey,
}
use ra_multiplex.System.{
  System, started, becomes, Step, accepts, connects, client_says, server_says, leaves, collects,
  kills, exits, Reach, here, next,
}

module _ {V : Type 0} ⦃json : Json V⦄ where
  -- A new state of an instance that keeps its key.
  works_on :
      (r : Registry V) (h : ℕ) (p : Process V) (i : Instance V)
      → HashMap.get h r.store ≡ some p
      → i.key ≡ p.instance.key
      → Steps.Step r (becomes r h i)
  works_on r h p i at same =
      let keyed : Instance V → Instance V = λ j. record i { key = j.key } in
      let agrees : on_instance (λ j. i) p ≡ on_instance keyed p =
        ap (λ k. on_instance {V = V} (λ j. record i { key = k }) p) same in
      Steps.works h keyed (λ j. refl)
        (ap (λ s. record r { store = s })
          (HashMap.modify-agrees h (on_instance (λ j. i)) (on_instance keyed) p r.store at agrees))

  entered :
      (self : Registry V) (h : ℕ) (p : Process V) (client : Client) (reply : Message V)
      (o : Outcome (Instance V × List (Effect V)))
      → HashMap.get h self.store ≡ some p
      → add_client p.instance client ≡ o
      → Steps.Reach self (settle self h reply (o >>= λ r. ok (becomes self h r.0, r.1))).0
  entered self h p client reply (ok (i, es)) at adds =
      Steps.next Steps.here (works_on self h p i at (add_client-SameKey p.instance client adds))
  entered self h p client reply (err e) at adds = Steps.here
  entered self h p client reply panic at adds = Steps.here

  settled :
      (self : Registry V) (h : ℕ) (p : Process V) (client : Client) (reply : Message V)
      (o : Outcome (Unit {0}))
      → HashMap.get h self.store ≡ some p
      → Steps.Reach self (settle self h reply (o >>= λ u. join self h p.instance client)).0
  unfolding join
  settled self h p client reply (ok u) at =
      entered self h p client reply (add_client p.instance client) at refl
  settled self h p client reply (err e) at = Steps.here
  settled self h p client reply panic at = Steps.here

  greeted_registry :
      (self : Registry V) (h : ℕ) (client : Client) (req : Request V) (write : IoResult (Unit {0}))
      (second : Outcome (Option (Message V)))
      → Steps.Reach self (greet self h client req write second).0
  unfolding greet
  greeted_registry self h client req write second = elim (Option-cases (HashMap.get h self.store)) [
    | inl e ↦ rw (greet, e) Steps.here
    | inr (p, e) ↦
        rw (greet, e)
          (settled self h p client (initialize_reply p.instance req) (greeted write second) e)
  ]

  both : {r s t : Registry V} → Steps.Reach r s → Steps.Reach s t → Steps.Reach r t
  both a Steps.here = a
  both a (Steps.next b st) = Steps.next (both a b) st

  module _ (uri : UriCrates) (windows : Bool) where
    found :
        (self after : Registry V) (server : Text) (args : List Text) (env : List (Text × Text))
        (cwd : Option Text) (params : InitializeParams V) (child : Child V) (now : ℤ) (h : ℕ)
        → find_instance uri windows self server args env cwd params child now ≡ ok (after, h)
        → Steps.Reach self after
    unfolding find_instance
    found self after server args env cwd params child now h e =
        by_root (select_workspace_root uri windows params cwd) refl
      where
        by_root :
            (o : Outcome Text)
            → select_workspace_root uri windows params cwd ≡ o
            → Steps.Reach self after
        by_root (ok root) s =
            let key : InstanceKey = record {
              server = server;
              args = args;
              env = env;
              workspace_root = root;
            } in
            Steps.next Steps.here (Steps.connects key params child now h (ground arith))
        by_root (err x) s = ground arith
        by_root panic s = ground arith

    went_on :
        (self : Registry V) (client : Client) (req : Request V) (write : IoResult (Unit {0}))
        (second : Outcome (Option (Message V))) (o : Outcome (Registry V × ℕ))
        → ((after : Registry V) (h : ℕ) → o ≡ ok (after, h) → Steps.Reach self after)
        → Steps.Reach self (go_on uri windows self client req write second o).0
    went_on self client req write second (ok (after, h)) finds =
        both (finds after h refl) (greeted_registry after h client req write second)
    went_on self client req write second (err x) finds = Steps.here
    went_on self client req write second panic finds = Steps.here

    connected_registry :
        (self : Registry V) (n : ℕ) (server : Text) (args : List Text) (env : List (Text × Text))
        (cwd : Option Text) (req : Request V) (params : InitializeParams V) (child : Child V)
        (now : ℤ) (write : IoResult (Unit {0})) (second : Outcome (Option (Message V)))
        → Steps.Reach self
            (connect uri windows self n server args env cwd req params child now write second).0
    unfolding connect
    connected_registry self n server args env cwd req params child now write second =
        went_on self (record { id = n }) req write second
          (find_instance uri windows self server args env cwd params child now)
          (λ after h e. found self after server args env cwd params child now h e)

    -- A step of the server is a run of the registry: none of its steps, one, or two for `connect`.
    step_registry : {s t : System V} → Step uri windows s t → Steps.Reach s.registry t.registry
    step_registry (accepts e) = rw e Steps.here
    step_registry {s} (connects n server args env cwd req params child now write second waits e) =
        rw e (connected_registry s.registry n server args env cwd req params child now write second)
    step_registry {s} (client_says h p c now sent m i es flow at says e) = rw e (
        Steps.next Steps.here (
          works_on s.registry h p i at
            (handle_client_message-SameKey p.instance c now sent m says)))
    step_registry {s} (server_says h p m at e) = rw e (
        Steps.next Steps.here (
          works_on s.registry h p (handle_server_message p.instance m).0 at
            (handle_server_message-SameKey p.instance m)))
    step_registry {s} (leaves h p c i es at left e) = rw e (
        Steps.next Steps.here
          (works_on s.registry h p i at (cleanup_client-SameKey p.instance c left)))
    step_registry {s} (collects timeout now e) =
        rw e (Steps.next Steps.here (Steps.collects timeout now refl))
    step_registry {s} (kills h e) = rw e (Steps.next Steps.here (Steps.kills h refl))
    step_registry {s} (exits h p at up e) =
        rw e (Steps.next Steps.here (Steps.exits h p at up refl))

    reach_registry :
        (n : ℕ) {t : System V} → Reach uri windows started n t → Steps.Reach empty t.registry
    reach_registry zero here = Steps.here
    reach_registry (suc n) (next r st) = both (reach_registry n r) (step_registry st)

    -- The server as a whole refines the registry: whatever its connections, clients, instances and
    -- children do, its map of instances is in a state that the steps of the registry alone reach from
    -- the empty map. So it has an entry for exactly the running children, each under its own key,
    -- and handles are fresh.
    pub registry_refined :
        (n : ℕ) (t : System V)
        → Reach uri windows started n t
        → Steps.Reach empty t.registry × IsSound t.registry
    registry_refined n t r = (reach_registry n r, Reach-IsSound t.registry (reach_registry n r))
