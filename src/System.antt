-- ===== src/System.antt =====
-- The server as a whole (src/server.rs, src/client.rs, src/instance.rs): connections get numbers,
-- connect to instances, and their tasks run with those of the instances, in any order.
pub mod Connected
pub mod Connecting
pub mod Untouched
pub mod Fresh
pub mod Joining
pub mod Trace
pub mod Kept
pub mod Entering
pub mod Instances
pub mod Refinement
use ra_multiplex.Base.{
  ℕ, suc, Text, List, [], ◌∷◌, Option, some, Bool, true, not, keep, ◌==◌, nat_eq, In, ◌≡◌, ok,
  Outcome,
}
use ra_multiplex.Base.Int.{ℤ}
use ra_multiplex.Base.HashMap
use ra_multiplex.Base.HashMap.{HashMap}
use ra_multiplex.Io.{IoResult}
use ra_multiplex.Effect.{Effect}
use ra_multiplex.Lsp.{InitializeParams}
use ra_multiplex.Lsp.Json.{Json}
use ra_multiplex.Lsp.Jsonrpc.{Message, Request}
use ra_multiplex.Instance.{Instance, Client, cleanup_client}
use ra_multiplex.Instance.Stdout.{handle_server_message}
use ra_multiplex.Client.Output.{Flow, handle_client_message}
use ra_multiplex.Client.Connect.{connect}
use ra_multiplex.Client.Workspace.{UriCrates}
use ra_multiplex.Registry.{Registry, Process, empty}
use ra_multiplex.Registry.Spawn.{Child, on_instance, gc_round, child_exit, notified}
use ra_multiplex.Server.{next_client_id}

-- `waiting` holds the numbers of the connections that were accepted and have not been through
-- `connect`; `counter` is what `next_client_id` counts with.
pub record System (V : Type 0) : Type 0 where
  pub registry : Registry V
  pub waiting : List ℕ
  pub counter : ℕ

-- A server that has accepted nothing.
abbrev pub started : {V : Type 0} → System V
started = record { registry = empty; waiting = []; counter = 0 }

-- The instance behind a handle becomes another.
abbrev pub becomes : {V : Type 0} → Registry V → ℕ → Instance V → Registry V
becomes r h i = record r { store = HashMap.modify h (on_instance (λ j. i)) r.store }

module _ {V : Type 0} ⦃json : Json V⦄ (uri : UriCrates) (windows : Bool) where
  -- The state behind a call of `connect` for the connection with the number `n`, however it ends.
  abbrev pub connected :
      System V
      → ℕ
      → Text
      → List Text
      → List (Text × Text)
      → Option Text
      → Request V
      → InitializeParams V
      → Child V
      → ℤ
      → IoResult (Unit {0})
      → Outcome (Option (Message V))
      → System V
  connected s n server args env cwd req params child now write second = record s {
    registry =
        (connect uri windows s.registry n server args env cwd req params child now write second).0;
    waiting = keep (λ m. not (m == n)) s.waiting;
  }

  -- `accepts` is a round of the accept loop; `connects` what the connection's own task does first;
  -- `client_says` and `server_says` are rounds of the tasks of an instance, `leaves` the end of one;
  -- `collects`, `kills` and `exits` are what the garbage collector and the child's own task do.
  pub data Step (s t : System V) : Type 0 where
    accepts :
        t ≡ record s {
          waiting = (next_client_id s.counter).0 ∷ s.waiting;
          counter = (next_client_id s.counter).1;
        }
        → Step s t
    connects :
        (n : ℕ) (server : Text) (args : List Text) (env : List (Text × Text)) (cwd : Option Text)
        (req : Request V) (params : InitializeParams V) (child : Child V) (now : ℤ)
        (write : IoResult (Unit {0})) (second : Outcome (Option (Message V)))
        → In n s.waiting
        → t ≡ connected s n server args env cwd req params child now write second
        → Step s t
    client_says :
        (h : ℕ) (p : Process V) (c : Client) (now : ℤ) (sent : Bool) (m : Message V)
        (i : Instance V) (es : List (Effect V)) (flow : Flow)
        → HashMap.get h s.registry.store ≡ some p
        → handle_client_message p.instance c now sent m ≡ ok (i, es, flow)
        → t ≡ record s { registry = becomes s.registry h i }
        → Step s t
    server_says :
        (h : ℕ) (p : Process V) (m : Message V)
        → HashMap.get h s.registry.store ≡ some p
        → t ≡ record s { registry = becomes s.registry h (handle_server_message p.instance m).0 }
        → Step s t
    leaves :
        (h : ℕ) (p : Process V) (c : Client) (i : Instance V) (es : List (Effect V))
        → HashMap.get h s.registry.store ≡ some p
        → cleanup_client p.instance c ≡ ok (i, es)
        → t ≡ record s { registry = becomes s.registry h i }
        → Step s t
    collects :
        (timeout : Option ℕ) (now : ℤ)
        → t ≡ record s { registry = gc_round timeout now s.registry }
        → Step s t
    kills : (h : ℕ) → t ≡ record s { registry = notified s.registry h } → Step s t
    exits :
        (h : ℕ) (p : Process V)
        → HashMap.get h s.registry.store ≡ some p
        → p.running ≡ true
        → t ≡ record s { registry = child_exit s.registry h p }
        → Step s t

  -- So many steps.
  pub data Reach (s : System V) : ℕ → System V → Type 0 where
    here : Reach s 0 s
    next : {k : ℕ} {t u : System V} → Reach s k t → Step t u → Reach s (suc k) u
