-- ===== src/System/Joining.antt =====
-- A connection that was accepted joins its instance.
use ra_multiplex.Base.{
  ℕ, zero, suc, ◌+◌, ◌≤◌, ◌<◌, Text, List, [], ◌∷◌, Option, some, Bool, Bool-cases, false, In,
  nat_eq, ◌≡◌, ◌∙◌, inl, inr, arith, ok, Outcome,
}
use ra_multiplex.Base.Int.{ℤ}
use ra_multiplex.Base.HashMap
use ra_multiplex.Base.HashMap.{HashMap}
use ra_multiplex.Str.Decimal.{usize_max}
use ra_multiplex.Io.{IoResult}
use ra_multiplex.Lsp.{InitializeParams}
use ra_multiplex.Lsp.Json.{Json}
use ra_multiplex.Lsp.Jsonrpc.{Message, Request}
use ra_multiplex.Instance.{replays}
use ra_multiplex.Client.Connect.{connect, find_instance, greeted, initialize_reply}
use ra_multiplex.Client.Joining.{connect_joins}
use ra_multiplex.Client.Workspace.{UriCrates}
use ra_multiplex.Registry.{Registry, Process}
use ra_multiplex.Registry.Spawn.{Child}
use ra_multiplex.System.{
  System, started, Step, accepts, connects, client_says, server_says, leaves, collects, kills,
  exits, Reach, here, next,
}
use ra_multiplex.System.Connecting.{find_instance-IsConnected}
use ra_multiplex.System.Fresh.{IsFresh, counts_up, Step-IsFresh}

module _ {V : Type 0} ⦃json : Json V⦄ (uri : UriCrates) (windows : Bool) where
  Step-counter :
      {s t : System V} → Step uri windows s t → s.counter < usize_max → t.counter ≤ suc s.counter
  Step-counter {s} (accepts e) low = rw (e, counts_up s.counter low) (omega arith)
  Step-counter {s} (connects n server args env cwd req params child now write second waits e) low =
      rw e (omega arith)
  Step-counter {s} (client_says h p c now sent m i es flow at says e) low = rw e (omega arith)
  Step-counter {s} (server_says h p m at e) low = rw e (omega arith)
  Step-counter {s} (leaves h p c i es at left e) low = rw e (omega arith)
  Step-counter {s} (collects timeout now e) low = rw e (omega arith)
  Step-counter {s} (kills h e) low = rw e (omega arith)
  Step-counter {s} (exits h p at up e) low = rw e (omega arith)

  Reach-counter :
      (k : ℕ) (s t : System V)
      → Reach uri windows s k t
      → s.counter + k ≤ usize_max
      → t.counter ≤ s.counter + k
  Reach-counter zero s t here low = omega arith
  Reach-counter (suc k) s t (next r st) low =
      let before = Reach-counter k s _ r (omega arith) in
      let step = Step-counter st (omega arith) in omega arith

  started-IsFresh : IsFresh (started {V = V})
  unfolding HashMap.get
  started-IsFresh = record {
    waiting_low = λ n w. absurd w;
    clients_low = λ n c. absurd (let got = c.at in cc);
    apart = λ n w c. w;
  }

  Reach-IsFresh : (k : ℕ) (s : System V) → Reach uri windows started k s → k ≤ usize_max → IsFresh s
  Reach-IsFresh zero s here low = started-IsFresh
  Reach-IsFresh (suc k) s (next r st) low =
      let before = Reach-counter k started _ r (omega arith) in
      Step-IsFresh uri windows st (omega arith) (Reach-IsFresh k _ r (omega arith))

  -- In every state that a server reaches in fewer than 2 ^ 64 steps, a connection that waits has a
  -- number that no client of any instance has. So when it has found its instance and has sent
  -- `initialized`, it becomes a client of that instance, with no file open, and `add_client` does not
  -- panic.
  pub connection_joins :
      (k : ℕ) (s : System V) (self : Registry V) (n : ℕ) (server : Text) (args : List Text)
      (env : List (Text × Text)) (cwd : Option Text) (req : Request V) (params : InitializeParams V)
      (child : Child V) (now : ℤ) (write : IoResult (Unit {0}))
      (second : Outcome (Option (Message V))) (h : ℕ) (p : Process V)
      → Reach uri windows started k s
      → k ≤ usize_max
      → In n s.waiting
      → find_instance uri windows s.registry server args env cwd params child now ≡ ok (self, h)
      → HashMap.get h self.store ≡ some p
      → greeted write second ≡ ok tt
      → (t : Registry V) × (q : Process V) × (connect uri windows s.registry n server args env cwd
            req params child now write second
          ≡ (
            t,
            initialize_reply p.instance req ∷ [],
            ok (h, replays p.instance (record { id = n })),
          ))
        × (HashMap.get h t.store ≡ some q)
        × (HashMap.get n q.instance.clients
            ≡ some (record { client = record { id = n }; files = [] }))
  connection_joins k s self n server args env cwd req params child now write second h p r low waits
        found at said =
      let v = Reach-IsFresh k s r low in
      let free : HashMap.contains_key n p.instance.clients ≡ false =
        elim (Bool-cases (HashMap.contains_key n p.instance.clients)) [
          | inl taken ↦ absurd (
              v.apart n waits (
                find_instance-IsConnected n uri windows s.registry self server args env cwd params
                  child now h found (record { handle = h; process = p; at = at; among = taken })))
          | inr e ↦ e
        ] in
      let (t, q, joins, stored, clients, others) =
        connect_joins uri windows s.registry self n server args env cwd req params child now write
          second h p found at free said in
      (t, q, joins, stored, clients n ∙ ground (arith, nat_eq.beq_iff n n))
