-- ===== src/System/Instances.antt =====
-- Every instance of the server as a session: what its clients have open, and what it was told.
use ra_multiplex.Base.{
  ℕ, zero, suc, Text, List, [], ◌∷◌, ◌++◌, Option, some, Bool, true, false, ◌≡◌, refl, arith, any,
  nat_eq,
}
use ra_multiplex.Base.Int.{ℤ}
use ra_multiplex.Base.HashMap
use ra_multiplex.Base.HashMap.{HashMap}
use ra_multiplex.Effect.{Effect, server_messages}
use ra_multiplex.Lsp.Json.{Json, RoundTrips}
use ra_multiplex.Instance.{has_open}
use ra_multiplex.Instance.Stdout.{handle_server_message}
use ra_multiplex.Client.Workspace.{UriCrates}
use ra_multiplex.Registry.{Process}
use ra_multiplex.Registry.Spawn.{
  on_instance, stopped, gc_instance, gc_handles, gc_round, child_exit, notified,
}
use ra_multiplex.Session.Clients.{keyed}
use ra_multiplex.Session.Documents.{unopened, receive_all}
use ra_multiplex.Session.Files.{told, after}
use ra_multiplex.Session.Invariant.{IsOrdered, Step-InStep, Step-IsOrdered}
use ra_multiplex.Session.Steps
use ra_multiplex.System.{
  System, started, Step, accepts, connects, client_says, server_says, leaves, collects, kills,
  exits, Reach, here, next,
}
use ra_multiplex.System.Fresh.{gc_instance-clients}
use ra_multiplex.System.Trace.{step_log, trace_log}
use ra_multiplex.System.Kept.{Invariant, IsKept, silent, modify-IsKept, quiet_change}
use ra_multiplex.System.Entering.{connect-Keeps}

module _ {V : Type 0} ⦃json : Json V⦄ (inv : Invariant V) where
  gc_handles-IsKept :
      (timeout : Option ℕ) (now : ℤ) (hs : List ℕ) (store : HashMap ℕ (Process V)) (free : ℕ)
      (logs : ℕ → List (Effect V))
      → IsKept inv store free logs
      → IsKept inv (gc_handles timeout now hs store) free logs
  unfolding gc_handles
  gc_handles-IsKept timeout now [] store free logs v = v
  gc_handles-IsKept timeout now (h ∷ hs) store free logs v =
      gc_handles-IsKept timeout now hs _ free logs (
        quiet_change inv store free logs h (on_instance (gc_instance timeout now))
          (λ p up. (up, gc_instance-clients timeout now p.instance)) v)

  module _ (uri : UriCrates) (windows : Bool) where
    Step-IsKept :
        {s t : System V} (logs : ℕ → List (Effect V)) (st : Step uri windows s t)
        → IsKept inv s.registry.store s.registry.next logs
        → IsKept inv t.registry.store t.registry.next (λ k. logs k ++ step_log uri windows st k)
    Step-IsKept {s} logs (accepts e) v = rw e (silent inv s.registry.store s.registry.next logs v)
    Step-IsKept {s} logs (connects n server args env cwd req params child now write second waits e)
          v =
        rw e (
          connect-Keeps inv logs uri windows s.registry n server args env cwd req params child now
            write second v)
    Step-IsKept {s} logs (client_says h p c now sent m i es flow at says e) v = rw e (
        modify-IsKept inv s.registry.store s.registry.next logs h (on_instance (λ j. i)) p es at
          (λ up. (
            up,
            inv.in_steps {s = record { instance = p.instance; log = logs h }}
                {t = record { instance = i; log = logs h ++ es }}
                (Steps.client_says c now sent m i es flow says refl),
          ))
          v)
    Step-IsKept {s} logs (server_says h p m at e) v =
        let (i, es) = handle_server_message p.instance m in
        rw e (
          modify-IsKept inv s.registry.store s.registry.next logs h (on_instance (λ j. i)) p es at
            (λ up. (
              up,
              inv.in_steps {s = record { instance = p.instance; log = logs h }}
                  {t = record { instance = i; log = logs h ++ es }} (Steps.server_says m refl),
            ))
            v)
    Step-IsKept {s} logs (leaves h p c i es at left e) v = rw e (
        modify-IsKept inv s.registry.store s.registry.next logs h (on_instance (λ j. i)) p es at
          (λ up. (
            up,
            inv.in_steps {s = record { instance = p.instance; log = logs h }}
                {t = record { instance = i; log = logs h ++ es }} (Steps.part c i es left refl),
          ))
          v)
    Step-IsKept {s} logs (collects timeout now e) v = rw e (
        unfold gc_round in
        silent inv (gc_handles timeout now (HashMap.values s.registry.entries) s.registry.store)
          s.registry.next logs
          (gc_handles-IsKept timeout now (HashMap.values s.registry.entries) s.registry.store
            s.registry.next logs v))
    Step-IsKept {s} logs (kills h e) v = rw e (
        unfold notified in
        silent inv _ s.registry.next logs (
          quiet_change inv s.registry.store s.registry.next logs h
            (on_instance (λ i. record i { close = false })) (λ p up. (up, refl)) v))
    Step-IsKept {s} logs (exits h p at up e) v = rw e (
        unfold child_exit in
        silent inv _ s.registry.next logs (
          quiet_change inv s.registry.store s.registry.next logs h stopped (λ q runs. ground arith)
            v))

    started-IsKept : IsKept inv (started {V = V}).registry.store 0 (λ k. [])
    unfolding HashMap.get
    started-IsKept = record {
      low = λ h p e. absurd (let got = e in cc);
      quiet = λ h far. refl;
      kept = λ h p e up. absurd (let got = e in cc);
    }

    -- What holds of a new session and is kept by its steps holds of every instance that runs, in
    -- every state that the server reaches.
    pub Reach-IsKept :
        (n : ℕ) {t : System V} (r : Reach uri windows started n t)
        → IsKept inv t.registry.store t.registry.next (trace_log uri windows r)
    Reach-IsKept zero here = started-IsKept
    Reach-IsKept (suc n) (next r st) = Step-IsKept (trace_log uri windows r) st (Reach-IsKept n r)

module _ {V : Type 0} ⦃json : Json V⦄ (opens : RoundTrips json.did_open)
    (closes : RoundTrips json.did_close) where
  -- What the server was told of a document is what the clients have, and no two clients of an
  -- instance have one number.
  unfoldable shared : Text → Invariant V
  unfolding receive_all server_messages has_open any HashMap.unique keyed
  shared doc = record {
    holds = λ log clients. (after doc unopened log ≡ told doc clients) × IsOrdered clients;
    at_start = (refl, record { one_each = refl; own_id = refl });
    in_steps = λ st v. (Step-InStep opens closes doc st v.0, Step-IsOrdered st v.1);
  }

  -- In every state that the server reaches from its start, whatever connections, clients, language
  -- servers and the garbage collector did and in whatever order, for every instance whose child runs:
  -- by what was sent to it since it was spawned, its language server has a document open exactly if
  -- some client of this instance has it open, and was never told to open an open document, and no two
  -- entries of the client map have one id. The two hypotheses are serde's: the parameters of `didOpen`
  -- and `didClose` are read back as they were written.
  pub shared_everywhere :
      (uri : UriCrates) (windows : Bool) (doc : Text) (n : ℕ) (t : System V)
      (r : Reach uri windows started n t) (h : ℕ) (p : Process V)
      → HashMap.get h t.registry.store ≡ some p
      → p.running ≡ true
      → (after doc unopened (trace_log uri windows r h) ≡ told doc p.instance.clients)
        × IsOrdered p.instance.clients
  unfolding shared
  shared_everywhere uri windows doc n t r h p at up =
      (Reach-IsKept (shared doc) uri windows n r).kept h p at up
