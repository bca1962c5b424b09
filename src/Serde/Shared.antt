-- ===== src/Serde/Shared.antt =====
-- src/instance.rs and src/client.rs over serde_json: the documents of every instance of the server.
use ra_multiplex.Base.{ℕ, Text, some, Bool, true, ◌≡◌, nat_eq}
use ra_multiplex.Base.HashMap
use ra_multiplex.Client.Workspace.{UriCrates}
use ra_multiplex.Registry.{Process}
use ra_multiplex.Session.Documents.{unopened}
use ra_multiplex.Session.Files.{told, after}
use ra_multiplex.Session.Invariant.{IsOrdered}
use ra_multiplex.System.{System, started, Reach}
use ra_multiplex.System.Trace.{trace_log}
use ra_multiplex.System.Instances.{shared_everywhere}
use ra_multiplex.Serde.{Value}
use ra_multiplex.Serde.Codecs.{serde_json, did_open_RoundTrips, did_close_RoundTrips}

module _ (V : Type 0) ⦃value : Value V⦄ where
  -- In every state that the server reaches from its start, whatever connections, clients, language
  -- servers, their children and the garbage collector did and in whatever order, for every instance
  -- whose child runs: by what was sent to it since it was spawned, its language server has a document
  -- open exactly if some client of this instance has it open, and was never told to open an open
  -- document; no two entries of the client map have one id, and each client stands under its own.
  pub instances_shared :
      (uri : UriCrates) (windows : Bool) (doc : Text) (n : ℕ) (t : System V)
      (r : Reach ⦃json = serde_json⦄ uri windows started n t) (h : ℕ) (p : Process V)
      → HashMap.get h t.registry.store ≡ some p
      → p.running ≡ true
      → (after ⦃json = serde_json⦄ doc unopened (trace_log ⦃json = serde_json⦄ uri windows r h)
          ≡ told doc p.instance.clients)
        × IsOrdered p.instance.clients
  instances_shared =
      shared_everywhere ⦃json = serde_json⦄ (did_open_RoundTrips V) (did_close_RoundTrips V)
