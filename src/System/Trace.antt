-- ===== src/System/Trace.antt =====
-- What was sent through each instance in the course of a run of the server.
use ra_multiplex.Base.{
  ℕ, List, [], ◌++◌, Bool, ◌==◌, nat_eq, if◌then◌else◌, Outcome, ok, err, panic,
}
use ra_multiplex.Effect.{Effect}
use ra_multiplex.Lsp.Json.{Json}
use ra_multiplex.Instance.Stdout.{handle_server_message}
use ra_multiplex.Client.Connect.{connect}
use ra_multiplex.Client.Workspace.{UriCrates}
use ra_multiplex.System.{
  System, Step, accepts, connects, client_says, server_says, leaves, collects, kills, exits, Reach,
  here, next,
}

-- What is sent through the instance with one handle, seen at each handle.
abbrev pub sent_at : {V : Type 0} → ℕ → List (Effect V) → ℕ → List (Effect V)
sent_at h es k = if h == k then es else []

-- `add_client` sends when a connection has joined its instance.
abbrev pub joining : {V : Type 0} → Outcome (ℕ × List (Effect V)) → ℕ → List (Effect V)
joining (ok (h, es)) k = sent_at h es k
joining (err e) k = []
joining panic k = []

module _ {V : Type 0} ⦃json : Json V⦄ (uri : UriCrates) (windows : Bool) where
  abbrev pub step_log : {s t : System V} → Step uri windows s t → ℕ → List (Effect V)
  step_log (accepts e) k = []
  step_log {s} (connects n server args env cwd req params child now write second waits e) k =
      joining
        (connect uri windows s.registry n server args env cwd req params child now write second).2 k
  step_log (client_says h p c now sent m i es flow at says e) k = sent_at h es k
  step_log (server_says h p m at e) k = sent_at h (handle_server_message p.instance m).1 k
  step_log (leaves h p c i es at left e) k = sent_at h es k
  step_log (collects timeout now e) k = []
  step_log (kills h e) k = []
  step_log (exits h p at up e) k = []

  -- Oldest first, since the instance was spawned.
  abbrev pub trace_log : {s t : System V} {n : ℕ} → Reach uri windows s n t → ℕ → List (Effect V)
  trace_log here k = []
  trace_log (next r st) k = trace_log r k ++ step_log st k
