-- ===== src/Commands/Answers.antt =====
-- A command and the server's answer to it.
use ra_multiplex.Base.{
  Option-cases, inl, inr, ◌⊎◌, ℕ, ◌≡◌, refl, list_eq, nat_eq, Text, codes, List, [], ◌∷◌, none,
  some, true, false, In, All, length, ◌≤◌, subst, Outcome, ok, err, Error, list_beq,
}
use ra_multiplex.Io.{done}
use ra_multiplex.Lsp.{InitializeParams}
use ra_multiplex.Lsp.Json.{Json, IsReadBack}
use ra_multiplex.Base.Int.{pos}
use ra_multiplex.Lsp.Jsonrpc.{Message, Request, request, version, number}
use ra_multiplex.Str.FilePath.{path_starts_with}
use ra_multiplex.Registry.Lookup.{Looks, get_by_cwd-Looks}
use ra_multiplex.Lsp.Ext.{Method, drop, tag}
use ra_multiplex.Instance.{InstanceKey}
use ra_multiplex.Registry.{Registry, get_by_cwd, get_status}
use ra_multiplex.Client.Connect.{
  first_message, expect_initialize, take_lsp_mux, status_reply, reload, reload_request,
  no_instance_reply,
}
use ra_multiplex.Commands.{command_params, command_request, status_command, reload_command}

-- What the command makes of what `reload` wrote.
abbrev pub reloaded : {V : Type 0} → List (Message V) → Outcome (Unit {0})
reloaded {V} [] = reload_command {V = V} (done tt) (ok none)
reloaded (m ∷ ms) = reload_command (done tt) (ok (some m))

module _ {V : Type 0} ⦃json : Json V⦄ where
  -- The server reads from a command's message exactly the method that the command has, whichever
  -- it is. It is assumed that serde reads the command's parameters back.
  pub command_request-first_message :
      (method : Method)
      → IsReadBack json.initialize_params (command_params method)
      → (req : Request V) × (params : InitializeParams V) × (command_request method ≡ request req)
        × (first_message (ok (some (command_request method))) ≡ ok (req, method, params))
  unfolding command_request first_message expect_initialize take_lsp_mux command_params list_beq
  command_request-first_message method reads = (
    _,
    record (command_params method) {
      initialization_options = some (record { lsp_mux = none; other_options = [] });
    },
    refl,
    rw reads,
  )

  -- The status command returns the registry's status, whatever the registry is, once the server's
  -- reply has come. It is assumed that serde reads this status back.
  pub status_command-status_reply :
      (self : Registry V)
      → IsReadBack json.status_response (get_status self)
      → status_command (done tt) (ok (some (status_reply self))) ≡ ok (get_status self)
  unfolding status_command status_reply
  status_command-status_reply self reads = rw reads

  -- The request that an instance gets, whichever language server it runs.
  abbrev pub asked : Message V
  asked = request (record {
    jsonrpc = version;
    method = codes "rust-analyzer/reloadWorkspace";
    params = json.null;
    id = tag (number (pos 0)) drop;
  })

  -- The reload command succeeds exactly if the root of some entry of the map covers the directory,
  -- and then one instance whose root covers it is asked to reload its workspace, than which no
  -- covering root is longer; otherwise the command fails, and nobody is asked. The instance is asked
  -- whichever language server it runs. The sends and writes on the way are assumed to succeed.
  pub reload_command-reload :
      (cwd : Text) (self : Registry V)
      → ((key : InstanceKey) × (h : ℕ) × In (key, h) self.entries
          × (path_starts_with cwd key.workspace_root ≡ true)
          × All
              (λ (e : InstanceKey × ℕ).
                (path_starts_with cwd e.0.workspace_root ≡ false)
                ⊎ (length e.0.workspace_root ≤ length key.workspace_root))
              self.entries
          × ((reload cwd self true (done tt)).0 ≡ some (h, asked))
          × (reloaded (reload cwd self true (done tt)).1 ≡ ok tt))
        ⊎ (All
              (λ (e : InstanceKey × ℕ). path_starts_with cwd e.0.workspace_root ≡ false)
              self.entries
            × ((reload cwd self true (done tt)).0 ≡ none)
            × (reloaded (reload cwd self true (done tt)).1 ≡ err Error.error_response))
  unfolding reload reload_command no_instance_reply reload_request
  reload_command-reload cwd self = elim (Option-cases (get_by_cwd self.entries cwd)) [
    | inl e ↦ inr (
      subst (Looks self.entries cwd) e (get_by_cwd-Looks self.entries cwd),
      rw (reload, e),
      rw (reload, e),
    )
    | inr ((key, h), e) ↦
        let (member, covered, longest) =
          subst (Looks self.entries cwd) e (get_by_cwd-Looks self.entries cwd) in
        inl (key, h, member, covered, longest, rw (reload, e), rw (reload, e))
  ]
