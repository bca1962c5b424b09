-- ===== src/Serde/Status.antt =====
-- src/lsp/ext.rs: how the answer to the status command is written and read.
use ra_multiplex.Base.{
  ◌≤◌, Text, codes, List, [], ◌∷◌, Option, some, list_beq, list_eq, nat_eq, ◌≡◌, refl, All,
}
use ra_multiplex.Base.Try.{◌>>=◌}
use ra_multiplex.Base.HashMap
use ra_multiplex.Base.HashMap.{HashMap}
use ra_multiplex.Str.Decimal.RoundTrip.{Fits}
use ra_multiplex.Lsp.Ext.{ClientStatus, InstanceStatus, StatusResponse}
use ra_multiplex.Serde.{
  Value, IsReadAs, required, read_string, write_string, read_u64, write_u64, read_u32, read_i64,
  write_i64, read_list, write_list, read_struct, write_struct,
}
use ra_multiplex.Serde.Laws.{
  read_string_lem, read_u64_lem, read_u32_lem, read_i64_lem, read_list_lem, read_struct_lem,
}
use ra_multiplex.Serde.Options.{read_env, write_env, read_env_lem, read_texts_lem}

module _ {V : Type 0} ⦃value : Value V⦄ where
  abbrev pub client_fields : ClientStatus → HashMap Text (Option V)
  client_fields c =
      (codes "id", some (write_u64 c.id))
      ∷ (codes "files", some (write_list write_string c.files))
      ∷ []

  -- A `usize` has 64 bits.
  unfoldable pub read_client : V → Option ClientStatus
  unfolding required read_u64 read_string read_list read_struct
  read_client v = do
    field ← read_struct v
    id ← required read_u64 (field (codes "id"))
    files ← required (read_list read_string) (field (codes "files"))
    some (record { id = id; files = files })

  abbrev pub write_client : ClientStatus → V
  write_client c = write_struct (client_fields c)

  abbrev pub instance_fields : InstanceStatus → HashMap Text (Option V)
  instance_fields i =
      (codes "pid", some (write_u64 i.pid))
      ∷ (codes "server", some (write_string i.server))
      ∷ (codes "args", some (write_list write_string i.args))
      ∷ (codes "env", some (write_env i.env))
      ∷ (codes "workspaceRoot", some (write_string i.workspace_root))
      ∷ (
        codes "registeredDynCapabilities",
        some (write_list write_string i.registered_dyn_capabilities),
      )
      ∷ (codes "lastUsed", some (write_i64 i.last_used))
      ∷ (codes "clients", some (write_list write_client i.clients))
      ∷ []

  unfoldable pub read_instance : V → Option InstanceStatus
  unfolding required read_u32 read_i64 read_string read_list read_env read_client read_struct
  read_instance v = do
    field ← read_struct v
    pid ← required read_u32 (field (codes "pid"))
    server ← required read_string (field (codes "server"))
    args ← required (read_list read_string) (field (codes "args"))
    env ← required read_env (field (codes "env"))
    root ← required read_string (field (codes "workspaceRoot"))
    caps ← required (read_list read_string) (field (codes "registeredDynCapabilities"))
    last_used ← required read_i64 (field (codes "lastUsed"))
    clients ← required (read_list read_client) (field (codes "clients"))
    some (record {
      pid = pid;
      server = server;
      args = args;
      env = env;
      workspace_root = root;
      registered_dyn_capabilities = caps;
      last_used = last_used;
      clients = clients;
    })

  abbrev pub write_instance : InstanceStatus → V
  write_instance i = write_struct (instance_fields i)

  abbrev pub status_fields : StatusResponse → HashMap Text (Option V)
  status_fields s = (codes "instances", some (write_list write_instance s.instances)) ∷ []

  unfoldable pub read_status : V → Option StatusResponse
  unfolding required read_list read_instance read_struct
  read_status v = do
    field ← read_struct v
    instances ← required (read_list read_instance) (field (codes "instances"))
    some (record { instances = instances })

-- The process id is a `u32` and the time an `i64`.
abbrev pub IsInRange : InstanceStatus → Type 0
IsInRange i = (i.pid ≤ 4294967295) × Fits i.last_used

module _ (V : Type 0) ⦃value : Value V⦄ where
  clients_lem : (cs : List ClientStatus) → All (IsReadAs (read_client {V = V}) write_client) cs
  unfolding read_client required HashMap.unique HashMap.contains_key HashMap.get list_beq
  clients_lem [] = tt
  clients_lem (c ∷ cs) = (
    rw (read_struct_lem V (client_fields c) refl, read_u64_lem V c.id, read_texts_lem V c.files),
    clients_lem cs,
  )

  instances_lem :
      (is : List InstanceStatus)
      → All IsInRange is
      → All (IsReadAs (read_instance {V = V}) write_instance) is
  unfolding read_instance required HashMap.unique HashMap.contains_key HashMap.get list_beq
  instances_lem [] h = tt
  instances_lem (i ∷ is) h = (
    rw (
      read_struct_lem V (instance_fields i) refl,
      read_u32_lem V i.pid h.0.0,
      read_string_lem V i.server,
      read_texts_lem V i.args,
      read_env_lem V i.env,
      read_string_lem V i.workspace_root,
      read_texts_lem V i.registered_dyn_capabilities,
      read_i64_lem V i.last_used h.0.1,
      read_list_lem V read_client write_client i.clients (clients_lem i.clients),
    ),
    instances_lem is h.1,
  )

  pub read_status_lem :
      (s : StatusResponse)
      → All IsInRange s.instances
      → read_status {V = V} (write_struct (status_fields s)) ≡ some s
  unfolding read_status required HashMap.unique HashMap.contains_key HashMap.get list_beq
  read_status_lem s h = rw (
    read_struct_lem V (status_fields s) refl,
    read_list_lem V read_instance write_instance s.instances (instances_lem s.instances h),
  )
