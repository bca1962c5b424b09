-- ===== src/Serde/Options.antt =====
-- src/lsp/ext.rs and src/lsp.rs: how the `lspMux` section and the initialization options are written
-- and read.
use mathlib.Core.Option
use ra_multiplex.Base.{
  Text, codes, List, [], ◌∷◌, ◌++◌, Option, none, some, true, false, not, ◌==◌, list_beq, list_eq,
  nat_eq, ◌≡◌, refl, ap, ◌∙◌, map, All, keep, arith, if◌then◌else◌,
}
use ra_multiplex.Base.Try.{◌>>=◌}
use ra_multiplex.Base.HashMap
use ra_multiplex.Base.HashMap.{HashMap}
use ra_multiplex.Lsp.{InitializationOptions}
use ra_multiplex.Lsp.Ext.{Method, connect, status, reload, LspMuxOptions}
use ra_multiplex.Serde.{
  Value, Shape, IsReadAs, required, optional, or_default, read_string, write_string, read_list,
  write_list, read_struct, write_struct, written, present, as_object, is_null,
}
use ra_multiplex.Serde.Laws.{
  read_string_lem, read_list_lem, read_struct_lem, optional_lem, write_string_solid,
  write_struct_solid, is_null-build,
}

module _ {V : Type 0} ⦃value : Value V⦄ where
  abbrev entry : Text × Text → Text × V
  entry e = (e.0, write_string e.1)

  -- A `BTreeMap` from names to values.
  abbrev pub write_env : List (Text × Text) → V
  write_env env = value.build (Shape.object (map entry env))

  unfoldable pub read_entries : HashMap Text V → Option (List (Text × Text))
  unfolding read_string
  read_entries [] = some []
  read_entries ((k, v) ∷ es) = do s ← read_string v; rest ← read_entries es; some ((k, s) ∷ rest)

  unfoldable pub read_env : V → Option (List (Text × Text))
  unfolding read_entries as_object
  read_env v = do es ← as_object (value.view v); read_entries es

  -- `skip_serializing_if = "BTreeMap::is_empty"`
  abbrev pub env_field : List (Text × Text) → Option V
  env_field [] = none
  env_field (e ∷ env) = some (write_env (e ∷ env))

  -- `tag = "method"`, with the variants in camelCase.
  abbrev pub method_fields : Method → HashMap Text (Option V)
  method_fields (connect server args env cwd) =
      (codes "method", some (write_string (codes "connect")))
      ∷ (codes "server", some (write_string server))
      ∷ (codes "args", some (write_list write_string args))
      ∷ (codes "env", env_field env)
      ∷ (codes "cwd", Option.map write_string cwd)
      ∷ []
  method_fields status = (codes "method", some (write_string (codes "status"))) ∷ []
  method_fields (reload cwd) =
      (codes "method", some (write_string (codes "reload")))
      ∷ (codes "cwd", some (write_string cwd))
      ∷ []

  unfoldable pub read_connect : (Text → Option V) → Option Method
  unfolding required or_default optional read_string read_list read_env
  read_connect field = do
    server ← required read_string (field (codes "server"))
    args ← or_default (read_list read_string) [] (field (codes "args"))
    env ← or_default read_env [] (field (codes "env"))
    cwd ← optional read_string (field (codes "cwd"))
    some (connect server args env cwd)

  unfoldable pub read_method : (Text → Option V) → Option Method
  unfolding required read_string read_connect
  read_method field = do
    tag ← required read_string (field (codes "method"))
    if tag == codes "connect"
        then read_connect field
        else if tag == codes "status"
        then some status
        else if tag == codes "reload"
        then (do cwd ← required read_string (field (codes "cwd")); some (reload cwd))
        else none

  abbrev pub lsp_mux_fields : LspMuxOptions → HashMap Text (Option V)
  lsp_mux_fields options =
      (codes "version", some (write_string options.version)) ∷ method_fields options.method

  unfoldable pub read_lsp_mux : V → Option LspMuxOptions
  unfolding read_method read_struct
  read_lsp_mux v = do
    field ← read_struct v
    version ← required read_string (field (codes "version"))
    method ← read_method field
    some (record { version = version; method = method })

  -- What `flatten` leaves: the entries under other keys.
  abbrev pub without : Text → HashMap Text V → HashMap Text V
  without k = keep (λ e. not (e.0 == k))

  abbrev pub options_entries : InitializationOptions V → HashMap Text V
  options_entries options =
      present
        ((codes "lspMux", Option.map (λ o. write_struct (lsp_mux_fields o)) options.lsp_mux) ∷ [])
      ++ options.other_options

  abbrev pub write_options : InitializationOptions V → V
  write_options options = value.build (Shape.object (options_entries options))

  unfoldable pub take_options : HashMap Text V → Option (InitializationOptions V)
  unfolding read_lsp_mux optional keep
  take_options es = do
    lsp_mux ← optional read_lsp_mux (HashMap.get (codes "lspMux") es)
    some (record { lsp_mux = lsp_mux; other_options = without (codes "lspMux") es })

  unfoldable pub read_options : V → Option (InitializationOptions V)
  unfolding take_options as_object
  read_options v = do es ← as_object (value.view v); take_options es

module _ (V : Type 0) ⦃value : Value V⦄ where
  read_strings_lem : (xs : List Text) → All (IsReadAs (read_string {V = V}) write_string) xs
  read_strings_lem [] = tt
  read_strings_lem (x ∷ xs) = (read_string_lem V x, read_strings_lem xs)

  pub read_texts_lem :
      (xs : List Text) → read_list (read_string {V = V}) (write_list write_string xs) ≡ some xs
  read_texts_lem xs = read_list_lem V read_string write_string xs (read_strings_lem xs)

  read_entries-map : (env : List (Text × Text)) → read_entries {V = V} (map entry env) ≡ some env
  unfolding read_entries
  read_entries-map [] = refl
  read_entries-map (e ∷ env) = rw (read_string_lem V e.1, read_entries-map env)

  pub read_env_lem : (env : List (Text × Text)) → read_env {V = V} (write_env env) ≡ some env
  unfolding read_env
  read_env_lem env =
      ap (λ s. as_object s >>= read_entries) (value.view-build (Shape.object (map entry env)))
      ∙ unfold as_object in read_entries-map env

  env_field_lem :
      (env : List (Text × Text)) → or_default (read_env {V = V}) [] (env_field env) ≡ some env
  unfolding or_default
  env_field_lem [] = refl
  env_field_lem (e ∷ env) = read_env_lem (e ∷ env)

  -- The fields of a method stand behind the version.
  read_method_lem :
      (version : V) (method : Method)
      → read_method (written ((codes "version", some version) ∷ method_fields method)) ≡ some method
  unfolding read_method read_connect required or_default HashMap.get list_beq
  read_method_lem version (connect server args env cwd) = rw (
    read_string_lem V (codes "connect"),
    read_string_lem V server,
    read_texts_lem args,
    env_field_lem env,
    optional_lem V read_string write_string cwd (read_string_lem V) (write_string_solid V),
  )
  read_method_lem version status = rw (read_string_lem V (codes "status"))
  read_method_lem version (reload cwd) =
      rw (read_string_lem V (codes "reload"), read_string_lem V cwd)

  method_unique :
      (version : V) (method : Method)
      → HashMap.unique ((codes "version", some version) ∷ method_fields method) ≡ true
  unfolding HashMap.unique HashMap.contains_key list_beq
  method_unique version (connect server args env cwd) = refl
  method_unique version status = refl
  method_unique version (reload cwd) = refl

  pub read_lsp_mux_lem :
      (options : LspMuxOptions)
      → read_lsp_mux {V = V} (write_struct (lsp_mux_fields options)) ≡ some options
  unfolding read_lsp_mux required HashMap.get list_beq
  read_lsp_mux_lem options = rw (
    read_struct_lem V (lsp_mux_fields options)
        (method_unique (write_string options.version) options.method),
    read_string_lem V options.version,
    read_method_lem (write_string options.version) options.method,
  )

  pub without-absent :
      (k : Text) (es : HashMap Text V) → HashMap.get k es ≡ none → without k es ≡ es
  unfolding keep HashMap.get
  without-absent k [] h = refl
  without-absent k ((j, v) ∷ es) h = ground (arith, without-absent k es)

  pub get-without : (k : Text) (es : HashMap Text V) → HashMap.get k (without k es) ≡ none
  unfolding keep HashMap.get
  get-without k [] = refl
  get-without k ((j, v) ∷ es) = ground (arith, get-without k es)

  take_options_lem :
      (lsp_mux : Option LspMuxOptions) (others : HashMap Text V)
      → HashMap.get (codes "lspMux") others ≡ none
      → take_options (options_entries (record { lsp_mux = lsp_mux; other_options = others }))
        ≡ some (record { lsp_mux = lsp_mux; other_options = others })
  unfolding take_options optional present HashMap.get list_beq keep
  take_options_lem none others bare = rw (bare, without-absent (codes "lspMux") others bare)
  take_options_lem (some o) others bare = rw (
    write_struct_solid V (lsp_mux_fields o),
    read_lsp_mux_lem o,
    without-absent (codes "lspMux") others bare,
  )

  -- The options are read back if no other option has the name of the section.
  pub read_options_lem :
      (options : InitializationOptions V)
      → HashMap.get (codes "lspMux") options.other_options ≡ none
      → read_options (write_options options) ≡ some options
  unfolding read_options as_object
  read_options_lem options bare =
      ap (λ s. as_object s >>= take_options)
        (value.view-build (Shape.object (options_entries options)))
      ∙ take_options_lem options.lsp_mux options.other_options bare

  pub write_options_solid :
      (options : InitializationOptions V) → is_null (value.view (write_options options)) ≡ false
  unfolding is_null
  write_options_solid options = is_null-build V (Shape.object (options_entries options))
