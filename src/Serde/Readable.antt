-- ===== src/Serde/Readable.antt =====
-- What was read can be written and read again.
use mathlib.Core.Option.{some-injective}
use ra_multiplex.Base.{
  Text, codes, [], Option, none, some, true, false, list_eq, nat_eq, ◌≡◌, refl, ap, ◌∙◌, subst,
  arith, Option-cases, Bool-cases, inl, inr,
}
use ra_multiplex.Base.Try.{bind-some}
use ra_multiplex.Base.HashMap
use ra_multiplex.Base.HashMap.{HashMap}
use ra_multiplex.Lsp.{InitializationOptions, InitializeParams}
use ra_multiplex.Serde.{
  Value, optional, or_default, is_null, is_solid, as_object, read_struct, read_u64, read_string,
  read_list,
}
use ra_multiplex.Serde.Options.{read_options, take_options, get-without, read_lsp_mux}
use ra_multiplex.Serde.Params.{read_params, take_params, read_client_info, read_trace, read_folder}
use ra_multiplex.Serde.ParamLaws.{IsReadable}

module _ {V : Type 0} ⦃value : Value V⦄ where
  -- What an optional field holds was read from its value.
  optional-some :
      {A : Type 0} (read : V → Option A) (o : Option V) (a : A)
      → optional read o ≡ some (some a)
      → (v : V) × (is_null (value.view v) ≡ false) × (read v ≡ some a)
  unfolding optional
  optional-some read none a h = ground arith
  optional-some read (some v) a h = elim (Bool-cases (is_null (value.view v))) [
    | inl e ↦ ground arith
    | inr e ↦
        (v, e, elim (Option-cases (read v)) [ inl n ↦ ground arith | inr (b, r) ↦ ground arith ])
  ]

  pub optional-is_solid : (o p : Option V) → optional some o ≡ some p → is_solid p ≡ true
  unfolding optional is_solid
  optional-is_solid o none h = refl
  optional-is_solid none (some w) h = ground arith
  optional-is_solid (some v) (some w) h = ground arith

  read_options_bare :
      (v : V) (options : InitializationOptions V)
      → read_options v ≡ some options
      → HashMap.get (codes "lspMux") options.other_options ≡ none
  unfolding read_options take_options
  read_options_bare v options h =
      let (es, e1, h1) = bind-some (as_object (value.view v)) take_options options h in
      let (o, e2, h2) =
        bind-some (optional read_lsp_mux (HashMap.get (codes "lspMux") es)) _ options h1 in
      subst (λ (p : InitializationOptions V). HashMap.get (codes "lspMux") p.other_options ≡ none)
        (some-injective _ _ h2) (get-without V (codes "lspMux") es)

  take_params-IsReadable :
      (field : Text → Option V) (params : InitializeParams V)
      → take_params field ≡ some params
      → IsReadable params
  unfolding take_params
  take_params-IsReadable field params h =
      let (process_id, e1, h1) =
        bind-some (optional read_u64 (field (codes "processId"))) _ params h in
      let (info, e2, h2) =
        bind-some (optional read_client_info (field (codes "clientInfo"))) _ params h1 in
      let (locale, e3, h3) =
        bind-some (optional read_string (field (codes "locale"))) _ params h2 in
      let (path, e4, h4) =
        bind-some (optional read_string (field (codes "rootPath"))) _ params h3 in
      let (uri, e5, h5) = bind-some (optional read_string (field (codes "rootUri"))) _ params h4 in
      let (options, e6, h6) =
        bind-some (optional read_options (field (codes "initializationOptions"))) _ params h5 in
      let (caps, e7, h7) = bind-some (optional some (field (codes "capabilities"))) _ params h6 in
      let (trace, e8, h8) = bind-some (optional read_trace (field (codes "trace"))) _ params h7 in
      let (folders, e9, h9) =
        bind-some (or_default (read_list read_folder) [] (field (codes "workspaceFolders"))) _
          params h8 in
      subst IsReadable (some-injective _ _ h9) (record {
        solid = optional-is_solid (field (codes "capabilities")) caps e7;
        bare = λ o same.
            let (v, solid, reads) =
              optional-some read_options (field (codes "initializationOptions")) o
                (e6 ∙ ap some same) in
            read_options_bare v o reads;
      })

  -- Parameters that were read can be written and are then read as the same.
  pub read_params-IsReadable :
      (v : V) (params : InitializeParams V) → read_params v ≡ some params → IsReadable params
  unfolding read_params
  read_params-IsReadable v params h =
      let (field, e, h1) = bind-some (read_struct v) take_params params h in
      take_params-IsReadable field params h1
