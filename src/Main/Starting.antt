-- ===== src/Main/Starting.antt =====
-- How the process starts: its configuration, its log, and the command that it ends with.
use ra_multiplex.Base.{
  Text, codes, [], none, some, nat_eq, list_eq, Outcome, ok, err, panic, Error, ◌≡◌, refl, sym, ap,
  ◌∙◌, ◌⊎◌, inl, inr, Option-cases,
}
use ra_multiplex.Base.BTreeSet
use ra_multiplex.Base.Fallible.{◌>>=◌, or_error}
use ra_multiplex.Base.HashMap
use ra_multiplex.Base.HashMap.{HashMap}
use ra_multiplex.Io.{done}
use ra_multiplex.Serde.{Value, or_default}
use ra_multiplex.Serde.Messages.{strict_fields, all_known}
use ra_multiplex.Config.{Config, default}
use ra_multiplex.Config.Reading.{read_config, take_config}
use ra_multiplex.Config.Valid.{IsValid, default-IsValid, read_config-IsValid}
use ra_multiplex.Config.Loading.{
  Paths, Loader, LogFiles, Filters, LoggerState, Sink, try_load, init_logger, or_io_error,
}
use ra_multiplex.Main.{
  Var, set, not_present, not_unicode, Arg, server_arg, Clap, Cmd, server_path, Cli, Subsystems,
  main, start, with_logger, config_or_default, dispatch, parse_client,
}

-- A step of the loading that fails leaves the default.
step-IsValid :
    {A : Type 0} (o : Outcome A) (f : A → Outcome Config)
    → ((a : A) → IsValid (config_or_default (f a)))
    → IsValid (config_or_default (o >>= f))
unfolding config_or_default
step-IsValid (ok a) f h = h a
step-IsValid (err e) f h = default-IsValid
step-IsValid panic f h = default-IsValid

-- What clap documents of an option with a variable and a default: what the command line gives comes
-- first, then the variable, then the default; and a variable that is no text is refused.
pub record Resolves (clap : Clap) : Type 0 where
  pub given :
      (arg : Arg) (path : Text) (env : Text → Var) → clap.value arg (some path) env ≡ some path
  pub from_env :
      (arg : Arg) (path : Text) (env : Text → Var)
      → env arg.env ≡ set path
      → clap.value arg none env ≡ some path
  pub from_default :
      (arg : Arg) (env : Text → Var)
      → env arg.env ≡ not_present
      → clap.value arg none env ≡ some arg.default_value
  pub refuses :
      (arg : Arg) (env : Text → Var) → env arg.env ≡ not_unicode → clap.value arg none env ≡ none

parsed :
    (clap : Clap) (env : Text → Var)
    → Resolves clap
    → (parse_client clap env none [] ≡ some (Cmd.client (server_path env) []))
      ⊎ ((env (codes "RA_MUX_SERVER") ≡ not_unicode) × (parse_client clap env none [] ≡ none))
unfolding parse_client server_path server_arg
parsed clap env law = by_variable (env (codes "RA_MUX_SERVER")) refl
  where
    by_variable :
        (v : Var)
        → env (codes "RA_MUX_SERVER") ≡ v
        → (parse_client clap env none [] ≡ some (Cmd.client (server_path env) []))
          ⊎ ((env (codes "RA_MUX_SERVER") ≡ not_unicode) × (parse_client clap env none [] ≡ none))
    by_variable (set path) e = inl (rw (law.from_env server_arg path env e, server_path, e) refl)
    by_variable not_present e = inl (rw (law.from_default server_arg env e, server_path, e) refl)
    by_variable not_unicode e = inr (e, rw (law.refuses server_arg env e) refl)

with_logger-none :
    {X F W : Type 0} (subsystems : Subsystems X) (env : Text → Var) (conf : Config)
    (r : Outcome (Sink × F) × LoggerState W)
    → with_logger subsystems env conf none r
      ≡ with_logger subsystems env conf (some (Cmd.client (server_path env) [])) r
unfolding dispatch
with_logger-none subsystems env conf (ok logger, state) = refl
with_logger-none subsystems env conf (err e, state) = refl
with_logger-none subsystems env conf (panic, state) = refl

module _ {V : Type 0} ⦃value : Value V⦄ where
  module _ (paths : Paths) (loader : Loader V) where
    table-IsValid :
        (es : HashMap Text V)
        → IsValid
            (config_or_default (or_error (read_config loader.parse_ip es) Error.parsing_config))
    unfolding config_or_default
    table-IsValid es = elim (Option-cases (read_config loader.parse_ip es)) [
      | inl e ↦ rw e default-IsValid
      | inr (conf, e) ↦ rw e (read_config-IsValid loader.parse_ip es conf e)
    ]

    -- Whatever stands in the file, and if there is none, the configuration that the process goes
    -- on with is valid: the timeout fits a `u32`, the garbage collector's interval is positive and
    -- fits one, ports fit a `u16`, and the names of variables are a set in its order.
    pub loaded-IsValid : IsValid (config_or_default (try_load paths loader))
    unfolding try_load
    loaded-IsValid = step-IsValid (or_error paths.project_dirs Error.no_config_directory) _ λ dirs.
        step-IsValid
          (or_io_error (loader.read (paths.join dirs.config_dir (codes "config.toml")))
            Error.reading_config)
          _
          λ bytes.
            step-IsValid (or_error (loader.parse_table bytes) Error.parsing_config) _ table-IsValid

    read_config-empty : read_config {V = V} loader.parse_ip [] ≡ some default
    unfolding read_config take_config strict_fields all_known or_default HashMap.get
        BTreeSet.from_iter default
    read_config-empty = refl

  -- The loader that finds an empty file.
  abbrev pub empty_file : Loader V → Loader V
  empty_file loader = record loader { read = λ path. done []; parse_table = λ bytes. some [] }

  try_load-empty_file :
      (paths : Paths) (loader : Loader V)
      → config_or_default (try_load paths (empty_file loader)) ≡ default
  unfolding try_load config_or_default
  try_load-empty_file paths loader = elim (Option-cases paths.project_dirs) [
    | inl e ↦ rw e
    | inr (dirs, e) ↦ rw (e, read_config-empty paths loader)
  ]

  module _ {X F W : Type 0} (subsystems : Subsystems X) (paths : Paths) (filters : Filters F)
      (fs : LogFiles W) (loader : Loader V) where
    -- If the configuration cannot be loaded, because there is no directory for it, the file cannot
    -- be read, is no TOML, has an unknown field or a value that is refused, then the whole start
    -- with each command is the same as with an empty file.
    pub missing_as_empty :
        (env : Text → Var) (state : LoggerState W) (cli : Cli) (e : Error)
        → try_load paths loader ≡ err e
        → main subsystems paths filters fs loader env state cli
          ≡ main subsystems paths filters fs (empty_file loader) env state cli
    unfolding main
    missing_as_empty env state cli e fails =
        let failed : config_or_default (try_load paths loader) ≡ default =
          rw fails (unfold config_or_default in refl) in
        ap (start subsystems paths filters fs env state cli)
          (failed ∙ sym (try_load-empty_file paths loader))

    -- To start without a command is to start the command that clap makes of `client` without
    -- arguments: both take the server of `RA_MUX_SERVER`, or else the same default. Only if that
    -- variable is no text does clap refuse `client`. It is assumed that clap resolves an option as it
    -- documents.
    pub no_command :
        (clap : Clap) (env : Text → Var) (state : LoggerState W)
        → Resolves clap
        → ((cmd : Cmd) × (parse_client clap env none [] ≡ some cmd)
            × (main subsystems paths filters fs loader env state (record { command = none })
                ≡ main subsystems paths filters fs loader env state
                    (record { command = some cmd })))
          ⊎ ((env (codes "RA_MUX_SERVER") ≡ not_unicode) × (parse_client clap env none [] ≡ none))
    unfolding main start
    no_command clap env state law = elim (parsed clap env law) [
      | inr refused ↦ inr refused
      | inl e ↦
          let conf = config_or_default (try_load paths loader) in
          inl (
            Cmd.client (server_path env) [],
            e,
            with_logger-none subsystems env conf (init_logger filters paths fs conf state),
          )
    ]
