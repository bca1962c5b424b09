-- ===== src/Main.antt =====
-- src/main.rs: the commands, and what the process does from its start to its command.
pub mod Starting
use mathlib.Core.Option
use ra_multiplex.Base.{Text, codes, List, [], Option, none, some, Bool, Outcome, ok, err, panic}
use ra_multiplex.Serde.{Value}
use ra_multiplex.Config.{Config, default}
use ra_multiplex.Config.Loading.{
  Paths, Loader, LogFiles, Filters, LoggerState, Sink, try_load, init_logger,
}

pub data Cmd : Type 0 where
  client : (server : Text) (args : List Text) → Cmd
  server config reload : Cmd
  status : (json : Bool) → Cmd

pub record Cli : Type 0 where
  pub command : Option Cmd

-- The functions of the other modules that `main` ends with.
pub record Subsystems (X : Type 0) : Type 0 where
  pub run_server : Config → X
  pub run_proxy : Config → Text → List Text → X
  pub print_status : Config → Bool → X
  pub print_config : Config → X
  pub reload_workspace : Config → X

-- A variable of the environment, as `env::var` finds it.
pub data Var : Type 0 where
  set : Text → Var
  not_present not_unicode : Var

-- `env::var(…).unwrap_or_else(…)`
unfoldable pub server_path : (Text → Var) → Text
server_path env = elim (env (codes "RA_MUX_SERVER")) [
  | set path ↦ path
  | not_present ↦ codes "rust-analyzer"
  | not_unicode ↦ codes "rust-analyzer"
]

-- A configuration that cannot be loaded is the default.
unfoldable pub config_or_default : Outcome Config → Config
unfolding default
config_or_default (ok conf) = conf
config_or_default (err e) = default
config_or_default panic = default

module _ {X : Type 0} (subsystems : Subsystems X) where
  unfoldable pub dispatch : (Text → Var) → Config → Option Cmd → X
  unfolding server_path
  dispatch env conf (some server) = subsystems.run_server conf
  dispatch env conf (some (client path args)) = subsystems.run_proxy conf path args
  dispatch env conf (some (status json)) = subsystems.print_status conf json
  dispatch env conf (some config) = subsystems.print_config conf
  dispatch env conf (some reload) = subsystems.reload_workspace conf
  dispatch env conf none = subsystems.run_proxy conf (server_path env) []

  -- `init_logger().await?`
  abbrev pub with_logger :
      {F W : Type 0}
      → (Text → Var)
      → Config
      → Option Cmd
      → Outcome (Sink × F) × LoggerState W
      → Outcome X × LoggerState W
  with_logger env conf cmd (ok logger, state) = (ok (dispatch env conf cmd), state)
  with_logger env conf cmd (err e, state) = (err e, state)
  with_logger env conf cmd (panic, state) = (panic, state)

  module _ {F W : Type 0} (paths : Paths) (filters : Filters F) (fs : LogFiles W) where
    -- `main` behind the loading of the configuration.
    unfoldable pub start : (Text → Var) → LoggerState W → Cli → Config → Outcome X × LoggerState W
    unfolding init_logger dispatch
    start env state cli conf =
        with_logger env conf cli.command (init_logger filters paths fs conf state)

    -- `main` behind the parsing of the command line, up to the call of the command.
    unfoldable pub main :
        {V : Type 0} ⦃value : Value V⦄
        → Loader V
        → (Text → Var)
        → LoggerState W
        → Cli
        → Outcome X × LoggerState W
    unfolding try_load config_or_default start
    main loader env state cli = start env state cli (config_or_default (try_load paths loader))

-- The attributes of an option with a value.
pub record Arg : Type 0 where
  pub long : Text
  pub alias : Text
  pub env : Text
  pub default_value : Text

unfoldable pub server_arg : Arg
server_arg = record {
  long = codes "server-path";
  alias = codes "ra-mux-server";
  env = codes "RA_MUX_SERVER";
  default_value = codes "rust-analyzer";
}

-- clap: the value of an option, of what the command line gives for it, if anything, and of the
-- environment; `none` means that clap refuses the command line and ends the process.
pub record Clap : Type 0 where
  pub value : Arg → Option Text → (Text → Var) → Option Text

-- The arguments of `client`.
unfoldable pub parse_client : Clap → (Text → Var) → Option Text → List Text → Option Cmd
unfolding server_arg
parse_client clap env given args =
    Option.map (λ path. client path args) (clap.value server_arg given env)
