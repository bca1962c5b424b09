-- ===== src/Examples/Starting.antt =====
-- Starts of the process: with a configuration, with a file that cannot be read, and with a long log.
use ra_multiplex.Base.{
  ℕ, Text, codes, [], ◌∷◌, Option, none, some, true, false, nat_eq, list_eq, list_beq, err, Error,
  ◌≡◌, refl, arith, ap, sym, ◌⊎◌, inl, inr, Bool, ◌==◌,
}
use ra_multiplex.Base.BTreeSet
use ra_multiplex.Base.HashMap
use ra_multiplex.Base.HashMap.{HashMap}
use ra_multiplex.Base.HashSet
use ra_multiplex.Base.Int.{pos}
use ra_multiplex.Io.{done, failed, not_found}
use ra_multiplex.Config.{Address, Config, default, default_listen, instance_timeout, gc_interval}
use ra_multiplex.Config.Reading.{
  read_config, write_config, take_config, read_timeout, read_interval, read_address, as_address,
  read_tcp, read_u16, as_u16, toml_value, config_names,
}
use ra_multiplex.Config.RoundTrip.{reread, read_config-write_config}
use ra_multiplex.Config.Valid.{IsValid}
use ra_multiplex.Config.Loading.{
  Paths, Loader, LogFiles, Filters, LoggerState, try_load, init_logger,
}
use ra_multiplex.Config.LogFile.{Behaves, IsSetUp, init_logger-IsSetUp}
use ra_multiplex.Main.{
  Cmd, Subsystems, Var, set, not_present, not_unicode, Arg, Clap, main, parse_client,
  config_or_default,
}
use ra_multiplex.Main.Starting.{Resolves, loaded-IsValid, empty_file, missing_as_empty, no_command}
use ra_multiplex.Serde.{present, or_default, read_string, read_list, read_all, as_string, as_array}
use ra_multiplex.Serde.Messages.{strict_fields, all_known}
use ra_multiplex.Examples.Trees.{Tree, flag, integer, quote, row, stop, cell, texts, trees}

-- Every text is taken for an address.
abbrev parse_ip : Text → Option Text
parse_ip s = some s

abbrev endless : Config
endless = record default {
  instance_timeout = none;
  connect = Address.unix (codes "/run/mux");
  pass_environment = codes "LANG" ∷ codes "PATH" ∷ [];
}

endless-IsValid : IsValid endless
unfolding default default_listen BTreeSet.ascending BTreeSet.text_lt
endless-IsValid = record {
  timeout = tt;
  interval = omega arith;
  listen = omega arith;
  connect = tt;
  names = refl;
}

read_config-write_config_example :
    read_config parse_ip (write_config {V = Tree} endless) ≡ some (reread endless)
unfolding default default_listen
read_config-write_config_example =
    read_config-write_config Tree parse_ip endless endless-IsValid refl tt

-- The source's test compares the defaults with defaults.toml, which has no `log_mode`.
default_log_mode :
    HashMap.get (codes "log_mode") (write_config {V = Tree} default)
    ≡ some (quote (codes "terminal"))
unfolding write_config default present HashMap.get list_beq
default_log_mode = refl

unfoldable reads : HashMap Text Tree → Option Config
unfolding read_config take_config read_timeout read_interval read_address as_address read_tcp
    read_u16 as_u16 toml_value instance_timeout gc_interval config_names strict_fields all_known
    HashSet.contains HashMap.get list_beq or_default default default_listen read_string as_string
    read_list as_array read_all BTreeSet.from_iter
reads = read_config parse_ip

abbrev some_options : HashMap Text Tree
some_options =
    (codes "instance_timeout", flag false)
    ∷ (codes "connect", quote (codes "/run/mux"))
    ∷ (codes "pass_environment", texts (codes "PATH" ∷ codes "LANG" ∷ codes "PATH" ∷ []))
    ∷ []

some_options_read : reads some_options ≡ some endless
unfolding reads default default_listen
some_options_read = refl

switched_on_refused : reads ((codes "instance_timeout", flag true) ∷ []) ≡ none
unfolding reads
switched_on_refused = refl

misspelled_refused : reads ((codes "log_filter", quote (codes "debug")) ∷ []) ≡ none
unfolding reads
misspelled_refused = refl

port_refused :
    reads
      ((codes "listen", row (cell (quote (codes "::1")) (cell (integer (pos 65536)) stop))) ∷ [])
    ≡ none
unfolding reads
port_refused = refl

abbrev paths : Paths
paths = record {
  project_dirs = some (record { config_dir = codes "/c"; cache_dir = codes "/l" });
  join = λ dir name. dir;
  parent = λ path. some (codes "/");
  file_name = λ path. some (codes "l");
}

abbrev loader : Loader Tree
loader = record {
  read = λ path. done [];
  parse_table = λ bytes. some some_options;
  parse_ip = parse_ip;
}

loaded-IsValid_example : IsValid (config_or_default (try_load paths loader))
loaded-IsValid_example = loaded-IsValid paths loader

abbrev no_file : Loader Tree
no_file = record loader { read = λ path. failed not_found }

cannot_load : try_load paths no_file ≡ err Error.reading_config
unfolding try_load
cannot_load = refl

-- The command that is run is what the start returns.
abbrev commands : Subsystems Cmd
commands = record {
  run_server = λ conf. Cmd.server;
  run_proxy = λ conf path args. Cmd.client path args;
  print_status = λ conf json. Cmd.status json;
  print_config = λ conf. Cmd.config;
  reload_workspace = λ conf. Cmd.reload;
}

abbrev filters : Filters Text
filters = record { default_env = none; try_new = some; new = λ s. s }

-- One file, by its length, if it is there.
abbrev opened : Option ℕ → Option ℕ
opened (some n) = some n
opened none = some 0

abbrev disk : LogFiles (Option ℕ)
disk = record {
  file_len = λ path w. w;
  remove_file = λ path w. (done tt, none);
  create_dir_all = λ dir w. (done tt, w);
  open_append = λ dir name w. (true, opened w);
}

kept_or_new : (w w' : Option ℕ) → opened w ≡ w' → (w' ≡ w) ⊎ (w' ≡ some 0)
kept_or_new (some n) w' e = inl (sym e)
kept_or_new none w' e = inr (sym e)

disk-Behaves : Behaves disk
disk-Behaves = record {
  removed = λ path w w' e. ground arith;
  created = λ dir path w w' e. ground arith;
  appends = λ dir name path w w' b e. kept_or_new w w' (ap (λ (r : Bool × Option ℕ). r.1) e);
}

abbrev long_log : LoggerState (Option ℕ)
long_log = record { file_logger = none; is_set = false; files = some 1048576 }

abbrev unset : Text → Var
unset key = not_present

missing_as_empty_example :
    main commands paths filters disk no_file unset long_log (record { command = none })
    ≡ main commands paths filters disk
        (empty_file no_file)
        unset
        long_log
        (record { command = none })
missing_as_empty_example =
    missing_as_empty commands paths filters disk no_file unset long_log (record { command = none })
      Error.reading_config cannot_load

-- clap, of an option alone.
abbrev variable_or_default : Arg → Var → Option Text
variable_or_default arg (set path) = some path
variable_or_default arg not_present = some arg.default_value
variable_or_default arg not_unicode = none

abbrev resolved : Arg → Option Text → (Text → Var) → Option Text
resolved arg (some path) env = some path
resolved arg none env = variable_or_default arg (env arg.env)

abbrev clap : Clap
clap = record { value = resolved }

clap-Resolves : Resolves clap
clap-Resolves = record {
  given = λ arg path env. refl;
  from_env = λ arg path env e. ap (variable_or_default arg) e;
  from_default = λ arg env e. ap (variable_or_default arg) e;
  refuses = λ arg env e. ap (variable_or_default arg) e;
}

no_command_example :
    ((cmd : Cmd) × (parse_client clap unset none [] ≡ some cmd)
      × (main commands paths filters disk loader unset long_log (record { command = none })
          ≡ main commands paths filters disk loader unset long_log (record { command = some cmd })))
    ⊎ ((unset (codes "RA_MUX_SERVER") ≡ not_unicode) × (parse_client clap unset none [] ≡ none))
no_command_example = no_command commands paths filters disk loader clap unset long_log clap-Resolves

abbrev to_file : Config
to_file = record default { log_mode = codes "file" }

init_logger-IsSetUp_example :
    IsSetUp paths disk
      (record { config_dir = codes "/c"; cache_dir = codes "/l" })
      (to_file.log_mode == codes "file")
      long_log
      (init_logger filters paths disk to_file long_log)
init_logger-IsSetUp_example =
    init_logger-IsSetUp paths disk (record { config_dir = codes "/c"; cache_dir = codes "/l" })
      disk-Behaves filters to_file long_log refl refl
