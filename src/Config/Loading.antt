-- ===== src/Config/Loading.antt =====
-- src/config.rs: loading the configuration file and setting up the logger. The file system, the
-- project's directories, toml's parser and tracing's filters are parameters.
use ra_multiplex.Base.{
  ℕ, Text, codes, Option, none, some, Bool, true, false, ◌==◌, nat_eq, list_eq, if◌then◌else◌, leb,
  Outcome, ok, err, panic, Error,
}
use ra_multiplex.Base.HashMap.{HashMap}
use ra_multiplex.Base.Fallible.{◌>>=◌, or_error}
use ra_multiplex.Io.{IoResult, done, failed}
use ra_multiplex.Serde.{Value}
use ra_multiplex.Config.{Config}
use ra_multiplex.Config.Reading.{read_config}

-- `ProjectDirs::from`: the directories for configuration and for caches.
pub record ProjectDirs : Type 0 where
  pub config_dir : Text
  pub cache_dir : Text

pub record Paths : Type 0 where
  pub project_dirs : Option ProjectDirs
  pub join : Text → Text → Text
  pub parent : Text → Option Text
  pub file_name : Text → Option Text

-- `fs::read`, toml's parser of a file into its table, and the parser of IP addresses.
pub record Loader (V : Type 0) : Type 0 where
  pub read : Text → IoResult Text
  pub parse_table : Text → Option (HashMap Text V)
  pub parse_ip : Text → Option Text

-- `with_context(…)?` on what was read.
abbrev pub or_io_error : {A : Type 0} → IoResult A → Error → Outcome A
or_io_error (done a) e = ok a
or_io_error (failed kind) e = err e

module _ {V : Type 0} ⦃value : Value V⦄ (paths : Paths) (loader : Loader V) where
  unfoldable pub try_load : Outcome Config
  unfolding read_config
  try_load = do
    dirs ← or_error paths.project_dirs Error.no_config_directory
    data_read ←
        or_io_error (loader.read (paths.join dirs.config_dir (codes "config.toml")))
          Error.reading_config
    es ← or_error (loader.parse_table data_read) Error.parsing_config
    or_error (read_config loader.parse_ip es) Error.parsing_config

-- The calls of the file system that the file logger makes, and the opening of the log for appending
-- in `rolling::never`, which creates it if need be and says whether that worked. A file is known by
-- its length.
pub record LogFiles (W : Type 0) : Type 0 where
  pub file_len : Text → W → Option ℕ
  pub remove_file : Text → W → IoResult (Unit {0}) × W
  pub create_dir_all : Text → W → IoResult (Unit {0}) × W
  pub open_append : Text → Text → W → Bool × W

-- The directory and the name of the file that is appended to.
pub record Log : Type 0 where
  pub dir : Text
  pub file : Text

abbrev pub too_long : Option ℕ → Bool
too_long (some n) = leb 1048576 n
too_long none = false

abbrev pub log_path : Paths → ProjectDirs → Text
log_path paths dirs = paths.join dirs.cache_dir (codes "ra_multiplex.log")

module _ {W : Type 0} (paths : Paths) (fs : LogFiles W) where
  -- `?` on a call of the file system.
  abbrev pub then_fs : {A : Type 0} → IoResult (Unit {0}) × W → (W → Outcome A × W) → Outcome A × W
  then_fs (done u, w) next = next w
  then_fs (failed kind, w) next = (err Error.log_file, w)

  -- A log of a mebibyte or more is started anew.
  unfoldable pub rotate : Text → W → IoResult (Unit {0}) × W
  rotate path w = if too_long (fs.file_len path w) then fs.remove_file path w else (done tt, w)

  -- `rolling::never` panics if the log cannot be opened.
  abbrev pub never : Text → Text → Bool × W → Outcome Log × W
  never dir file (true, w) = (ok (record { dir = dir; file = file }), w)
  never dir file (false, w) = (panic, w)

  unfoldable pub open_log : Text → Text → W → Outcome Log × W
  open_log dir file w =
      then_fs (fs.create_dir_all dir w) λ w'. never dir file (fs.open_append dir file w')

  unfoldable pub split_path : Text → Outcome (Text × Text)
  split_path path = do
    dir ← or_error (paths.parent path) Error.no_log_path
    file ← or_error (paths.file_name path) Error.no_log_path
    ok (dir, file)

  abbrev pub in_directory : Outcome (Text × Text) → W → Outcome Log × W
  in_directory (ok (dir, file)) w = open_log dir file w
  in_directory (err e) w = (err e, w)
  in_directory panic w = (panic, w)

  unfoldable pub init_file_writter : W → Outcome Log × W
  unfolding rotate open_log split_path
  init_file_writter w = elim paths.project_dirs [
    | none ↦ (err Error.no_log_path, w)
    | some dirs ↦
        then_fs (rotate (log_path paths dirs) w)
          λ w'. in_directory (split_path (log_path paths dirs)) w'
  ]

-- tracing's filters: the one of the environment, and the parser of a filter.
pub record Filters (F : Type 0) : Type 0 where
  pub default_env : Option F
  pub try_new : Text → Option F
  pub new : Text → F

-- What the process keeps: the log of `FILE_LOGGER`, whether a subscriber is set, and the files.
pub record LoggerState (W : Type 0) : Type 0 where
  pub file_logger : Option Log
  pub is_set : Bool
  pub files : W

pub data Sink : Type 0 where
  stderr : Sink
  file : Log → Sink

module _ {F : Type 0} (filters : Filters F) where
  unfoldable pub filter : Text → F
  filter log_filters = elim filters.default_env [
    | some f ↦ f
    | none ↦ elim (filters.try_new log_filters) [ some f ↦ f | none ↦ filters.new (codes "info") ]
  ]

  -- `init` of a subscriber panics if there is one.
  unfoldable pub init_subscriber :
      {W : Type 0} → Sink → F → LoggerState W → Outcome (Sink × F) × LoggerState W
  init_subscriber sink f state =
      if state.is_set then (panic, state) else (ok (sink, f), record state { is_set = true })

  module _ {W : Type 0} (paths : Paths) (fs : LogFiles W) where
    -- An error leaves the cell empty.
    abbrev pub kept : LoggerState W → Outcome Log × W → Outcome Log × LoggerState W
    kept state (ok log, w) = (ok log, record state { file_logger = some log; files = w })
    kept state (err e, w) = (err e, record state { files = w })
    kept state (panic, w) = (panic, record state { files = w })

    -- `get_or_try_init`
    unfoldable pub get_or_try_init : LoggerState W → Outcome Log × LoggerState W
    unfolding init_file_writter
    get_or_try_init state = elim state.file_logger [
      | some log ↦ (ok log, state)
      | none ↦ kept state (init_file_writter paths fs state.files)
    ]

    abbrev pub on_log : F → Outcome Log × LoggerState W → Outcome (Sink × F) × LoggerState W
    on_log f (ok log, state) = init_subscriber (file log) f state
    on_log f (err e, state) = (err e, state)
    on_log f (panic, state) = (panic, state)

    -- Every mode but `file` is the terminal's.
    unfoldable pub init_logger : Config → LoggerState W → Outcome (Sink × F) × LoggerState W
    unfolding filter init_subscriber get_or_try_init
    init_logger config state =
        if config.log_mode == codes "file"
        then on_log (filter config.log_filters) (get_or_try_init state)
        else init_subscriber stderr (filter config.log_filters) state
