-- ===== src/Config/LogFile.antt =====
-- src/config.rs: the file that the log is appended to.
use ra_multiplex.Base.{
  Text, codes, Option, none, some, Bool, true, false, ◌==◌, nat_eq, list_eq, Outcome, ok, err,
  panic, ◌≡◌, refl, ap, subst, arith, inl, inr, ◌⊎◌, Bool-cases, Option-cases,
}
use ra_multiplex.Io.{IoResult, done, failed}
use ra_multiplex.Config.{Config}
use ra_multiplex.Config.Loading.{
  Paths, ProjectDirs, LogFiles, Log, Filters, LoggerState, Sink, stderr, file, too_long, log_path,
  rotate, never, open_log, split_path, in_directory, init_file_writter, get_or_try_init,
  init_subscriber, init_logger, filter, on_log, kept, then_fs,
}

-- What is relied on of the file system: a file that was removed is gone, to create directories
-- changes no file, and to open a file for appending leaves each file as it was or creates it empty.
pub record Behaves {W : Type 0} (fs : LogFiles W) : Type 0 where
  pub removed :
      (path : Text) (w w' : W) → fs.remove_file path w ≡ (done tt, w') → fs.file_len path w' ≡ none
  pub created :
      (dir path : Text) (w w' : W)
      → fs.create_dir_all dir w ≡ (done tt, w')
      → fs.file_len path w' ≡ fs.file_len path w
  pub appends :
      (dir name path : Text) (w w' : W) (b : Bool)
      → fs.open_append dir name w ≡ (b, w')
      → (fs.file_len path w' ≡ fs.file_len path w) ⊎ (fs.file_len path w' ≡ some 0)

module _ {W : Type 0} (paths : Paths) (fs : LogFiles W) (dirs : ProjectDirs) where
  -- The log is the file in the cache directory, and is shorter than a mebibyte.
  abbrev pub IsStarted : Log → W → Type 0
  IsStarted log w =
      (paths.parent (log_path paths dirs) ≡ some log.dir)
      × (paths.file_name (log_path paths dirs) ≡ some log.file)
      × (too_long (fs.file_len (log_path paths dirs) w) ≡ false)

  -- The log cannot be opened.
  abbrev pub IsStuck : Type 0
  IsStuck =
      (dir : Text) × (name : Text) × (w : W) × (paths.parent (log_path paths dirs) ≡ some dir)
      × (paths.file_name (log_path paths dirs) ≡ some name)
      × ((fs.open_append dir name w).0 ≡ false)

  abbrev IsOpened : Outcome Log × W → Type 0
  IsOpened (ok log, w) = IsStarted log w
  IsOpened (err e, w) = Unit
  IsOpened (panic, w) = IsStuck

  -- How the logger may be set up in a mode, for a file or not: on the terminal without touching a
  -- file, into such a log, or not at all. A panic means that there was a subscriber already, or that
  -- the log cannot be opened.
  abbrev pub IsSetUp :
      {F : Type 0} → Bool → LoggerState W → Outcome (Sink × F) × LoggerState W → Type 0
  IsSetUp to_file state (ok (stderr, f), state') =
      (to_file ≡ false) × (state'.files ≡ state.files) × (state'.is_set ≡ true)
  IsSetUp to_file state (ok (file log, f), state') =
      (to_file ≡ true) × IsStarted log state'.files × (state'.is_set ≡ true)
  IsSetUp to_file state (err e, state') = (to_file ≡ true) × (state'.is_set ≡ state.is_set)
  IsSetUp to_file state (panic, state') = (state.is_set ≡ true) ⊎ ((to_file ≡ true) × IsStuck)

  module _ (behaves : Behaves fs) where
    appended :
        (dir name : Text) (w : W) (res : Bool × W)
        → fs.open_append dir name w ≡ res
        → paths.parent (log_path paths dirs) ≡ some dir
        → paths.file_name (log_path paths dirs) ≡ some name
        → too_long (fs.file_len (log_path paths dirs) w) ≡ false
        → IsOpened (never paths fs dir name res)
    appended dir name w (true, w') e p n short = (
      p,
      n,
      elim (behaves.appends dir name (log_path paths dirs) w w' true e) [
        | inl same ↦ rw same short
        | inr new ↦ rw new refl
      ],
    )
    appended dir name w (false, w') e p n short = (dir, name, w, p, n, ap (λ (r : Bool × W). r.0) e)

    opened :
        (dir name : Text) (w : W) (res : IoResult (Unit {0}) × W)
        → fs.create_dir_all dir w ≡ res
        → paths.parent (log_path paths dirs) ≡ some dir
        → paths.file_name (log_path paths dirs) ≡ some name
        → too_long (fs.file_len (log_path paths dirs) w) ≡ false
        → IsOpened (open_log paths fs dir name w)
    unfolding open_log
    opened dir name w (done u, w') e p n short = rw e (
        appended dir name w' (fs.open_append dir name w') refl p n
          (rw (behaves.created dir (log_path paths dirs) w w' e) short))
    opened dir name w (failed kind, w') e p n short = rw e tt

    in_directory-IsOpened :
        (w : W)
        → too_long (fs.file_len (log_path paths dirs) w) ≡ false
        → IsOpened (in_directory paths fs (split_path paths fs (log_path paths dirs)) w)
    unfolding split_path
    in_directory-IsOpened w short = elim (Option-cases (paths.parent (log_path paths dirs))) [
      | inl e ↦ rw e tt
      | inr (dir, e) ↦ elim (Option-cases (paths.file_name (log_path paths dirs))) [
        | inl e' ↦ rw (e, e') tt
        | inr (name, e') ↦ rw (e, e') (opened dir name w (fs.create_dir_all dir w) refl e e' short)
      ]
    ]

    rotate-IsOpened :
        (w : W) (res : IoResult (Unit {0}) × W)
        → rotate paths fs (log_path paths dirs) w ≡ res
        → IsOpened (
            then_fs paths fs res
              (in_directory paths fs (split_path paths fs (log_path paths dirs))))
    unfolding rotate
    rotate-IsOpened w (failed kind, w') e = tt
    rotate-IsOpened w (done u, w') e =
        elim (Bool-cases (too_long (fs.file_len (log_path paths dirs) w))) [
          | inl long ↦
              let gone = behaves.removed (log_path paths dirs) w w' (rw long at e) in
              in_directory-IsOpened w' (ap too_long gone)
          | inr short ↦
              let same : w ≡ w' = ap (λ (r : IoResult (Unit {0}) × W). r.1) (rw short at e) in
              in_directory-IsOpened w'
                (subst (λ v. too_long (fs.file_len (log_path paths dirs) v) ≡ false) same short)
        ]

    init_file_writter-IsOpened :
        (w : W) → paths.project_dirs ≡ some dirs → IsOpened (init_file_writter paths fs w)
    unfolding init_file_writter
    init_file_writter-IsOpened w e =
        rw e (rotate-IsOpened w (rotate paths fs (log_path paths dirs) w) refl)

    module _ {F : Type 0} (filters : Filters F) where
      init_subscriber-stderr :
          (state : LoggerState W) (f : F)
          → IsSetUp false state (init_subscriber filters stderr f state)
      unfolding init_subscriber
      init_subscriber-stderr state f = elim (Bool-cases state.is_set) [
        | inl set ↦ rw set (inl refl)
        | inr free ↦ rw free (refl, refl, refl)
      ]

      -- What a new log leads to.
      on_log-IsSetUp :
          (state : LoggerState W) (f : F) (res : Outcome Log × W)
          → IsOpened res
          → IsSetUp true state (on_log filters paths fs f (kept filters paths fs state res))
      unfolding init_subscriber
      on_log-IsSetUp state f (ok log, w) h = elim (Bool-cases state.is_set) [
        | inl set ↦ rw set (inl set)
        | inr free ↦ rw free (refl, h, refl)
      ]
      on_log-IsSetUp state f (err e, w) h = (refl, refl)
      on_log-IsSetUp state f (panic, w) h = inr (refl, h)

      from_file :
          (cell : Option Log) (is_set : Bool) (w : W) (f : F)
          → paths.project_dirs ≡ some dirs
          → cell ≡ none
          → IsSetUp true
              (record { file_logger = cell; is_set = is_set; files = w })
              (on_log filters paths fs f (
                get_or_try_init filters paths fs
                  (record { file_logger = cell; is_set = is_set; files = w })))
      unfolding get_or_try_init
      from_file (some log) is_set w f e fresh = ground arith
      from_file none is_set w f e fresh =
          on_log-IsSetUp (record { file_logger = none; is_set = is_set; files = w }) f
            (init_file_writter paths fs w) (init_file_writter-IsOpened w e)

      -- In the mode `file` the logger is set up for a log file in the cache directory that is shorter
      -- than a mebibyte, or there is an error and no subscriber is set; in every other mode it is
      -- set up for the terminal without a change to any file. It panics only if there was a
      -- subscriber before, or in the mode `file` if the log cannot be opened. It is assumed that no
      -- log is open yet, that a file which was removed is gone, that to create directories changes
      -- no file, and that to open a file for appending changes none but may create it empty.
      pub init_logger-IsSetUp :
          (config : Config) (state : LoggerState W)
          → paths.project_dirs ≡ some dirs
          → state.file_logger ≡ none
          → IsSetUp
              (config.log_mode == codes "file")
              state
              (init_logger filters paths fs config state)
      unfolding init_logger get_or_try_init
      init_logger-IsSetUp config state e fresh =
          elim (Bool-cases (config.log_mode == codes "file")) [
            | inl mode ↦ rw mode (
                from_file state.file_logger state.is_set state.files
                  (filter filters config.log_filters) e fresh)
            | inr mode ↦ rw mode (init_subscriber-stderr state (filter filters config.log_filters))
          ]
