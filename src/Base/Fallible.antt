-- ===== src/Base/Fallible.antt =====
-- What a fallible function of the program returns: a value, an error that its caller handles, or a
-- panic, which ends the task that it happens in.
use mathlib.Core.Option.{Option, none, some}

-- The contexts that the program attaches to its errors.
pub data Error : Type 0 where
  parsing_params no_matching_client client_was_not_connected : Error
  io_error malformed_header unknown_header repeated_header bad_content_length : Error
  missing_content_length invalid_utf8 invalid_body empty_batch : Error
  channel_closed not_initialize missing_initialization_options missing_lsp_mux : Error
  unsupported_version no_workspace_root bad_uri unsupported_scheme : Error
  not_initialized stream_ended not_initialize_response parsing_result spawn_failed : Error
  accept_failed write_failed instance_closed not_a_response error_response invalid_value : Error
  connecting binding removing_old_socket : Error
  no_config_directory reading_config parsing_config no_log_path log_file : Error
  no_current_dir not_utf8_dir : Error

pub data Outcome {ℓ} (A : Type ℓ) : Type ℓ where
  ok : A → Outcome A
  err : Error → Outcome A
  panic : Outcome A

infixl 5 ◌>>=◌
abbrev pub ◌>>=◌ {ℓ κ} : {A : Type ℓ} {B : Type κ} → Outcome A → (A → Outcome B) → Outcome B
ok a >>= f = f a
err e >>= f = err e
panic >>= f = panic

-- `context(…)?` on an option.
abbrev pub or_error : {A : Type 0} → Option A → Error → Outcome A
or_error none e = err e
or_error (some a) e = ok a
