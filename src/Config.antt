-- ===== src/Config.antt =====
-- src/config.rs: the values of a configuration, their defaults, and the two fields that are read by
-- hand. Of a TOML value only what these distinguish is kept.
pub mod Reading
pub mod Valid
pub mod RoundTrip
pub mod Loading
pub mod LogFile
use ra_multiplex.Base.{
  ℕ, zero, suc, Text, codes, List, [], Option, none, some, Bool, true, false, Outcome, ok, err,
  Error, if◌then◌else◌, leb, ◌≡◌, ◌↔◌, ◌≤◌, arith,
}

-- An IP address is a text here: it is only handed on.
pub data Address : Type 0 where
  tcp : (ip : Text) (port : ℕ) → Address
  unix : (path : Text) → Address

pub record Config : Type 0 where
  pub instance_timeout : Option ℕ
  pub gc_interval : ℕ
  pub listen : Address
  pub connect : Address
  pub log_filters : Text
  pub log_mode : Text
  pub pass_environment : List Text

unfoldable pub default_listen : Address
default_listen = tcp (codes "127.0.0.1") 27631

-- `Config::default`, and what a field that is left out gets.
unfoldable pub default : Config
unfolding default_listen
default = record {
  instance_timeout = some 300;
  gc_interval = 10;
  listen = default_listen;
  connect = default_listen;
  log_filters = codes "info";
  log_mode = codes "terminal";
  pass_environment = [];
}

-- A TOML value, which is a Boolean, a `u32` or something else.
pub data TomlValue : Type 0 where
  boolean : Bool → TomlValue
  unsigned : ℕ → TomlValue
  other : TomlValue

abbrev pub u32_max : ℕ
u32_max = 4294967295

-- `de::instance_timeout`
unfoldable pub instance_timeout : TomlValue → Outcome (Option ℕ)
instance_timeout (unsigned value) =
    if leb value u32_max then ok (some value) else err Error.invalid_value
instance_timeout (boolean false) = ok none
instance_timeout (boolean true) = err Error.invalid_value
instance_timeout other = err Error.invalid_value

-- `de::gc_interval`
unfoldable pub gc_interval : TomlValue → Outcome ℕ
gc_interval (unsigned zero) = err Error.invalid_value
gc_interval (unsigned (suc n)) = if leb (suc n) u32_max then ok (suc n) else err Error.invalid_value
gc_interval (boolean b) = err Error.invalid_value
gc_interval other = err Error.invalid_value

-- A garbage collection interval is accepted exactly if it is a positive number that fits 32 bits,
-- and then as it is.
pub gc_interval_accepts :
    (value : TomlValue) (n : ℕ)
    → (gc_interval value ≡ ok n) ↔ ((value ≡ unsigned n) × (1 ≤ n) × (n ≤ u32_max))
unfolding gc_interval
gc_interval_accepts (unsigned zero) n = ground arith
gc_interval_accepts (unsigned (suc m)) n = ground arith
gc_interval_accepts (boolean b) n = ground arith
gc_interval_accepts other n = ground arith
