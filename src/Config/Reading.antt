-- ===== src/Config/Reading.antt =====
-- src/config.rs: how the attributes of `Config` and `Address` read a TOML table and write one. A TOML
-- value is known by its shape; the parsing of IP addresses is the standard library's.
use ra_multiplex.Base.{
  ℕ, Text, codes, List, [], ◌∷◌, Option, none, some, Outcome, ok, err, panic, if◌then◌else◌, leb,
  list_eq, nat_eq,
}
use mathlib.Core.Option
use ra_multiplex.Base.BTreeSet
use ra_multiplex.Base.HashMap.{HashMap}
use ra_multiplex.Base.Int.{pos}
use ra_multiplex.Base.Try.{◌>>=◌}
use ra_multiplex.Serde.{
  Value, Shape, boolean, number, array, string, or_default, read_string, read_list, write_string,
  write_list, write_u64, present,
}
use ra_multiplex.Serde.Messages.{strict_fields}
use ra_multiplex.Config.{
  Address, Config, default, TomlValue, unsigned, other, instance_timeout, gc_interval,
}

-- `Result::ok`
abbrev pub accepted : {A : Type 0} → Outcome A → Option A
accepted (ok a) = some a
accepted (err e) = none
accepted panic = none

-- The names of the fields.
unfoldable pub config_names : List Text
config_names =
    codes "instance_timeout"
    ∷ codes "gc_interval"
    ∷ codes "listen"
    ∷ codes "connect"
    ∷ codes "log_filters"
    ∷ codes "log_mode"
    ∷ codes "pass_environment"
    ∷ []

module _ {V : Type 0} where
  -- What the two readers that are written by hand tell apart.
  unfoldable pub toml_value : Shape V → TomlValue
  toml_value (boolean b) = TomlValue.boolean b
  toml_value (number (pos n)) = unsigned n
  toml_value shape = other

  unfoldable pub as_u16 : Shape V → Option ℕ
  as_u16 (number (pos n)) = if leb n 65535 then some n else none
  as_u16 shape = none

module _ {V : Type 0} ⦃value : Value V⦄ where
  unfoldable pub read_timeout : V → Option (Option ℕ)
  unfolding toml_value instance_timeout
  read_timeout v = accepted (instance_timeout (toml_value (value.view v)))

  unfoldable pub read_interval : V → Option ℕ
  unfolding toml_value gc_interval
  read_interval v = accepted (gc_interval (toml_value (value.view v)))

  unfoldable pub read_u16 : V → Option ℕ
  unfolding as_u16
  read_u16 v = as_u16 (value.view v)

  -- `parse_ip` is `IpAddr::from_str` and then `Display`.
  module _ (parse_ip : Text → Option Text) where
    -- `Tcp(IpAddr, u16)`: an array of exactly two.
    unfoldable pub read_tcp : List V → Option Address
    unfolding read_string read_u16
    read_tcp (ip ∷ port ∷ []) = do
      s ← read_string ip
      addr ← parse_ip s
      n ← read_u16 port
      some (Address.tcp addr n)
    read_tcp vs = none

    -- `untagged`: the first variant that can be read.
    unfoldable pub as_address : Shape V → Option Address
    unfolding read_tcp
    as_address (array vs) = read_tcp vs
    as_address (string path) = some (Address.unix path)
    as_address shape = none

    unfoldable pub read_address : V → Option Address
    unfolding as_address
    read_address v = as_address (value.view v)

    unfoldable pub take_config : (Text → Option V) → Option Config
    unfolding read_timeout read_interval read_address read_string read_list or_default default
        BTreeSet.from_iter
    take_config field = do
      timeout ← or_default read_timeout default.instance_timeout (field (codes "instance_timeout"))
      interval ← or_default read_interval default.gc_interval (field (codes "gc_interval"))
      listen ← or_default read_address default.listen (field (codes "listen"))
      connect ← or_default read_address default.connect (field (codes "connect"))
      filters ← or_default read_string default.log_filters (field (codes "log_filters"))
      mode ← or_default read_string default.log_mode (field (codes "log_mode"))
      names ←
          or_default (read_list read_string) default.pass_environment
            (field (codes "pass_environment"))
      some (record {
        instance_timeout = timeout;
        gc_interval = interval;
        listen = listen;
        connect = connect;
        log_filters = filters;
        log_mode = mode;
        pass_environment = BTreeSet.from_iter names;
      })

    -- `deny_unknown_fields` on the table that a file is.
    unfoldable pub read_config : HashMap Text V → Option Config
    unfolding take_config strict_fields config_names
    read_config es = do field ← strict_fields config_names es; take_config field

  abbrev pub write_address : Address → V
  write_address (Address.tcp ip port) = value.build (array (write_string ip ∷ write_u64 port ∷ []))
  write_address (Address.unix path) = write_string path

  -- toml leaves a field out whose value is `None`.
  abbrev pub config_fields : Config → HashMap Text (Option V)
  config_fields config =
      (codes "instance_timeout", Option.map write_u64 config.instance_timeout)
      ∷ (codes "gc_interval", some (write_u64 config.gc_interval))
      ∷ (codes "listen", some (write_address config.listen))
      ∷ (codes "connect", some (write_address config.connect))
      ∷ (codes "log_filters", some (write_string config.log_filters))
      ∷ (codes "log_mode", some (write_string config.log_mode))
      ∷ (codes "pass_environment", some (write_list write_string config.pass_environment))
      ∷ []

  unfoldable pub write_config : Config → HashMap Text V
  unfolding present
  write_config config = present (config_fields config)
