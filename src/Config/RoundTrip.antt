-- ===== src/Config/RoundTrip.antt =====
-- A configuration that is written, as the source's test writes the defaults, and read again.
use ra_multiplex.Base.{
  ℕ, zero, suc, ◌≤◌, Text, [], ◌∷◌, Option, none, some, list_eq, nat_eq, ◌≡◌, ap, ◌∙◌, arith,
  list_beq,
}
use ra_multiplex.Base.BTreeSet
use ra_multiplex.Base.HashMap
use ra_multiplex.Base.HashSet
use ra_multiplex.Base.Int.{pos}
use ra_multiplex.Serde.{Value, number, array, string, or_default, write_string, write_u64, present}
use ra_multiplex.Serde.Laws.{read_string_lem}
use ra_multiplex.Serde.Options.{read_texts_lem}
use ra_multiplex.Serde.Messages.{strict_fields, all_known}
use ra_multiplex.Config.{Address, Config, default, instance_timeout, gc_interval, u32_max}
use ra_multiplex.Config.Reading.{
  toml_value, as_u16, read_timeout, read_interval, read_u16, read_tcp, as_address, read_address,
  take_config, read_config, write_config, write_address, config_names, accepted,
}
use ra_multiplex.Config.Valid.{IsAddress, IsValid}

-- A timeout that is switched off is left out, and read as the default.
abbrev pub reread : Config → Config
reread config = record config { instance_timeout = some (seconds config.instance_timeout) }
  where
    seconds : Option ℕ → ℕ
    seconds none = 300
    seconds (some n) = n

-- Is the text of the address one that the standard library's parser gives back?
abbrev pub IsParsed : (Text → Option Text) → Address → Type 0
IsParsed parse_ip (Address.tcp ip port) = parse_ip ip ≡ some ip
IsParsed parse_ip (Address.unix path) = Unit

module _ (V : Type 0) ⦃value : Value V⦄ where
  read_timeout_lem : (n : ℕ) → n ≤ u32_max → read_timeout {V = V} (write_u64 n) ≡ some (some n)
  unfolding read_timeout toml_value instance_timeout
  read_timeout_lem n h =
      ap (λ s. accepted (instance_timeout (toml_value s))) (value.view-build (number (pos n)))
      ∙ ground arith

  read_interval_lem : (n : ℕ) → 1 ≤ n → n ≤ u32_max → read_interval {V = V} (write_u64 n) ≡ some n
  unfolding read_interval toml_value gc_interval
  read_interval_lem zero p h = ground arith
  read_interval_lem (suc n) p h =
      ap (λ s. accepted (gc_interval (toml_value s))) (value.view-build (number (pos (suc n))))
      ∙ ground arith

  read_u16_lem : (n : ℕ) → n ≤ 65535 → read_u16 {V = V} (write_u64 n) ≡ some n
  unfolding read_u16 as_u16
  read_u16_lem n h = ap as_u16 (value.view-build (number (pos n))) ∙ ground arith

  module _ (parse_ip : Text → Option Text) where
    read_address_lem :
        (a : Address)
        → IsAddress a
        → IsParsed parse_ip a
        → read_address {V = V} parse_ip (write_address a) ≡ some a
    unfolding read_address as_address read_tcp
    read_address_lem (Address.tcp ip port) fits parsed =
        ap (as_address parse_ip) (value.view-build (array (write_string ip ∷ write_u64 port ∷ [])))
        ∙ rw (read_string_lem V ip, parsed, read_u16_lem port fits)
    read_address_lem (Address.unix path) fits parsed =
        ap (as_address parse_ip) (value.view-build (string path))

    with_timeout :
        (timeout : Option ℕ) (config : Config)
        → IsValid (record config { instance_timeout = timeout })
        → IsParsed parse_ip config.listen
        → IsParsed parse_ip config.connect
        → read_config parse_ip (write_config {V = V} (record config { instance_timeout = timeout }))
          ≡ some (reread (record config { instance_timeout = timeout }))
    unfolding read_config write_config take_config strict_fields all_known config_names present
        HashMap.get HashSet.contains list_beq or_default default
    with_timeout none config v l c = rw (
      read_interval_lem config.gc_interval v.interval.0 v.interval.1,
      read_address_lem config.listen v.listen l,
      read_address_lem config.connect v.connect c,
      read_string_lem V config.log_filters,
      read_string_lem V config.log_mode,
      read_texts_lem V config.pass_environment,
      BTreeSet.from_iter-same config.pass_environment v.names,
    )
    with_timeout (some n) config v l c = rw (
      read_timeout_lem n v.timeout,
      read_interval_lem config.gc_interval v.interval.0 v.interval.1,
      read_address_lem config.listen v.listen l,
      read_address_lem config.connect v.connect c,
      read_string_lem V config.log_filters,
      read_string_lem V config.log_mode,
      read_texts_lem V config.pass_environment,
      BTreeSet.from_iter-same config.pass_environment v.names,
    )

    -- A configuration that is written is read as itself, but for a timeout that is switched off,
    -- which comes back as the default of 300 seconds: the field is left out where it is `None`. The
    -- configuration is assumed to be valid, and its IP addresses to be printed the way they parse.
    pub read_config-write_config :
        (config : Config)
        → IsValid config
        → IsParsed parse_ip config.listen
        → IsParsed parse_ip config.connect
        → read_config parse_ip (write_config {V = V} config) ≡ some (reread config)
    read_config-write_config config v l c = with_timeout config.instance_timeout config v l c
