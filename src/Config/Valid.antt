-- ===== src/Config/Valid.antt =====
-- What every configuration has that the program runs with.
use ra_multiplex.Base.{
  ℕ, zero, suc, ◌≤◌, Text, codes, List, [], ◌∷◌, Option, none, some, true, false, list_eq, nat_eq,
  ◌≡◌, refl, subst, arith,
}
use mathlib.Core.Option.{some-injective}
use ra_multiplex.Base.BTreeSet
use ra_multiplex.Base.HashMap.{HashMap}
use ra_multiplex.Base.Int.{pos, negsuc}
use ra_multiplex.Base.Try.{bind-some}
use ra_multiplex.Serde.{
  Value, Shape, null, boolean, number, float, string, array, object, or_default, read_string,
  read_list,
}
use ra_multiplex.Serde.Messages.{strict_fields}
use ra_multiplex.Config.{
  Address, Config, default, default_listen, TomlValue, unsigned, other, instance_timeout,
  gc_interval, u32_max,
}
use ra_multiplex.Config.Reading.{
  toml_value, as_u16, read_timeout, read_interval, read_u16, read_tcp, as_address, read_address,
  take_config, read_config, config_names, accepted,
}

abbrev pub IsAddress : Address → Type 0
IsAddress (Address.tcp ip port) = port ≤ 65535
IsAddress (Address.unix path) = Unit

abbrev pub IsTimeout : Option ℕ → Type 0
IsTimeout none = Unit
IsTimeout (some seconds) = seconds ≤ u32_max

abbrev pub IsInterval : ℕ → Type 0
IsInterval n = (1 ≤ n) × (n ≤ u32_max)

-- The numbers fit their types, the garbage collector's interval is positive, and the names of the
-- variables are a set in its order.
pub record IsValid (config : Config) : Type 0 where
  pub timeout : IsTimeout config.instance_timeout
  pub interval : IsInterval config.gc_interval
  pub listen : IsAddress config.listen
  pub connect : IsAddress config.connect
  pub names : BTreeSet.ascending config.pass_environment ≡ true

pub default-IsValid : IsValid default
unfolding default default_listen BTreeSet.ascending
default-IsValid = record {
  timeout = omega arith;
  interval = omega arith;
  listen = omega arith;
  connect = omega arith;
  names = refl;
}

-- A field that is left out or read is as its default and what its reader returns.
or_default-some :
    {A V : Type 0} (P : A → Type 0) (read : V → Option A) (a b : A) (o : Option V)
    → P a
    → ((v : V) → read v ≡ some b → P b)
    → or_default read a o ≡ some b
    → P b
unfolding or_default
or_default-some P read a b none base step h = subst P (some-injective a b h) base
or_default-some P read a b (some v) base step h = step v h

instance_timeout-IsTimeout :
    (v : TomlValue) (t : Option ℕ) → accepted (instance_timeout v) ≡ some t → IsTimeout t
unfolding instance_timeout
instance_timeout-IsTimeout v none h = tt
instance_timeout-IsTimeout (TomlValue.boolean true) (some n) h = ground arith
instance_timeout-IsTimeout (TomlValue.boolean false) (some n) h = ground arith
instance_timeout-IsTimeout (unsigned m) (some n) h = ground arith
instance_timeout-IsTimeout other (some n) h = ground arith

gc_interval-IsInterval : (v : TomlValue) (n : ℕ) → accepted (gc_interval v) ≡ some n → IsInterval n
unfolding gc_interval
gc_interval-IsInterval (TomlValue.boolean b) n h = ground arith
gc_interval-IsInterval (unsigned zero) n h = ground arith
gc_interval-IsInterval (unsigned (suc m)) n h = ground arith
gc_interval-IsInterval other n h = ground arith

module _ {V : Type 0} ⦃value : Value V⦄ where
  read_timeout-IsTimeout : (v : V) (t : Option ℕ) → read_timeout v ≡ some t → IsTimeout t
  unfolding read_timeout
  read_timeout-IsTimeout v t h = instance_timeout-IsTimeout (toml_value (value.view v)) t h

  read_interval-IsInterval : (v : V) (n : ℕ) → read_interval v ≡ some n → IsInterval n
  unfolding read_interval
  read_interval-IsInterval v n h = gc_interval-IsInterval (toml_value (value.view v)) n h

  as_u16-fits : (shape : Shape V) (n : ℕ) → as_u16 shape ≡ some n → n ≤ 65535
  unfolding as_u16
  as_u16-fits null n h = ground arith
  as_u16-fits (boolean b) n h = ground arith
  as_u16-fits (number (pos m)) n h = ground arith
  as_u16-fits (number (negsuc m)) n h = ground arith
  as_u16-fits (float s) n h = ground arith
  as_u16-fits (string s) n h = ground arith
  as_u16-fits (array vs) n h = ground arith
  as_u16-fits (object es) n h = ground arith

  module _ (parse_ip : Text → Option Text) where
    -- A port is one that fits.
    read_tcp-IsAddress : (vs : List V) (a : Address) → read_tcp parse_ip vs ≡ some a → IsAddress a
    unfolding read_tcp read_u16
    read_tcp-IsAddress [] a h = ground arith
    read_tcp-IsAddress (ip ∷ []) a h = ground arith
    read_tcp-IsAddress (ip ∷ port ∷ v ∷ vs) a h = ground arith
    read_tcp-IsAddress (ip ∷ port ∷ []) a h =
        let (s, e1, h1) = bind-some (read_string ip) _ a h in
        let (addr, e2, h2) = bind-some (parse_ip s) _ a h1 in
        let (n, e3, h3) = bind-some (read_u16 port) _ a h2 in
        subst IsAddress (some-injective _ _ h3) (as_u16-fits (value.view port) n e3)

    as_address-IsAddress :
        (shape : Shape V) (a : Address) → as_address parse_ip shape ≡ some a → IsAddress a
    unfolding as_address
    as_address-IsAddress (array vs) a h = read_tcp-IsAddress vs a h
    as_address-IsAddress (string path) a h = subst IsAddress (some-injective _ _ h) tt
    as_address-IsAddress null a h = ground arith
    as_address-IsAddress (boolean b) a h = ground arith
    as_address-IsAddress (number n) a h = ground arith
    as_address-IsAddress (float s) a h = ground arith
    as_address-IsAddress (object es) a h = ground arith

    read_address-IsAddress : (v : V) (a : Address) → read_address parse_ip v ≡ some a → IsAddress a
    unfolding read_address
    read_address-IsAddress v a h = as_address-IsAddress (value.view v) a h

    take_config-IsValid :
        (field : Text → Option V) (config : Config)
        → take_config parse_ip field ≡ some config
        → IsValid config
    unfolding take_config
    take_config-IsValid field config h =
        let (timeout, e1, h1) =
          bind-some
            (or_default read_timeout default.instance_timeout (field (codes "instance_timeout"))) _
            config h in
        let (interval, e2, h2) =
          bind-some (or_default read_interval default.gc_interval (field (codes "gc_interval"))) _
            config h1 in
        let (listen, e3, h3) =
          bind-some (or_default (read_address parse_ip) default.listen (field (codes "listen"))) _
            config h2 in
        let (connect, e4, h4) =
          bind-some (or_default (read_address parse_ip) default.connect (field (codes "connect"))) _
            config h3 in
        let (filters, e5, h5) =
          bind-some (or_default read_string default.log_filters (field (codes "log_filters"))) _
            config h4 in
        let (mode, e6, h6) =
          bind-some (or_default read_string default.log_mode (field (codes "log_mode"))) _ config
            h5 in
        let (names, e7, h7) =
          bind-some
            (or_default (read_list read_string) default.pass_environment
              (field (codes "pass_environment")))
            _ config h6 in
        subst IsValid (some-injective _ _ h7) (record {
          timeout =
              or_default-some IsTimeout read_timeout _ timeout _ default-IsValid.timeout
                (λ v. read_timeout-IsTimeout v timeout) e1;
          interval =
              or_default-some IsInterval read_interval _ interval _ default-IsValid.interval
                (λ v. read_interval-IsInterval v interval) e2;
          listen =
              or_default-some IsAddress (read_address parse_ip) _ listen _ default-IsValid.listen
                (λ v. read_address-IsAddress v listen) e3;
          connect =
              or_default-some IsAddress (read_address parse_ip) _ connect _ default-IsValid.connect
                (λ v. read_address-IsAddress v connect) e4;
          names = BTreeSet.from_iter-ascending names;
        })

    -- Every configuration that is read has these bounds.
    pub read_config-IsValid :
        (es : HashMap Text V) (config : Config)
        → read_config parse_ip es ≡ some config
        → IsValid config
    unfolding read_config
    read_config-IsValid es config h =
        let (field, e, h1) =
          bind-some (strict_fields config_names es) (take_config parse_ip) config h in
        take_config-IsValid field config h1
