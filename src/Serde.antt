-- ===== src/Serde.antt =====
-- serde_json's `Value`, and what `#[derive(Serialize, Deserialize)]` makes of a field, a struct and
-- a list. A `Value` is a parameter, known by its shape. A struct is written as an object; that serde
-- also takes an array of the fields in order is left out.
pub mod Laws
pub mod Documents
pub mod Options
pub mod Params
pub mod ParamLaws
pub mod Readable
pub mod Registrations
pub mod Status
pub mod Messages
pub mod MessageLaws
pub mod Relay
pub mod Codecs
pub mod Peers
pub mod Folders
pub mod Wire
pub mod Editor
pub mod Shared
use mathlib.Core.Option
use mathlib.Core.Path.{fun_ext}
use ra_multiplex.Base.{
  ℕ, Text, List, [], ◌∷◌, map, Option, none, some, Bool, true, false, not, ◌==◌, nat_eq, list_eq,
  text_eq, leb, All, ◌≡◌, refl, ap, ◌∙◌, arith, if◌then◌else◌, ◌≤◌,
}
use ra_multiplex.Base.Int.{ℤ, pos, negsuc}
use ra_multiplex.Base.Try.{◌>>=◌}
use ra_multiplex.Base.HashMap
use ra_multiplex.Base.HashMap.{HashMap}
use ra_multiplex.Str.Decimal.{i64_max}
use ra_multiplex.Str.Decimal.RoundTrip.{Fits}

-- A `Number` is an integer, an `i64` or a `u64`, or a float, which the program never looks into. A
-- `Map` is the list of its entries; that it sorts them is not seen by looking at keys.
pub data Shape (V : Type 0) : Type 0 where
  null : Shape V
  boolean : Bool → Shape V
  number : ℤ → Shape V
  float : Text → Shape V
  string : Text → Shape V
  array : List V → Shape V
  object : HashMap Text V → Shape V

pub record Value (V : Type 0) : Type 0 where
  pub view : V → Shape V
  pub build : Shape V → V
  pub view-build : (s : Shape V) → view (build s) ≡ s

abbrev pub IsReadAs : {V A : Type 0} → (V → Option A) → (A → V) → A → Type 0
IsReadAs read write a = read (write a) ≡ some a

module _ {V : Type 0} where
  unfoldable pub as_string : Shape V → Option Text
  as_string (string s) = some s
  as_string other = none

  -- The number is in the range of `u64` if it is not negative.
  unfoldable pub as_u64 : Shape V → Option ℕ
  as_u64 (number (pos n)) = some n
  as_u64 other = none

  unfoldable pub as_u32 : Shape V → Option ℕ
  as_u32 (number (pos n)) = if leb n 4294967295 then some n else none
  as_u32 other = none

  unfoldable pub as_i64 : Shape V → Option ℤ
  as_i64 (number (pos n)) = if leb n i64_max then some (pos n) else none
  as_i64 (number (negsuc n)) = if leb n i64_max then some (negsuc n) else none
  as_i64 other = none

  unfoldable pub as_array : Shape V → Option (List V)
  as_array (array vs) = some vs
  as_array other = none

  unfoldable pub as_object : Shape V → Option (HashMap Text V)
  as_object (object es) = some es
  as_object other = none

  unfoldable pub is_null : Shape V → Bool
  is_null null = true
  is_null other = false

  -- The fields that are not left out by `skip_serializing_if`.
  unfoldable pub present : HashMap Text (Option V) → HashMap Text V
  present [] = []
  present ((k, none) ∷ fields) = present fields
  present ((k, some v) ∷ fields) = (k, v) ∷ present fields

  abbrev pub join : Option (Option V) → Option V
  join none = none
  join (some o) = o

  abbrev pub written : HashMap Text (Option V) → Text → Option V
  written fields k = join (HashMap.get k fields)

module _ {A : Type 0} {V : Type 0} (read : V → Option A) where
  unfoldable pub required : Option V → Option A
  required none = none
  required (some v) = read v

  -- `#[serde(default = …)]`
  unfoldable pub or_default : A → Option V → Option A
  or_default a none = some a
  or_default a (some v) = read v

  unfoldable pub read_all : List V → Option (List A)
  read_all [] = some []
  read_all (v ∷ vs) = do a ← read v; rest ← read_all vs; some (a ∷ rest)

module _ {V : Type 0} ⦃value : Value V⦄ where
  unfoldable pub read_string : V → Option Text
  unfolding as_string
  read_string v = as_string (value.view v)

  unfoldable pub read_u64 : V → Option ℕ
  unfolding as_u64
  read_u64 v = as_u64 (value.view v)

  unfoldable pub read_u32 : V → Option ℕ
  unfolding as_u32
  read_u32 v = as_u32 (value.view v)

  unfoldable pub read_i64 : V → Option ℤ
  unfolding as_i64
  read_i64 v = as_i64 (value.view v)

  abbrev pub write_string : Text → V
  write_string s = value.build (string s)

  abbrev pub write_u64 : ℕ → V
  write_u64 n = value.build (number (pos n))

  abbrev pub write_i64 : ℤ → V
  write_i64 n = value.build (number n)

  -- `Option<T>`: a field that is missing and one that is `null` are both `None`.
  unfoldable pub optional : {A : Type 0} → (V → Option A) → Option V → Option (Option A)
  unfolding is_null
  optional read none = some none
  optional read (some v) = if is_null (value.view v) then some none else Option.map some (read v)

  -- An `Option` that is not left out where it is `None`.
  abbrev pub write_option : {A : Type 0} → (A → V) → Option A → V
  write_option write none = value.build null
  write_option write (some a) = write a

  -- Is the field, if it is there, other than `null`?
  unfoldable pub is_solid : Option V → Bool
  unfolding is_null
  is_solid none = true
  is_solid (some v) = not (is_null (value.view v))

  unfoldable pub read_list : {A : Type 0} → (V → Option A) → V → Option (List A)
  unfolding as_array read_all
  read_list read v = do vs ← as_array (value.view v); read_all read vs

  abbrev pub write_list : {A : Type 0} → (A → V) → List A → V
  write_list write xs = value.build (array (map write xs))

  unfoldable pub read_struct : V → Option (Text → Option V)
  unfolding as_object
  read_struct v = do es ← as_object (value.view v); some (λ k. HashMap.get k es)

  abbrev pub write_struct : HashMap Text (Option V) → V
  write_struct fields = value.build (object (present fields))
