-- ===== src/Serde/Laws.antt =====
-- What was written is read back.
use mathlib.Core.Option
use mathlib.Core.Path.{fun_ext}
use ra_multiplex.Base.{
  ℕ, Text, List, [], ◌∷◌, map, Option, none, some, true, false, nat_eq, list_eq, text_eq, All, ◌≡◌,
  refl, ap, ◌∙◌, arith, ◌≤◌,
}
use ra_multiplex.Base.Int.{ℤ, pos, negsuc}
use ra_multiplex.Base.Try.{◌>>=◌}
use ra_multiplex.Base.HashMap
use ra_multiplex.Base.HashMap.{HashMap}
use ra_multiplex.Str.Decimal.RoundTrip.{Fits}
use ra_multiplex.Serde.{
  Shape, null, number, string, object, array, Value, IsReadAs, as_string, as_u64, as_u32, as_i64,
  as_array, as_object, is_null, present, written, read_all, read_string, read_u64, read_u32,
  read_i64, write_string, write_u64, write_i64, optional, write_option, is_solid, read_list,
  write_list, read_struct, write_struct,
}

module _ {V : Type 0} where
  contains_key-present :
      (k : Text) (fields : HashMap Text (Option V))
      → HashMap.contains_key k fields ≡ false
      → HashMap.get k (present fields) ≡ none
  unfolding present HashMap.get HashMap.contains_key
  contains_key-present k [] h = refl
  contains_key-present k ((j, none) ∷ fields) h = ground (arith, contains_key-present k fields)
  contains_key-present k ((j, some v) ∷ fields) h = ground (arith, contains_key-present k fields)

  pub get-present :
      (fields : HashMap Text (Option V)) (k : Text)
      → HashMap.unique fields ≡ true
      → HashMap.get k (present fields) ≡ written fields k
  unfolding present HashMap.get HashMap.unique
  get-present [] k u = refl
  get-present ((j, none) ∷ fields) k u =
      ground (arith, text_eq.beq_iff j k, get-present fields k, contains_key-present k fields)
  get-present ((j, some v) ∷ fields) k u =
      ground (arith, text_eq.beq_iff j k, get-present fields k, contains_key-present k fields)

module _ {A : Type 0} {V : Type 0} (read : V → Option A) where
  pub read_all-map :
      (write : A → V) (xs : List A)
      → All (IsReadAs read write) xs
      → read_all read (map write xs) ≡ some xs
  unfolding read_all
  read_all-map write [] h = refl
  read_all-map write (x ∷ xs) h = rw (h.0, read_all-map write xs h.1)

module _ (V : Type 0) ⦃value : Value V⦄ where
  pub read_string_lem : (s : Text) → read_string {V = V} (write_string s) ≡ some s
  unfolding read_string
  read_string_lem s = ap as_string (value.view-build (string s))

  pub read_u64_lem : (n : ℕ) → read_u64 {V = V} (write_u64 n) ≡ some n
  unfolding read_u64
  read_u64_lem n = ap as_u64 (value.view-build (number (pos n)))

  pub read_u32_lem : (n : ℕ) → n ≤ 4294967295 → read_u32 {V = V} (write_u64 n) ≡ some n
  unfolding read_u32
  read_u32_lem n h = ap as_u32 (value.view-build (number (pos n))) ∙ ground arith

  pub read_i64_lem : (n : ℤ) → Fits n → read_i64 {V = V} (write_i64 n) ≡ some n
  unfolding read_i64
  read_i64_lem (pos n) h = ap as_i64 (value.view-build (number (pos n))) ∙ ground arith
  read_i64_lem (negsuc n) h = ap as_i64 (value.view-build (number (negsuc n))) ∙ ground arith

  pub read_list_lem :
      {A : Type 0} (read : V → Option A) (write : A → V) (xs : List A)
      → All (IsReadAs read write) xs
      → read_list read (write_list write xs) ≡ some xs
  unfolding read_list
  read_list_lem read write xs h =
      ap (λ s. as_array s >>= read_all read) (value.view-build (array (map write xs)))
      ∙ read_all-map read write xs h

  pub read_struct_lem :
      (fields : HashMap Text (Option V))
      → HashMap.unique fields ≡ true
      → read_struct (write_struct fields) ≡ some (written fields)
  unfolding read_struct
  read_struct_lem fields u =
      ap (λ s. as_object s >>= λ es. some (λ k. HashMap.get k es))
        (value.view-build (object (present fields)))
      ∙ ap some (fun_ext (λ k. get-present fields k u))

  pub is_null-build : (s : Shape V) → is_null (value.view (value.build s)) ≡ is_null s
  is_null-build s = ap is_null (value.view-build s)

  pub write_string_solid : (s : Text) → is_null (value.view (write_string s)) ≡ false
  unfolding is_null
  write_string_solid s = is_null-build (string s)

  pub write_u64_solid : (n : ℕ) → is_null (value.view (write_u64 n)) ≡ false
  unfolding is_null
  write_u64_solid n = is_null-build (number (pos n))

  pub write_struct_solid :
      (fields : HashMap Text (Option V)) → is_null (value.view (write_struct fields)) ≡ false
  unfolding is_null
  write_struct_solid fields = is_null-build (object (present fields))

  -- A field that is left out where it is `None`.
  pub optional_lem :
      {A : Type 0} (read : V → Option A) (write : A → V) (o : Option A)
      → ((a : A) → IsReadAs read write a)
      → ((a : A) → is_null (value.view (write a)) ≡ false)
      → optional read (Option.map write o) ≡ some o
  unfolding optional
  optional_lem read write none law solid = refl
  optional_lem read write (some a) law solid = rw (solid a, law a)

  -- A field that is `null` where it is `None`.
  pub optional-write_option :
      {A : Type 0} (read : V → Option A) (write : A → V) (o : Option A)
      → ((a : A) → IsReadAs read write a)
      → ((a : A) → is_null (value.view (write a)) ≡ false)
      → optional read (some (write_option write o)) ≡ some o
  unfolding optional is_null
  optional-write_option read write none law solid = rw (is_null-build null)
  optional-write_option read write (some a) law solid = rw (solid a, law a)

  pub optional_solid : (o : Option V) → is_solid o ≡ true → optional some o ≡ some o
  unfolding optional is_solid
  optional_solid none h = refl
  optional_solid (some v) h = ground arith
