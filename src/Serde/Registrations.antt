-- ===== src/Serde/Registrations.antt =====
-- src/lsp.rs: how registrations of capabilities are written and read.
use ra_multiplex.Base.{
  Text, codes, List, [], ◌∷◌, Option, some, true, list_beq, list_eq, nat_eq, ◌≡◌, refl, All,
}
use ra_multiplex.Base.Try.{◌>>=◌}
use ra_multiplex.Base.HashMap
use ra_multiplex.Base.HashMap.{HashMap}
use ra_multiplex.Lsp.{Registration, RegistrationParams, Unregistration, UnregistrationParams}
use ra_multiplex.Serde.{
  Value, IsReadAs, required, optional, read_string, write_string, read_list, write_list,
  read_struct, write_struct, is_solid,
}
use ra_multiplex.Serde.Laws.{read_string_lem, read_list_lem, read_struct_lem, optional_solid}

module _ {V : Type 0} ⦃value : Value V⦄ where
  abbrev pub registration_fields : Registration V → HashMap Text (Option V)
  registration_fields reg =
      (codes "id", some (write_string reg.id))
      ∷ (codes "method", some (write_string reg.method))
      ∷ (codes "registerOptions", reg.register_options)
      ∷ []

  unfoldable pub read_registration : V → Option (Registration V)
  unfolding required optional read_string read_struct
  read_registration v = do
    field ← read_struct v
    id ← required read_string (field (codes "id"))
    method ← required read_string (field (codes "method"))
    options ← optional some (field (codes "registerOptions"))
    some (record { id = id; method = method; register_options = options })

  abbrev pub write_registration : Registration V → V
  write_registration reg = write_struct (registration_fields reg)

  abbrev pub registrations_fields : RegistrationParams V → HashMap Text (Option V)
  registrations_fields params =
      (codes "registrations", some (write_list write_registration params.registrations)) ∷ []

  unfoldable pub read_registrations : V → Option (RegistrationParams V)
  unfolding required read_list read_registration read_struct
  read_registrations v = do
    field ← read_struct v
    registrations ← required (read_list read_registration) (field (codes "registrations"))
    some (record { registrations = registrations })

  abbrev pub unregistration_fields : Unregistration → HashMap Text (Option V)
  unregistration_fields unreg =
      (codes "id", some (write_string unreg.id))
      ∷ (codes "method", some (write_string unreg.method))
      ∷ []

  unfoldable pub read_unregistration : V → Option Unregistration
  unfolding required read_string read_struct
  read_unregistration v = do
    field ← read_struct v
    id ← required read_string (field (codes "id"))
    method ← required read_string (field (codes "method"))
    some (record { id = id; method = method })

  abbrev pub write_unregistration : Unregistration → V
  write_unregistration unreg = write_struct (unregistration_fields unreg)

  -- The protocol's own misspelling.
  abbrev pub unregistrations_fields : UnregistrationParams → HashMap Text (Option V)
  unregistrations_fields params =
      (codes "unregisterations", some (write_list write_unregistration params.unregistrations)) ∷ []

  unfoldable pub read_unregistrations : V → Option UnregistrationParams
  unfolding required read_list read_unregistration read_struct
  read_unregistrations v = do
    field ← read_struct v
    unregistrations ← required (read_list read_unregistration) (field (codes "unregisterations"))
    some (record { unregistrations = unregistrations })

  -- Its options, if there are any, are not `null`.
  abbrev pub IsPlain : Registration V → Type 0
  IsPlain reg = is_solid reg.register_options ≡ true

module _ (V : Type 0) ⦃value : Value V⦄ where
  read_registration_lem :
      (reg : Registration V) → IsPlain reg → read_registration (write_registration reg) ≡ some reg
  unfolding read_registration required HashMap.unique HashMap.contains_key HashMap.get list_beq
  read_registration_lem reg plain = rw (
    read_struct_lem V (registration_fields reg) refl,
    read_string_lem V reg.id,
    read_string_lem V reg.method,
    optional_solid V reg.register_options plain,
  )

  registrations_lem :
      (regs : List (Registration V))
      → All IsPlain regs
      → All (IsReadAs read_registration write_registration) regs
  registrations_lem [] h = tt
  registrations_lem (r ∷ rs) h = (read_registration_lem r h.0, registrations_lem rs h.1)

  pub read_registrations_lem :
      (params : RegistrationParams V)
      → All IsPlain params.registrations
      → read_registrations (write_struct (registrations_fields params)) ≡ some params
  unfolding read_registrations required HashMap.unique HashMap.contains_key HashMap.get list_beq
  read_registrations_lem params plain = rw (
    read_struct_lem V (registrations_fields params) refl,
    read_list_lem V read_registration write_registration params.registrations
        (registrations_lem params.registrations plain),
  )

  unregistrations_lem :
      (us : List Unregistration)
      → All (IsReadAs (read_unregistration {V = V}) write_unregistration) us
  unfolding read_unregistration required HashMap.unique HashMap.contains_key HashMap.get list_beq
  unregistrations_lem [] = tt
  unregistrations_lem (u ∷ us) = (
    rw (
      read_struct_lem V (unregistration_fields u) refl,
      read_string_lem V u.id,
      read_string_lem V u.method,
    ),
    unregistrations_lem us,
  )

  pub read_unregistrations_lem :
      (params : UnregistrationParams)
      → read_unregistrations {V = V} (write_struct (unregistrations_fields params)) ≡ some params
  unfolding read_unregistrations required HashMap.unique HashMap.contains_key HashMap.get list_beq
  read_unregistrations_lem params = rw (
    read_struct_lem V (unregistrations_fields params) refl,
    read_list_lem V read_unregistration write_unregistration params.unregistrations
        (unregistrations_lem params.unregistrations),
  )
