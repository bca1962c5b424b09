-- ===== src/Serde/Codecs.antt =====
-- serde_json's conversions at the program's types, as the attributes of the types make them.
use ra_multiplex.Base.{[], All, list_eq, nat_eq}
use ra_multiplex.Lsp.{InitializeParams}
use ra_multiplex.Lsp.Json.{Json, RoundTrips, IsReadBack}
use ra_multiplex.Lsp.Ext.{StatusResponse}
use ra_multiplex.Serde.{Value, Shape, write_struct}
use ra_multiplex.Serde.Documents.{
  open_fields, read_open, read_open_lem, close_fields, read_close, read_close_lem,
}
use ra_multiplex.Serde.Params.{params_fields, read_params, result_fields, read_result}
use ra_multiplex.Serde.ParamLaws.{IsReadable, read_params_lem}
use ra_multiplex.Serde.Registrations.{
  registrations_fields, read_registrations, unregistrations_fields, read_unregistrations,
}
use ra_multiplex.Serde.Status.{status_fields, read_status, read_status_lem, IsInRange}

module _ {V : Type 0} ⦃value : Value V⦄ where
  -- `to_value` and `from_value` at each type.
  abbrev pub serde_json : Json V
  serde_json = record {
    null = value.build Shape.null;
    empty_object = value.build (Shape.object []);
    initialize_params = record {
      to_value = λ p. write_struct (params_fields p);
      from_value = read_params;
    };
    initialize_result = record {
      to_value = λ p. write_struct (result_fields p);
      from_value = read_result;
    };
    registration_params = record {
      to_value = λ p. write_struct (registrations_fields p);
      from_value = read_registrations;
    };
    unregistration_params = record {
      to_value = λ p. write_struct (unregistrations_fields p);
      from_value = read_unregistrations;
    };
    did_open = record { to_value = λ p. write_struct (open_fields p); from_value = read_open };
    did_close = record { to_value = λ p. write_struct (close_fields p); from_value = read_close };
    status_response = record {
      to_value = λ p. write_struct (status_fields p);
      from_value = read_status;
    };
  }

module _ (V : Type 0) ⦃value : Value V⦄ where
  pub did_open_RoundTrips : RoundTrips (serde_json {V = V}).did_open
  did_open_RoundTrips params = read_open_lem V params

  pub did_close_RoundTrips : RoundTrips (serde_json {V = V}).did_close
  did_close_RoundTrips params = read_close_lem V params

  pub params_IsReadBack :
      (params : InitializeParams V)
      → IsReadable params
      → IsReadBack (serde_json {V = V}).initialize_params params
  params_IsReadBack params r = read_params_lem V params r

  pub status_IsReadBack :
      (s : StatusResponse)
      → All IsInRange s.instances
      → IsReadBack (serde_json {V = V}).status_response s
  status_IsReadBack s h = read_status_lem V s h
