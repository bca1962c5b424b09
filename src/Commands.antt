-- ===== src/Commands.antt =====
-- src/ext.rs: the commands that ask the server for something. Printing is not part of it.
pub mod Answers
pub mod Run
pub mod Exchange
use ra_multiplex.Base.{Text, codes, List, [], Option, none, some, Outcome, ok, err, panic, Error}
use ra_multiplex.Base.Int.{pos}
use ra_multiplex.Base.Fallible.{◌>>=◌, or_error}
use ra_multiplex.Io.{IoResult, done}
use ra_multiplex.Lsp.{InitializeParams}
use ra_multiplex.Lsp.Json.{Json}
use ra_multiplex.Lsp.Jsonrpc.{
  Message, Response, success, failure, request, version, number, into_response,
}
use ra_multiplex.Lsp.Ext.{Method, StatusResponse, protocol_version, status, reload}
use ra_multiplex.Registry.Spawn.{written}

module _ {V : Type 0} where
  unfoldable pub command_params : Method → InitializeParams V
  command_params method = record {
    initialization_options = some (record {
      lsp_mux = some (record { version = protocol_version; method = method });
      other_options = [];
    });
    process_id = none;
    client_info = none;
    locale = none;
    root_path = none;
    root_uri = none;
    capabilities = none;
    trace = none;
    workspace_folders = [];
  }

  -- A response with an error ends the command with an error.
  unfoldable pub response_value : Response V → Outcome V
  response_value (success res) = ok res.result
  response_value (failure error) = err Error.error_response

  -- `ext_request` behind the connection; `parse` is `from_value` at the type that the caller wants.
  unfoldable pub ext_request :
      {A : Type 0} → (V → Option A) → IoResult (Unit {0}) → Outcome (Option (Message V)) → Outcome A
  unfolding into_response response_value
  ext_request parse write received = do
    u ← written write
    read ← received
    message ← or_error read Error.stream_ended
    response ← into_response message
    value ← response_value response
    or_error (parse value) Error.parsing_result

  -- `IgnoredAny` is parsed from any value.
  unfoldable pub reload_command :
      IoResult (Unit {0}) → Outcome (Option (Message V)) → Outcome (Unit {0})
  unfolding ext_request
  reload_command = ext_request (λ v. some tt)

module _ {V : Type 0} ⦃json : Json V⦄ where
  unfoldable pub command_request : Method → Message V
  unfolding command_params
  command_request method = request (record {
    jsonrpc = version;
    method = codes "initialize";
    params = json.initialize_params.to_value (command_params method);
    id = number (pos 0);
  })

  unfoldable pub status_command :
      IoResult (Unit {0}) → Outcome (Option (Message V)) → Outcome StatusResponse
  unfolding ext_request
  status_command = ext_request json.status_response.from_value
