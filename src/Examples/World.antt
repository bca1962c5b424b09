-- ===== src/Examples/World.antt =====
-- A small stand-in for the crates: JSON values as trees, and an instance with its clients.
use ra_multiplex.Base.{ℕ, Text, codes, List, [], ◌∷◌, none, false}
use ra_multiplex.Base.Int.{pos}
use ra_multiplex.Lsp.{DidOpenTextDocumentParams}
use ra_multiplex.Lsp.Json.{Json, RoundTrips}
use ra_multiplex.Lsp.Jsonrpc.{version, Request, Notification, RequestId, string, ResponseSuccess}
use ra_multiplex.Instance.{Instance, InstanceKey, Client, ClientData}
use ra_multiplex.Serde.{write_struct}
use ra_multiplex.Serde.Documents.{open_fields}
use ra_multiplex.Serde.Codecs.{serde_json, did_open_RoundTrips, did_close_RoundTrips}
use ra_multiplex.Examples.Trees.{Tree, void, quote, trees}

abbrev pub Value : Type 0
Value = Tree

abbrev pub null : Value
null = void

instance abbrev pub value_json : Json Value
value_json = serde_json

pub opens : RoundTrips value_json.did_open
opens = did_open_RoundTrips Tree

pub closes : RoundTrips value_json.did_close
closes = did_close_RoundTrips Tree

abbrev pub key : InstanceKey
key = record { server = codes "ra"; args = []; env = []; workspace_root = codes "/w" }

abbrev pub fresh_instance : Instance Value
fresh_instance = record {
  key = key;
  pid = 7;
  init_result = record { capabilities = null; server_info = none };
  clients = [];
  dynamic_capabilities = [];
  close = false;
  last_used = pos 0;
}

abbrev pub client : ℕ → Client
client n = record { id = n }

abbrev pub connected : ℕ → List Text → ℕ × ClientData
connected n files = (n, record { client = client n; files = files })

-- Clients 1 and 2 are connected, and client 1 has a file open.
abbrev pub shared_instance : Instance Value
shared_instance = record fresh_instance {
  clients = connected 1 (codes "a.rs" ∷ []) ∷ connected 2 [] ∷ [];
}

abbrev pub open_params : DidOpenTextDocumentParams
open_params = record {
  text_document = record { uri = codes "a.rs"; language_id = codes "rust"; version = 1; text = [] };
}

abbrev pub open_value : Value
open_value = write_struct (open_fields open_params)

abbrev pub did_open_message : Notification Value
did_open_message = record {
  jsonrpc = version;
  method = codes "textDocument/didOpen";
  params = open_value;
}

abbrev pub ask : Text → Request Value
ask method = record { jsonrpc = version; method = method; params = null; id = string (codes "5") }

abbrev pub reply : RequestId → ResponseSuccess Value
reply id = record { jsonrpc = version; result = quote (codes "yes"); id = id }
