-- ===== src/Lsp.antt =====
-- src/lsp.rs: the parameters of the LSP messages that the program reads or writes. `V` is
-- `serde_json::Value`; a `serde_json::Map` is the list of its entries.
pub mod Jsonrpc
pub mod Ext
pub mod Transport
pub mod Json
use ra_multiplex.Base.{ℕ, Text, List, Option}
use Ext.{LspMuxOptions}

pub record ClientInfo : Type 0 where
  pub name : Text
  pub version : Option Text

pub record InitializationOptions (V : Type 0) : Type 0 where
  pub lsp_mux : Option LspMuxOptions
  pub other_options : List (Text × V)

pub data TraceValue : Type 0 where
  off messages verbose : TraceValue

pub record WorkspaceFolder : Type 0 where
  pub uri : Text
  pub name : Text

pub record InitializeParams (V : Type 0) : Type 0 where
  pub process_id : Option ℕ
  pub client_info : Option ClientInfo
  pub locale : Option Text
  pub root_path : Option Text
  pub root_uri : Option Text
  pub initialization_options : Option (InitializationOptions V)
  pub capabilities : Option V
  pub trace : Option TraceValue
  pub workspace_folders : List WorkspaceFolder

pub record ServerInfo : Type 0 where
  pub name : Text
  pub version : Option Text

pub record InitializeResult (V : Type 0) : Type 0 where
  pub capabilities : V
  pub server_info : Option ServerInfo

pub record Registration (V : Type 0) : Type 0 where
  pub id : Text
  pub method : Text
  pub register_options : Option V

pub record RegistrationParams (V : Type 0) : Type 0 where
  pub registrations : List (Registration V)

pub record Unregistration : Type 0 where
  pub id : Text
  pub method : Text

pub record UnregistrationParams : Type 0 where
  pub unregistrations : List Unregistration

pub record TextDocumentItem : Type 0 where
  pub uri : Text
  pub language_id : Text
  pub version : ℕ
  pub text : Text

pub record DidOpenTextDocumentParams : Type 0 where
  pub text_document : TextDocumentItem

pub record TextDocumentIdentifier : Type 0 where
  pub uri : Text

pub record DidCloseTextDocumentParams : Type 0 where
  pub text_document : TextDocumentIdentifier
