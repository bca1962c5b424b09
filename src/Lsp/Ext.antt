-- ===== src/Lsp/Ext.antt =====
-- src/lsp/ext.rs: the tags in request ids, and the messages between proxy and server.
pub mod TagLaws
use ra_multiplex.Base.{
  ℕ, Text, codes, ◌++◌, List, [], ◌∷◌, Option, none, some, ◌==◌, list_eq, nat_eq, if◌then◌else◌,
}
use mathlib.Core.Option
use ra_multiplex.Base.Int.{ℤ}
use ra_multiplex.Base.Try.{◌>>=◌}
use ra_multiplex.Str.{strip_prefix, split_once}
use ra_multiplex.Str.Decimal.{display_usize, display_i64, parse_usize, parse_i64}
use ra_multiplex.Lsp.Jsonrpc.{RequestId, number, string}

pub data Tag : Type 0 where
  client_id : ℕ → Tag
  drop : Tag
  forward : Tag

abbrev pub colon : Text
colon = codes ":"

-- What `tag` puts in front, without the colon behind it.
unfoldable pub tag_prefix : Tag → Text
tag_prefix (client_id n) = codes "client_id:" ++ display_usize n
tag_prefix drop = codes "drop"
tag_prefix forward = codes "forward"

unfoldable pub inner_id : RequestId → Text
inner_id (number n) = codes "n:" ++ display_i64 n
inner_id (string s) = codes "s:" ++ s

-- `RequestId::tag`
unfoldable pub tag : RequestId → Tag → RequestId
unfolding tag_prefix inner_id
tag id t = string (tag_prefix t ++ colon ++ inner_id id)

-- An error of the three parsers is only logged, so it is `none` here.
unfoldable pub inner_value : Text → Text → Option RequestId
inner_value value_type serialized_id =
    if value_type == codes "n"
    then Option.map number (parse_i64 serialized_id)
    else if value_type == codes "s"
    then some (string serialized_id)
    else none

unfoldable pub parse_inner_id : Text → Option RequestId
unfolding inner_value
parse_inner_id input = do
  (value_type, serialized_id) ← split_once colon input
  inner_value value_type serialized_id

unfoldable pub parse_client_id : Text → Option (ℕ × Text)
parse_client_id input = do
  (client, rest) ← split_once colon input
  n ← parse_usize client
  some (n, rest)

unfoldable pub parse_forward : Text → Option (Tag × RequestId)
parse_forward input = do
  rest ← strip_prefix (codes "forward:") input
  id ← parse_inner_id rest
  some (forward, id)

unfoldable pub parse_drop : Text → Option (Tag × RequestId)
unfolding parse_forward
parse_drop input = elim (strip_prefix (codes "drop:") input) [
  | some rest ↦ do id ← parse_inner_id rest; some (drop, id)
  | none ↦ parse_forward input
]

unfoldable pub parse_tag : RequestId → Option (Tag × RequestId)
unfolding parse_drop
parse_tag (number n) = none
parse_tag (string input) = elim (strip_prefix (codes "client_id:") input) [
  | some rest ↦ do
    (n, rest') ← parse_client_id rest
    id ← parse_inner_id rest'
    some (client_id n, id)
  | none ↦ parse_drop input
]

-- `RequestId::untag`: an id that carries no tag comes back as it is.
unfoldable pub untag : RequestId → Option Tag × RequestId
unfolding parse_tag
untag self = elim (parse_tag self) [ some (t, id) ↦ (some t, id) | none ↦ (none, self) ]

-- `ext::Request`, the method of an `lspMux` section. `env` is a `BTreeMap`, listed by its keys.
pub data Method : Type 0 where
  connect :
      (server : Text) (args : List Text) (env : List (Text × Text)) (cwd : Option Text) → Method
  status : Method
  reload : (cwd : Text) → Method

pub record LspMuxOptions : Type 0 where
  pub version : Text
  pub method : Method

abbrev pub protocol_version : Text
protocol_version = codes "1"

-- `ext::Client`
pub record ClientStatus : Type 0 where
  pub id : ℕ
  pub files : List Text

-- `ext::Instance`
pub record InstanceStatus : Type 0 where
  pub pid : ℕ
  pub server : Text
  pub args : List Text
  pub env : List (Text × Text)
  pub workspace_root : Text
  pub registered_dyn_capabilities : List Text
  pub last_used : ℤ
  pub clients : List ClientStatus

pub record StatusResponse : Type 0 where
  pub instances : List InstanceStatus
