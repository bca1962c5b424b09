-- ===== src/Client/Workspace.antt =====
-- src/client.rs, `parse_root_uri` and `select_workspace_root`. The crates that parse and decode a
-- URI are parameters.
use ra_multiplex.Base.{
  ℕ, Text, [], ◌∷◌, Option, none, some, Bool, true, false, ◌==◌, ◌&&◌, ◌||◌, nat_eq, list_eq, leb,
  if◌then◌else◌, Outcome, ok, err, panic, Error,
}
use ra_multiplex.Base.Fallible.{◌>>=◌, or_error}
use ra_multiplex.Lsp.{InitializeParams}

-- `parse` is `URI::try_from` with `into_parts`: the scheme, and the path after `normalize(false)`
-- and `to_string`. `decode` is `percent_decode_str` with `decode_utf8`.
pub record UriCrates : Type 0 where
  pub parse : Text → Option (Bool × Text)
  pub decode : Text → Option Text

unfoldable pub is_ascii_alphabetic : ℕ → Bool
is_ascii_alphabetic c = (leb b'A' c && leb c b'Z') || (leb b'a' c && leb c b'z')

-- `/C:/…` loses its first byte where `windows` is set.
unfoldable pub strip_drive : Bool → Text → Text
unfolding is_ascii_alphabetic
strip_drive false root = root
strip_drive true (a ∷ drive ∷ c ∷ d ∷ rest) =
    if a == b'/' && is_ascii_alphabetic drive && c == b':' && d == b'/'
    then drive ∷ c ∷ d ∷ rest
    else a ∷ drive ∷ c ∷ d ∷ rest
strip_drive true root = root

module _ (uri : UriCrates) (windows : Bool) where
  unfoldable pub parse_root_uri : Text → Outcome Text
  unfolding strip_drive
  parse_root_uri root_uri = do
    (is_file, path) ← or_error (uri.parse root_uri) Error.bad_uri
    if is_file
        then (do root ← or_error (uri.decode path) Error.bad_uri; ok (strip_drive windows root))
        else err Error.unsupported_scheme

  -- The arms after the workspace folders.
  unfoldable pub fallback_root : {V : Type 0} → InitializeParams V → Option Text → Outcome Text
  fallback_root params proxy_cwd = elim params.root_uri [
    | some root_uri ↦ parse_root_uri root_uri
    | none ↦ elim params.root_path [
      | some root_path ↦ ok root_path
      | none ↦ elim proxy_cwd [ some cwd ↦ ok cwd | none ↦ err Error.no_workspace_root ]
    ]
  ]

  -- With two folders or more the warning is followed by `assert!(… .is_empty())`.
  unfoldable pub select_workspace_root :
      {V : Type 0} → InitializeParams V → Option Text → Outcome Text
  unfolding fallback_root
  select_workspace_root params proxy_cwd = elim params.workspace_folders [
    | [] ↦ fallback_root params proxy_cwd
    | folder ∷ folders ↦ elim folders [ [] ↦ parse_root_uri folder.uri | second ∷ rest ↦ panic ]
  ]
