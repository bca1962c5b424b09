-- ===== src/Client/Roots.antt =====
-- Which directory `select_workspace_root` selects.
use ra_multiplex.Base.{
  ◌≤◌, ◌≡◌, ◌≢◌, refl, ◌↔◌, Text, List, [], ◌∷◌, ◌++◌, map, length, Option, none, some, Bool, arith,
  Outcome, ok, err, panic, Error, inl, inr, Option-cases,
}
use ra_multiplex.Base.Fallible.{or_error}
use ra_multiplex.Lsp.{InitializeParams, WorkspaceFolder}
use ra_multiplex.Client.Workspace.{UriCrates, parse_root_uri, fallback_root, select_workspace_root}

abbrev pub listed {ℓ} : {A : Type ℓ} → Option A → List A
listed none = []
listed (some a) = a ∷ []

-- The first candidate decides, even where it is an error.
abbrev pub first_candidate : List (Outcome Text) → Outcome Text
first_candidate [] = err Error.no_workspace_root
first_candidate (c ∷ cs) = c

one_folder : ¬ (2 ≤ 1)
one_folder = omega arith

or_error-ne-panic : {A : Type 0} (o : Option A) (e : Error) → or_error o e ≢ panic
or_error-ne-panic none e = ground arith
or_error-ne-panic (some a) e = ground arith

module _ (uri : UriCrates) (windows : Bool) where
  parse_root_uri-ne-panic : (root_uri : Text) → parse_root_uri uri windows root_uri ≢ panic
  unfolding parse_root_uri
  parse_root_uri-ne-panic root_uri = elim (Option-cases (uri.parse root_uri)) [
    | inl e ↦ ground arith
    | inr ((is_file, path), e) ↦ elim (Option-cases (uri.decode path)) [
      | inl d ↦ ground arith
      | inr (root, d) ↦ ground arith
    ]
  ]

module _ {V : Type 0} (uri : UriCrates) (windows : Bool) where
  -- The places where a root can come from, in the order of precedence.
  abbrev pub candidates : InitializeParams V → Option Text → List (Outcome Text)
  candidates params cwd =
      map (λ f. parse_root_uri uri windows f.uri) params.workspace_folders
      ++ (map (parse_root_uri uri windows) (listed params.root_uri)
          ++ (map ok (listed params.root_path) ++ map ok (listed cwd)))

  fallback_root_first :
      (params : InitializeParams V) (cwd : Option Text)
      → fallback_root uri windows params cwd
        ≡ first_candidate (
            map (parse_root_uri uri windows) (listed params.root_uri)
            ++ (map ok (listed params.root_path) ++ map ok (listed cwd)))
  unfolding fallback_root
  fallback_root_first params cwd = ground arith

  fallback_root-ne-panic :
      (params : InitializeParams V) (cwd : Option Text)
      → fallback_root uri windows params cwd ≢ panic
  unfolding fallback_root
  fallback_root-ne-panic params cwd = elim (Option-cases params.root_uri) [
    | inl e ↦ ground arith
    | inr (root_uri, e) ↦ rw (fallback_root, e) (parse_root_uri-ne-panic uri windows root_uri)
  ]

  -- With at most one workspace folder the root is the first there is of the folder's URI, `rootUri`,
  -- `rootPath` and the proxy's directory; a URI that cannot be parsed is an error and is not passed
  -- over. With none of them there is an error.
  pub select_workspace_root_first :
      (params : InitializeParams V) (cwd : Option Text)
      → length params.workspace_folders ≤ 1
      → select_workspace_root uri windows params cwd ≡ first_candidate (candidates params cwd)
  unfolding select_workspace_root fallback_root
  select_workspace_root_first params cwd few = by_folders params.workspace_folders refl
    where
      by_folders :
          (folders : List WorkspaceFolder)
          → params.workspace_folders ≡ folders
          → select_workspace_root uri windows params cwd ≡ first_candidate (candidates params cwd)
      by_folders [] e = rw (select_workspace_root, e) (fallback_root_first params cwd)
      by_folders (f ∷ []) e = rw (select_workspace_root, e)
      by_folders (f ∷ g ∷ fs) e = ground (arith, few)

  -- It panics exactly if there are two workspace folders or more, whatever else the request has.
  pub select_workspace_root_panics :
      (params : InitializeParams V) (cwd : Option Text)
      → (select_workspace_root uri windows params cwd ≡ panic)
        ↔ (2 ≤ length params.workspace_folders)
  unfolding select_workspace_root fallback_root
  select_workspace_root_panics params cwd = by_folders params.workspace_folders refl
    where
      by_folders :
          (folders : List WorkspaceFolder)
          → params.workspace_folders ≡ folders
          → (select_workspace_root uri windows params cwd ≡ panic)
            ↔ (2 ≤ length params.workspace_folders)
      by_folders [] e =
          rw (select_workspace_root, e)
            ((λ p. absurd (fallback_root-ne-panic params cwd p)), λ l. elim l [ ])
      by_folders (f ∷ []) e =
          rw (select_workspace_root, e)
            (
              (λ p. absurd (parse_root_uri-ne-panic uri windows f.uri p)),
              λ l. absurd (one_folder l),
            )
      by_folders (f ∷ g ∷ fs) e = rw (select_workspace_root, e) ((λ p. omega arith), λ l. refl)
