-- ===== src/Str/FilePath.antt =====
-- `std::path::Path` on Unix: the components of a path, and `starts_with`.
use ra_multiplex.Base.{
  Text, codes, List, [], ◌∷◌, ◌++◌, Bool, true, false, not, ◌&&◌, ◌==◌, nat_eq, list_eq, keep,
  if◌then◌else◌, list_beq, ◌≡◌, refl,
}

-- The parts between slashes; a text without a slash is one part.
unfoldable pub parts : Text → List Text
parts [] = [] ∷ []
parts (c ∷ s) =
    let rest = parts s in
    if c == b'/' then [] ∷ rest else (elim rest [ [] ↦ (c ∷ []) ∷ [] | p ∷ ps ↦ (c ∷ p) ∷ ps ])

-- An empty part and `.` are no components.
abbrev is_component : Text → Bool
is_component p = not (p == []) && not (p == codes ".")

-- A leading `.` is a component, and so is the root, which is written as a slash here.
unfoldable pub components : Text → List Text
unfolding parts keep
components path = elim (parts path) [
  | [] ↦ []
  | p ∷ ps ↦
      (if p == codes "."
        then codes "." ∷ []
        else if p == []
        then (elim ps [ [] ↦ [] | q ∷ qs ↦ codes "/" ∷ [] ])
        else p ∷ [])
      ++ keep is_component ps
]

-- Whether the second list begins with the first.
unfoldable pub is_prefix : List Text → List Text → Bool
is_prefix [] ys = true
is_prefix (x ∷ xs) [] = false
is_prefix (x ∷ xs) (y ∷ ys) = x == y && is_prefix xs ys

-- `Path::new(path).starts_with(base)`
unfoldable pub path_starts_with : Text → Text → Bool
unfolding components is_prefix
path_starts_with path base = is_prefix (components base) (components path)

components_test :
    components (codes "/home//user/./p/") ≡ codes "/" ∷ codes "home" ∷ codes "user" ∷ codes "p" ∷ []
unfolding components list_beq
components_test = refl

starts_with_test : path_starts_with (codes "/a/bc") (codes "/a/b/") ≡ false
unfolding path_starts_with list_beq
starts_with_test = refl
