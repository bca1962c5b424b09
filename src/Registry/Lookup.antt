-- ===== src/Registry/Lookup.antt =====
-- `get_by_cwd` finds the entry with the longest root that covers a directory.
use ra_multiplex.Base.{
  ℕ, ◌≤◌, ◌≡◌, refl, inl, inr, Text, List, [], ◌∷◌, Option, none, some, sym, ◌∙◌, ◌⊎◌, All, Bool,
  true, false, arith, keep, length, In, keep-In, In-keep, if◌then◌else◌, ltb, ltb→lt, Bool-cases,
  subst,
}
use ra_multiplex.Base.HashMap
use ra_multiplex.Base.HashMap.{HashMap}
use ra_multiplex.Str.FilePath.{path_starts_with}
use ra_multiplex.Instance.{InstanceKey}
use ra_multiplex.Registry.{key_eq, longest_root, max_by_root, covers, get_by_cwd}

abbrev Entry : Type 0
Entry = InstanceKey × ℕ

abbrev root_length : Entry → ℕ
root_length e = length e.0.workspace_root

-- A step of the loop keeps one of two entries.
choose-In :
    (b : Bool) (best e : Entry) (es : List Entry)
    → In (longest_root best es) (best ∷ es)
    → In (longest_root e es) (e ∷ es)
    → In (longest_root (if b then best else e) es) (best ∷ e ∷ es)
choose-In true best e es (inl p) h = inl p
choose-In true best e es (inr q) h = inr (inr q)
choose-In false best e es g h = inr h

longest_root-In : (best : Entry) (es : List Entry) → In (longest_root best es) (best ∷ es)
unfolding longest_root
longest_root-In best [] = inl refl
longest_root-In best (e ∷ es) =
    choose-In (ltb (root_length e) (root_length best)) best e es (longest_root-In best es)
      (longest_root-In e es)

-- The best so far never gets shorter.
longest_root-le :
    (best : Entry) (es : List Entry) → root_length best ≤ root_length (longest_root best es)
unfolding longest_root
longest_root-le best [] = omega arith
longest_root-le best (e ∷ es) = ground (arith, longest_root-le best es, longest_root-le e es)

longest_root-max :
    (f best : Entry) (es : List Entry)
    → In f (best ∷ es)
    → root_length f ≤ root_length (longest_root best es)
unfolding longest_root
longest_root-max f best [] h = ground arith
longest_root-max f best (e ∷ es) h = elim (Bool-cases (ltb (root_length e) (root_length best))) [
  | inl l ↦
      rw (longest_root, l)
        (ground (
          arith,
          longest_root-le best es,
          longest_root-max f best es,
          ltb→lt (root_length e) (root_length best),
        ))
  | inr l ↦ rw (longest_root, l) (ground (arith, longest_root-le e es, longest_root-max f e es))
]

max_by_root-some :
    (f : Entry) (es : List Entry)
    → In f es
    → (e : Entry) × (max_by_root es ≡ some e) × In e es × (root_length f ≤ root_length e)
unfolding max_by_root
max_by_root-some f [] h = absurd h
max_by_root-some f (x ∷ es) h =
    (longest_root x es, refl, longest_root-In x es, longest_root-max f x es h)

max_by_root-In : (e : Entry) (es : List Entry) → max_by_root es ≡ some e → In e es
unfolding max_by_root
max_by_root-In e [] h = cc
max_by_root-In e (x ∷ es) h = subst (λ y. In y (x ∷ es)) (ground arith) (longest_root-In x es)

module _ (entries : HashMap InstanceKey ℕ) (cwd : Text) where
  -- If the root of any instance covers the directory, `get_by_cwd` finds an instance of the map
  -- whose root covers it, and no covering root is longer. It is assumed that no key has two
  -- entries, which a hash map grants.
  pub get_by_cwd_longest :
      (k : InstanceKey) (h : ℕ)
      → HashMap.unique entries ≡ true
      → HashMap.get k entries ≡ some h
      → path_starts_with cwd k.workspace_root ≡ true
      → (e : InstanceKey × ℕ) × (get_by_cwd entries cwd ≡ some e)
        × (HashMap.get e.0 entries ≡ some e.1)
        × (path_starts_with cwd e.0.workspace_root ≡ true)
        × (length k.workspace_root ≤ length e.0.workspace_root)
  unfolding get_by_cwd
  get_by_cwd_longest k h u g c =
      let found = In-keep (covers cwd) (k, h) entries (HashMap.get-In k h entries g) c in
      let (e, is_max, member, longest) =
        max_by_root-some (k, h) (keep (covers cwd) entries) found in
      let (inside, covered) = keep-In (covers cwd) e entries member in
      (e, is_max, HashMap.In-get e.0 e.1 entries u inside, covered, longest)

  -- Whatever it finds covers the directory and is in the map.
  pub get_by_cwd_sound :
      (e : InstanceKey × ℕ)
      → HashMap.unique entries ≡ true
      → get_by_cwd entries cwd ≡ some e
      → (HashMap.get e.0 entries ≡ some e.1) × (path_starts_with cwd e.0.workspace_root ≡ true)
  unfolding get_by_cwd
  get_by_cwd_sound e u h =
      let (inside, covered) =
        keep-In (covers cwd) e entries (max_by_root-In e (keep (covers cwd) entries) h) in
      (HashMap.In-get e.0 e.1 entries u inside, covered)

-- What holds of every member holds of all.
All-In : {A : Type 0} {P : A → Type 0} (xs : List A) → ((x : A) → In x xs → P x) → All P xs
All-In [] f = tt
All-In (x ∷ xs) f = (f x (inl refl), All-In xs (λ y m. f y (inr m)))

-- `get_by_cwd` in terms of the entries alone: it finds one whose root covers the directory, and
-- every other root that covers it is no longer; or it finds none, and no root covers it.
abbrev pub Looks : HashMap InstanceKey ℕ → Text → Option (InstanceKey × ℕ) → Type 0
Looks entries cwd (some e) =
    In e entries
    × (path_starts_with cwd e.0.workspace_root ≡ true)
    × All
        (λ (f : InstanceKey × ℕ).
          (path_starts_with cwd f.0.workspace_root ≡ false)
          ⊎ (length f.0.workspace_root ≤ length e.0.workspace_root))
        entries
Looks entries cwd none =
    All (λ (f : InstanceKey × ℕ). path_starts_with cwd f.0.workspace_root ≡ false) entries

pub get_by_cwd-Looks :
    (entries : HashMap InstanceKey ℕ) (cwd : Text) → Looks entries cwd (get_by_cwd entries cwd)
unfolding get_by_cwd
get_by_cwd-Looks entries cwd = by_result (get_by_cwd entries cwd) refl
  where
    found :
        (f : InstanceKey × ℕ)
        → In f entries
        → path_starts_with cwd f.0.workspace_root ≡ true
        → (e : InstanceKey × ℕ) × (get_by_cwd entries cwd ≡ some e)
          × In e (keep (covers cwd) entries)
          × (root_length f ≤ root_length e)
    found f member covered =
        max_by_root-some f (keep (covers cwd) entries)
          (In-keep (covers cwd) f entries member covered)

    by_result : (o : Option (InstanceKey × ℕ)) → get_by_cwd entries cwd ≡ o → Looks entries cwd o
    by_result none n = All-In entries λ f member.
        elim (Bool-cases (path_starts_with cwd f.0.workspace_root)) [
          | inl covered ↦ absurd (let (e, is_max, among, longest) = found f member covered in cc)
          | inr out ↦ out
        ]
    by_result (some e) h =
        let (inside, covered) =
          keep-In (covers cwd) e entries (max_by_root-In e (keep (covers cwd) entries) h) in
        (
          inside,
          covered,
          All-In entries λ f member. elim (Bool-cases (path_starts_with cwd f.0.workspace_root)) [
            | inl also ↦
                let (d, is_max, among, longest) = found f member also in
                let same : d ≡ e = let both : some d ≡ some e = sym is_max ∙ h in ground arith in
                inr (subst (λ x. root_length f ≤ root_length x) same longest)
            | inr out ↦ inl out
          ],
        )
