-- ===== src/Base/HashMap.antt =====
-- `std::collections::HashMap` as the list of its entries in the order of iteration, which the
-- program does not know: every theorem ranges over all such lists.
use mathlib.Core.Path.{◌≡◌, refl}
use mathlib.Core.Bool.{Bool, true, false, ◌||◌, not, ◌&&◌}
use mathlib.Core.List.{List, [], ◌∷◌, map}
use mathlib.Core.Option
use mathlib.Core.Option.{Option, none, some}
use native.Mathlib.Omega.{arith}
use ra_multiplex.Base.Lists.{In}
use ra_multiplex.Base.Tests.{if◌then◌else◌}
use ra_multiplex.Base.Equality.{Eq, ◌==◌}

abbrev pub HashMap : Type 0 → Type 0 → Type 0
HashMap K V = List (K × V)

module _ {K V : Type 0} where
  abbrev pub values : HashMap K V → List V
  values = map (λ e. e.1)

  abbrev pub keys : HashMap K V → List K
  keys = map (λ e. e.0)

module _ {K V : Type 0} ⦃e : Eq K⦄ where
  unfoldable pub get : K → HashMap K V → Option V
  get k [] = none
  get k ((j, v) ∷ m) = if j == k then some v else get k m

  unfoldable pub insert : K → V → HashMap K V → HashMap K V
  insert k v [] = (k, v) ∷ []
  insert k v ((j, w) ∷ m) = if j == k then (j, v) ∷ m else (j, w) ∷ insert k v m

  unfoldable pub remove : K → HashMap K V → HashMap K V
  remove k [] = []
  remove k ((j, w) ∷ m) = if j == k then m else (j, w) ∷ remove k m

  -- A write through `get_mut`.
  unfoldable pub modify : K → (V → V) → HashMap K V → HashMap K V
  modify k f [] = []
  modify k f ((j, w) ∷ m) = if j == k then (j, f w) ∷ m else (j, w) ∷ modify k f m

  unfoldable pub contains_key : K → HashMap K V → Bool
  contains_key k [] = false
  contains_key k ((j, w) ∷ m) = j == k || contains_key k m

  -- No key has two entries.
  unfoldable pub unique : HashMap K V → Bool
  unique [] = true
  unique ((j, w) ∷ m) = not (contains_key j m) && unique m

  pub get-insert :
      (k j : K) (v : V) (m : HashMap K V)
      → get j (insert k v m) ≡ (if k == j then some v else get j m)
  unfolding get insert
  get-insert k j v [] = refl
  get-insert k j v ((i, w) ∷ m) =
      ground (arith, e.beq_iff k j, e.beq_iff i k, e.beq_iff i j, get-insert k j v m)

  pub get-modify :
      (k j : K) (f : V → V) (m : HashMap K V)
      → get j (modify k f m) ≡ (if k == j then Option.map f (get j m) else get j m)
  unfolding get modify
  get-modify k j f [] = ground arith
  get-modify k j f ((i, w) ∷ m) =
      ground (arith, e.beq_iff k j, e.beq_iff i k, e.beq_iff i j, get-modify k j f m)

  -- Only the entry of the key counts.
  pub modify-agrees :
      (k : K) (f g : V → V) (v : V) (m : HashMap K V)
      → get k m ≡ some v
      → f v ≡ g v
      → modify k f m ≡ modify k g m
  unfolding get modify
  modify-agrees k f g v [] h e = ground arith
  modify-agrees k f g v ((j, w) ∷ m) h e = ground (arith, modify-agrees k f g v m)

  pub modify-absent : (k : K) (f : V → V) (m : HashMap K V) → get k m ≡ none → modify k f m ≡ m
  unfolding get modify
  modify-absent k f [] h = refl
  modify-absent k f ((j, w) ∷ m) h = ground (arith, modify-absent k f m)

  pub contains_key-get : (k : K) (m : HashMap K V) → get k m ≡ none → contains_key k m ≡ false
  unfolding get contains_key
  contains_key-get k [] h = refl
  contains_key-get k ((j, w) ∷ m) h = ground (arith, contains_key-get k m)

  pub get-contains_key : (k : K) (m : HashMap K V) → contains_key k m ≡ false → get k m ≡ none
  unfolding get contains_key
  get-contains_key k [] h = refl
  get-contains_key k ((j, w) ∷ m) h = ground (arith, get-contains_key k m)

  pub get-remove :
      (k j : K) (m : HashMap K V)
      → unique m ≡ true
      → get j (remove k m) ≡ (if k == j then none else get j m)
  unfolding get remove unique
  get-remove k j [] h = ground arith
  get-remove k j ((i, w) ∷ m) h =
      ground
        (arith, e.beq_iff k j, e.beq_iff i k, e.beq_iff i j, get-remove k j m, get-contains_key i m)

  pub contains_key-insert :
      (k j : K) (v : V) (m : HashMap K V)
      → contains_key j (insert k v m) ≡ (k == j || contains_key j m)
  unfolding contains_key insert
  contains_key-insert k j v [] = refl
  contains_key-insert k j v ((i, w) ∷ m) =
      ground (arith, e.beq_iff k j, e.beq_iff i k, e.beq_iff i j, contains_key-insert k j v m)

  pub contains_key-modify :
      (k j : K) (f : V → V) (m : HashMap K V) → contains_key j (modify k f m) ≡ contains_key j m
  unfolding contains_key modify
  contains_key-modify k j f [] = refl
  contains_key-modify k j f ((i, w) ∷ m) = ground (arith, contains_key-modify k j f m)

  pub contains_key-remove :
      (k j : K) (m : HashMap K V) → contains_key j m ≡ false → contains_key j (remove k m) ≡ false
  unfolding contains_key remove
  contains_key-remove k j [] h = refl
  contains_key-remove k j ((i, w) ∷ m) h = ground (arith, contains_key-remove k j m)

  pub insert-unique :
      (k : K) (v : V) (m : HashMap K V) → unique m ≡ true → unique (insert k v m) ≡ true
  unfolding insert unique contains_key
  insert-unique k v [] h = refl
  insert-unique k v ((j, w) ∷ m) h =
      ground (arith, e.beq_iff j k, e.beq_iff k j, insert-unique k v m, contains_key-insert k j v m)

  pub modify-unique :
      (k : K) (f : V → V) (m : HashMap K V) → unique m ≡ true → unique (modify k f m) ≡ true
  unfolding modify unique
  modify-unique k f [] h = refl
  modify-unique k f ((j, w) ∷ m) h =
      ground (arith, modify-unique k f m, contains_key-modify k j f m)

  pub remove-unique : (k : K) (m : HashMap K V) → unique m ≡ true → unique (remove k m) ≡ true
  unfolding remove unique
  remove-unique k [] h = refl
  remove-unique k ((j, w) ∷ m) h = ground (arith, remove-unique k m, contains_key-remove k j m)

  pub get-In : (k : K) (v : V) (m : HashMap K V) → get k m ≡ some v → In (k, v) m
  unfolding get
  get-In k v [] h = cc
  get-In k v ((j, w) ∷ m) h = ground (arith, e.beq_iff j k, get-In k v m)

  In-contains_key : (k : K) (v : V) (m : HashMap K V) → In (k, v) m → contains_key k m ≡ true
  unfolding contains_key
  In-contains_key k v [] h = absurd h
  In-contains_key k v ((j, w) ∷ m) h = ground (arith, e.beq_iff j k, In-contains_key k v m)

  pub In-get : (k : K) (v : V) (m : HashMap K V) → unique m ≡ true → In (k, v) m → get k m ≡ some v
  unfolding get unique
  In-get k v [] u h = absurd h
  In-get k v ((j, w) ∷ m) u h = ground (arith, e.beq_iff j k, In-get k v m, In-contains_key k v m)
