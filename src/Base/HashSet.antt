-- ===== src/Base/HashSet.antt =====
-- `std::collections::HashSet` as a list of its elements.
use mathlib.Core.Path.{◌≡◌, subst}
use mathlib.Core.Logic.{inl, inr}
use mathlib.Core.Bool.{Bool, true, false, ◌||◌, not, ◌&&◌}
use mathlib.Core.List.{List, [], ◌∷◌}
use native.Mathlib.Omega.{arith}
use ra_multiplex.Base.Tests.{if◌then◌else◌, Bool-cases}
use ra_multiplex.Base.Equality.{Eq, ◌==◌}

abbrev pub HashSet : Type 0 → Type 0
HashSet A = List A

module _ {A : Type 0} ⦃e : Eq A⦄ where
  unfoldable pub contains : HashSet A → A → Bool
  contains [] a = false
  contains (x ∷ xs) a = x == a || contains xs a

  unfoldable pub insert : A → HashSet A → HashSet A
  unfolding contains
  insert a xs = if contains xs a then xs else a ∷ xs

  -- Every occurrence goes, so that the laws need no hypothesis on the list.
  unfoldable pub remove : A → HashSet A → HashSet A
  remove a [] = []
  remove a (x ∷ xs) = let rest = remove a xs in if x == a then rest else x ∷ rest

  pub contains-insert :
      (a b : A) (xs : HashSet A) → contains (insert a xs) b ≡ ((a == b) || contains xs b)
  unfolding insert contains
  contains-insert a b xs = elim (Bool-cases (contains xs a)) [
    | inl old ↦ elim (Bool-cases (a == b)) [
      | inl same ↦ rw (old, same) (subst (λ c. contains xs c ≡ true) ((e.beq_iff a b).0 same) old)
      | inr other ↦ rw (old, other)
    ]
    | inr new ↦ rw new
  ]

  pub contains-remove :
      (a b : A) (xs : HashSet A) → contains (remove a xs) b ≡ (not (a == b) && contains xs b)
  unfolding remove contains
  contains-remove a b [] = ground arith
  contains-remove a b (x ∷ xs) =
      ground (arith, e.beq_iff a b, e.beq_iff x a, e.beq_iff x b, contains-remove a b xs)
