-- ===== src/Base/BTreeSet.antt =====
-- `std::collections::BTreeSet<String>` as the strictly ascending list of its elements.
use mathlib.Core.Path.{◌≡◌, refl}
use mathlib.Core.Bool.{Bool, true, false, ◌||◌, ◌&&◌}
use mathlib.Core.List.{List, [], ◌∷◌}
use native.Mathlib.Omega.{arith}
use ra_multiplex.Base.Tests.{if◌then◌else◌, ltb}
use ra_multiplex.Base.Equality.{◌==◌, Text, nat_eq, list_eq, list_beq, text_eq}

-- `<` of two texts, byte by byte.
unfoldable pub text_lt : Text → Text → Bool
text_lt [] [] = false
text_lt [] (d ∷ t) = true
text_lt (c ∷ s) [] = false
text_lt (c ∷ s) (d ∷ t) = let rest = text_lt s t in if c == d then rest else ltb c d

abbrev pub below_first : Text → List Text → Bool
below_first k [] = true
below_first k (j ∷ js) = text_lt k j

unfoldable pub ascending : List Text → Bool
ascending [] = true
ascending (k ∷ ks) = below_first k ks && ascending ks

unfoldable pub insert : Text → List Text → List Text
unfolding text_lt
insert k [] = k ∷ []
insert k (j ∷ js) =
    let rest = insert k js in
    if k == j then j ∷ js else if text_lt k j then k ∷ j ∷ js else j ∷ rest

unfoldable pub from_iter : List Text → List Text
unfolding insert
from_iter [] = []
from_iter (k ∷ ks) = insert k (from_iter ks)

unfoldable pub contains : List Text → Text → Bool
contains [] k = false
contains (j ∷ js) k = j == k || contains js k

-- Of two different texts one is below the other.
text_lt-total : (s t : Text) → (s == t) ≡ false → text_lt s t ≡ false → text_lt t s ≡ true
unfolding text_lt list_beq
text_lt-total [] [] n h = ground arith
text_lt-total [] (d ∷ t) n h = ground arith
text_lt-total (c ∷ s) [] n h = ground arith
text_lt-total (c ∷ s) (d ∷ t) n h = ground (arith, text_lt-total s t)

text_lt-not_eq : (s t : Text) → text_lt s t ≡ true → (s == t) ≡ false
unfolding text_lt list_beq
text_lt-not_eq [] [] h = ground arith
text_lt-not_eq [] (d ∷ t) h = ground arith
text_lt-not_eq (c ∷ s) [] h = ground arith
text_lt-not_eq (c ∷ s) (d ∷ t) h = ground (arith, text_lt-not_eq s t)

below_first-insert :
    (i k : Text) (ks : List Text)
    → below_first i ks ≡ true
    → text_lt i k ≡ true
    → below_first i (insert k ks) ≡ true
unfolding insert
below_first-insert i k [] h l = l
below_first-insert i k (j ∷ js) h l = ground arith

pub insert-ascending :
    (k : Text) (ks : List Text) → ascending ks ≡ true → ascending (insert k ks) ≡ true
unfolding insert ascending
insert-ascending k [] h = refl
insert-ascending k (j ∷ js) h =
    ground (arith, insert-ascending k js, text_lt-total k j, below_first-insert j k js)

pub from_iter-ascending : (ks : List Text) → ascending (from_iter ks) ≡ true
unfolding from_iter ascending
from_iter-ascending [] = refl
from_iter-ascending (k ∷ ks) = insert-ascending k (from_iter ks) (from_iter-ascending ks)

insert-below_first : (k : Text) (ks : List Text) → below_first k ks ≡ true → insert k ks ≡ k ∷ ks
unfolding insert
insert-below_first k [] h = refl
insert-below_first k (j ∷ js) h = ground (arith, text_lt-not_eq k j)

-- A set that is written in its order is read as it is.
pub from_iter-same : (ks : List Text) → ascending ks ≡ true → from_iter ks ≡ ks
unfolding from_iter ascending
from_iter-same [] h = refl
from_iter-same (k ∷ ks) h = ground (arith, from_iter-same ks, insert-below_first k ks)

contains-insert :
    (k j : Text) (ks : List Text) → contains (insert k ks) j ≡ (k == j || contains ks j)
unfolding insert contains
contains-insert k j [] = refl
contains-insert k j (i ∷ is) =
    ground (arith, contains-insert k j is, text_eq.beq_iff k i, text_eq.beq_iff k j)

-- The set has the elements of the list.
pub contains-from_iter : (j : Text) (ks : List Text) → contains (from_iter ks) j ≡ contains ks j
unfolding from_iter contains
contains-from_iter j [] = refl
contains-from_iter j (k ∷ ks) =
    ground (arith, contains-insert k j (from_iter ks), contains-from_iter j ks)

pub text_lt_trans : (s t u : Text) → text_lt s t ≡ true → text_lt t u ≡ true → text_lt s u ≡ true
unfolding text_lt
text_lt_trans [] [] u h k = ground arith
text_lt_trans [] (d ∷ t) [] h k = ground arith
text_lt_trans [] (d ∷ t) (e ∷ u) h k = refl
text_lt_trans (c ∷ s) [] u h k = ground arith
text_lt_trans (c ∷ s) (d ∷ t) [] h k = ground arith
text_lt_trans (c ∷ s) (d ∷ t) (e ∷ u) h k = ground (arith, text_lt_trans s t u)
