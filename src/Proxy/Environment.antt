-- ===== src/Proxy/Environment.antt =====
-- The variables that the proxy passes to the server.
use ra_multiplex.Base.{
  Text, List, [], ◌∷◌, Option, none, Option-cases, true, nat_eq, list_eq, text_eq, if◌then◌else◌,
  ◌≡◌, refl, inl, inr, arith,
}
use ra_multiplex.Base.BTreeSet
use ra_multiplex.Base.BTreeSet.{below_first, text_lt, text_lt_trans}
use ra_multiplex.Base.HashMap
use ra_multiplex.Proxy.{passed}

below_first_trans :
    (k n : Text) (ns : List Text)
    → text_lt k n ≡ true
    → below_first n ns ≡ true
    → below_first k ns ≡ true
below_first_trans k n [] h s = refl
below_first_trans k n (j ∷ js) h s = text_lt_trans k n j h s

module _ (var : Text → Option Text) where
  get-passed :
      (key : Text) (names : List Text)
      → HashMap.get key (passed var names) ≡ (if BTreeSet.contains names key then var key else none)
  unfolding passed HashMap.get BTreeSet.contains
  get-passed key [] = refl
  get-passed key (name ∷ names) = elim (Option-cases (var name)) [
    | inl e ↦ ground (arith, text_eq.beq_iff name key, get-passed key names)
    | inr (val, e) ↦ ground (arith, text_eq.beq_iff name key, get-passed key names)
  ]

  -- What is left of names above a name is above it.
  passed-below :
      (name : Text) (names : List Text)
      → below_first name names ≡ true
      → BTreeSet.ascending names ≡ true
      → below_first name (HashMap.keys (passed var names)) ≡ true
  unfolding passed BTreeSet.ascending
  passed-below name [] h s = refl
  passed-below name (n ∷ ns) h s = elim (Option-cases (var n)) [
    | inl e ↦ ground (arith, below_first_trans name n ns, passed-below name ns)
    | inr (val, e) ↦ ground arith
  ]

  passed-ascending :
      (names : List Text)
      → BTreeSet.ascending names ≡ true
      → BTreeSet.ascending (HashMap.keys (passed var names)) ≡ true
  unfolding passed BTreeSet.ascending
  passed-ascending [] s = refl
  passed-ascending (n ∷ ns) s = elim (Option-cases (var n)) [
    | inl e ↦ ground (arith, passed-ascending ns)
    | inr (val, e) ↦ ground (arith, passed-ascending ns, passed-below n ns)
  ]

  -- The environment that the proxy passes has, for each name, the value of the variable if the name
  -- is configured and the variable is set, and nothing otherwise; its names ascend, as those of the
  -- `BTreeMap` do. It is assumed that the configured names ascend, as those of every configuration
  -- that the process runs with do.
  pub passed_environment :
      (names : List Text) (key : Text)
      → BTreeSet.ascending names ≡ true
      → (HashMap.get key (passed var names)
          ≡ (if BTreeSet.contains names key then var key else none))
        × (BTreeSet.ascending (HashMap.keys (passed var names)) ≡ true)
  passed_environment names key s = (get-passed key names, passed-ascending names s)
