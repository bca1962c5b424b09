-- ===== src/Registry/Sound.antt =====
-- The map of instances and the running children agree: what keeps that so.
use ra_multiplex.Base.{
  ℕ, suc, ◌<◌, ◌≡◌, refl, ◌∙◌, inl, inr, List, [], ◌∷◌, Option, none, some, true, false, nat_eq,
  arith, Option-cases, Bool-cases, ◌==◌,
}
use ra_multiplex.Base.Int.{ℤ}
use ra_multiplex.Base.HashMap
use ra_multiplex.Base.HashMap.{HashMap}
use ra_multiplex.Instance.{Instance, InstanceKey}
use ra_multiplex.Registry.{key_eq, key_beq_iff, Process, Registry}
use ra_multiplex.Registry.Spawn.{gc_instance, on_instance, gc_handles, stopped, child_exit}

-- The entry of a key is a running child with that key, and a running child is the entry of its key.
pub record IsSound {V : Type 0} (r : Registry V) : Type 0 where
  pub one_each : HashMap.unique r.entries ≡ true
  pub listed :
      (k : InstanceKey) (h : ℕ)
      → HashMap.get k r.entries ≡ some h
      → (p : Process V) × (HashMap.get h r.store ≡ some p)
        × (p.running ≡ true)
        × (p.instance.key ≡ k)
  pub running_listed :
      (h : ℕ) (p : Process V)
      → HashMap.get h r.store ≡ some p
      → p.running ≡ true
      → HashMap.get p.instance.key r.entries ≡ some h
  pub fresh : (h : ℕ) (p : Process V) → HashMap.get h r.store ≡ some p → h < r.next

-- A step that changes no key and starts or stops nothing.
module _ {V : Type 0} where
  pub modify-IsSound :
      (r : Registry V) (h : ℕ) (g : Process V → Process V)
      → ((p : Process V) → (g p).running ≡ p.running)
      → ((p : Process V) → (g p).instance.key ≡ p.instance.key)
      → IsSound r
      → IsSound (record r { store = HashMap.modify h g r.store })
  modify-IsSound r h g same_running same_key v = record {
    one_each = v.one_each;
    listed = λ k j e. listed k j (v.listed k j e);
    running_listed = λ j p e up. elim (Option-cases (HashMap.get j r.store)) [
      | inl n ↦ ground (arith, HashMap.get-modify h j g r.store)
      | inr (q, n) ↦ ground (
        arith,
        HashMap.get-modify h j g r.store,
        v.running_listed j q,
        same_running q,
        same_key q,
      )
    ];
    fresh = λ j p e. elim (Option-cases (HashMap.get j r.store)) [
      | inl n ↦ ground (arith, HashMap.get-modify h j g r.store)
      | inr (q, n) ↦ v.fresh j q n
    ];
  }
    where
      listed :
          (k : InstanceKey) (j : ℕ)
          → ((p : Process V) × (HashMap.get j r.store ≡ some p)
              × (p.running ≡ true)
              × (p.instance.key ≡ k))
          → (p : Process V) × (HashMap.get j (HashMap.modify h g r.store) ≡ some p)
            × (p.running ≡ true)
            × (p.instance.key ≡ k)
      listed k j (p, at, up, own) = elim (Bool-cases (h == j)) [
        | inl e ↦ (
          g p,
          ground (arith, HashMap.get-modify h j g r.store),
          same_running p ∙ up,
          same_key p ∙ own,
        )
        | inr e ↦ (p, ground (arith, HashMap.get-modify h j g r.store), up, own)
      ]

  gc_instance-key :
      (timeout : Option ℕ) (now : ℤ) (i : Instance V) → (gc_instance timeout now i).key ≡ i.key
  unfolding gc_instance
  gc_instance-key none now i = refl
  gc_instance-key (some t) now i = ground arith

  pub gc_handles-IsSound :
      (timeout : Option ℕ) (now : ℤ) (hs : List ℕ) (r : Registry V)
      → IsSound r
      → IsSound (record r { store = gc_handles timeout now hs r.store })
  unfolding gc_handles
  gc_handles-IsSound timeout now [] r v = v
  gc_handles-IsSound timeout now (h ∷ hs) r v =
      gc_handles-IsSound timeout now hs
        (record r { store = HashMap.modify h (on_instance (gc_instance timeout now)) r.store })
        (modify-IsSound r h (on_instance (gc_instance timeout now)) (λ p. refl)
          (λ p. gc_instance-key timeout now p.instance) v)

  -- A new child under a key that had none.
  pub insert-IsSound :
      (r : Registry V) (key : InstanceKey) (i : Instance V)
      → HashMap.get key r.entries ≡ none
      → i.key ≡ key
      → IsSound r
      → IsSound (record {
        entries = HashMap.insert key r.next r.entries;
        store = HashMap.insert r.next (record { instance = i; running = true }) r.store;
        next = suc r.next;
      })
  insert-IsSound r key i vacant own v = record {
    one_each = HashMap.insert-unique key r.next r.entries v.one_each;
    listed = λ k h e. elim (Bool-cases (key == k)) [
      | inl same ↦ (
        started,
        ground (
          arith,
          HashMap.get-insert key k r.next r.entries,
          HashMap.get-insert r.next h started r.store,
        ),
        refl,
        own ∙ (key_beq_iff key k).0 same,
      )
      | inr other ↦
          older k h (v.listed k h (ground (arith, HashMap.get-insert key k r.next r.entries)))
    ];
    running_listed = λ h p e up. elim (Bool-cases (r.next == h)) [
      | inl new ↦ ground (
        arith,
        HashMap.get-insert r.next h started r.store,
        HashMap.get-insert key p.instance.key r.next r.entries,
        key_beq_iff key p.instance.key,
      )
      | inr old ↦ ground (
        arith,
        HashMap.get-insert r.next h started r.store,
        HashMap.get-insert key p.instance.key r.next r.entries,
        key_beq_iff key p.instance.key,
        v.running_listed h p,
      )
    ];
    fresh = λ h p e. ground (arith, HashMap.get-insert r.next h started r.store, v.fresh h p);
  }
    where
      started : Process V
      started = record { instance = i; running = true }

      older :
          (k : InstanceKey) (h : ℕ)
          → ((p : Process V) × (HashMap.get h r.store ≡ some p)
              × (p.running ≡ true)
              × (p.instance.key ≡ k))
          → (p : Process V) × (HashMap.get h (HashMap.insert r.next started r.store) ≡ some p)
            × (p.running ≡ true)
            × (p.instance.key ≡ k)
      older k h (p, at, up, mine) =
          (p, ground (arith, HashMap.get-insert r.next h started r.store, v.fresh h p), up, mine)

  -- The entry of another key is not the child that exits.
  exit-listed :
      (r : Registry V) (h : ℕ) (p : Process V) (k : InstanceKey) (j : ℕ)
      → HashMap.get h r.store ≡ some p
      → (p.instance.key == k) ≡ false
      → ((q : Process V) × (HashMap.get j r.store ≡ some q)
          × (q.running ≡ true)
          × (q.instance.key ≡ k))
      → (q : Process V) × (HashMap.get j (HashMap.modify h stopped r.store) ≡ some q)
        × (q.running ≡ true)
        × (q.instance.key ≡ k)
  exit-listed r h p k j at other (q, at', up, own) = (
    q,
    ground (arith, HashMap.get-modify h j stopped r.store, key_beq_iff p.instance.key k),
    up,
    own,
  )

  -- A child that still runs is not the one that exits, and has another key.
  exit-running :
      (r : Registry V) (h : ℕ) (p : Process V) (j : ℕ) (q : Process V)
      → HashMap.get h r.store ≡ some p
      → p.running ≡ true
      → IsSound r
      → HashMap.get j (HashMap.modify h stopped r.store) ≡ some q
      → q.running ≡ true
      → HashMap.get q.instance.key (HashMap.remove p.instance.key r.entries) ≡ some j
  exit-running r h p j q at up v e live = elim (Bool-cases (h == j)) [
    | inl same ↦ ground (arith, HashMap.get-modify h j stopped r.store)
    | inr other ↦ ground (
      arith,
      HashMap.get-modify h j stopped r.store,
      HashMap.get-remove p.instance.key q.instance.key r.entries v.one_each,
      key_beq_iff p.instance.key q.instance.key,
      v.running_listed j q,
      v.running_listed h p at up,
    )
  ]

  pub child_exit-IsSound :
      (r : Registry V) (h : ℕ) (p : Process V)
      → HashMap.get h r.store ≡ some p
      → p.running ≡ true
      → IsSound r
      → IsSound (child_exit r h p)
  unfolding child_exit
  child_exit-IsSound r h p at up v = record {
    one_each = HashMap.remove-unique p.instance.key r.entries v.one_each;
    listed = λ k j e.
        let kept = HashMap.get-remove p.instance.key k r.entries v.one_each in
        exit-listed r h p k j at (ground arith) (v.listed k j (ground arith));
    running_listed = λ j q e live. exit-running r h p j q at up v e live;
    fresh = λ j q e. elim (Option-cases (HashMap.get j r.store)) [
      | inl n ↦ ground (arith, HashMap.get-modify h j stopped r.store)
      | inr (o, n) ↦ v.fresh j o n
    ];
  }
