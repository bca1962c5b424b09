-- ===== src/Registry/Invariant.antt =====
-- The map of instances and the running children agree in every state.
use ra_multiplex.Base.{
  ℕ, ◌≡◌, refl, subst, inl, inr, Option, none, some, true, false, nat_eq, arith, Outcome, ok, err,
  panic, Option-cases,
}
use ra_multiplex.Base.Int.{ℤ}
use ra_multiplex.Base.HashMap
use ra_multiplex.Base.HashMap.{HashMap}
use ra_multiplex.Lsp.{InitializeParams}
use ra_multiplex.Lsp.Json.{Json}
use ra_multiplex.Instance.{Instance, InstanceKey}
use ra_multiplex.Registry.{key_eq, Process, Registry, empty}
use ra_multiplex.Registry.Spawn.{Child, spawn, get_or_spawn, on_instance, gc_round, notified}
use ra_multiplex.Registry.Steps.{Step, connects, collects, works, kills, exits, Reach, here, next}
use ra_multiplex.Registry.Sound.{
  IsSound, modify-IsSound, gc_handles-IsSound, insert-IsSound, child_exit-IsSound,
}

none-ne-some : {A : Type 0} {a : A} → ◌≡◌ {A = Option A} none (some a) → ⊥
none-ne-some e = cc

module _ {V : Type 0} ⦃json : Json V⦄ where
  spawn-key :
      (key : InstanceKey) (params : InitializeParams V) (child : Child V) (now : ℤ) (i : Instance V)
      → spawn key params child now ≡ ok i
      → i.key ≡ key
  unfolding spawn
  spawn-key key params child now i h = ground arith

  get_or_spawn-IsSound :
      (r t : Registry V) (key : InstanceKey) (params : InitializeParams V) (child : Child V)
      (now : ℤ) (h : ℕ)
      → get_or_spawn r key params child now ≡ ok (t, h)
      → IsSound r
      → IsSound t
  unfolding get_or_spawn
  get_or_spawn-IsSound r t key params child now h e v =
      elim (Option-cases (HashMap.get key r.entries)) [
        | inl vacant ↦ spawned (spawn key params child now) refl vacant
        | inr (j, found) ↦ subst IsSound (ground arith) v
      ]
    where
      spawned :
          (o : Outcome (Instance V))
          → spawn key params child now ≡ o
          → HashMap.get key r.entries ≡ none
          → IsSound t
      spawned (ok i) s vacant =
          subst IsSound (ground arith)
            (insert-IsSound r key i vacant (spawn-key key params child now i s) v)
      spawned (err x) s vacant = ground arith
      spawned panic s vacant = ground arith

  Step-IsSound : {r t : Registry V} → Step r t → IsSound r → IsSound t
  Step-IsSound {r} {t} (connects key params child now h e) v =
      get_or_spawn-IsSound r t key params child now h e v
  Step-IsSound {r} (collects timeout now e) v =
      rw e (unfold gc_round in gc_handles-IsSound timeout now (HashMap.values r.entries) r v)
  Step-IsSound {r} (works h f same e) v =
      rw e (modify-IsSound r h (on_instance f) (λ p. refl) (λ p. same p.instance) v)
  Step-IsSound {r} (kills h e) v = rw e (
      unfold notified in
      modify-IsSound r h (on_instance (λ i. record i { close = false })) (λ p. refl) (λ p. refl) v)
  Step-IsSound {r} (exits h p at up e) v = rw e (child_exit-IsSound r h p at up v)

  empty-IsSound : IsSound (empty {V = V})
  unfolding HashMap.get HashMap.unique
  empty-IsSound = record {
    one_each = refl;
    listed = λ k h e. absurd (none-ne-some e);
    running_listed = λ h p e up. absurd (none-ne-some e);
    fresh = λ h p e. absurd (none-ne-some e);
  }

  -- From the empty map on, whatever clients connect, whatever children exit and whenever the
  -- garbage collector runs: the map has an entry for exactly the running children, each under its
  -- own key.
  pub Reach-IsSound : (r : Registry V) → Reach empty r → IsSound r
  Reach-IsSound r here = empty-IsSound
  Reach-IsSound r (next s st) = Step-IsSound st (Reach-IsSound _ s)

  -- So two children that run at the same time never have the same key: clients that ask for the
  -- same server, arguments, environment and root share one.
  pub running_key-injective :
      (r : Registry V) (h j : ℕ) (p q : Process V)
      → Reach empty r
      → HashMap.get h r.store ≡ some p
      → HashMap.get j r.store ≡ some q
      → p.running ≡ true
      → q.running ≡ true
      → p.instance.key ≡ q.instance.key
      → h ≡ j
  running_key-injective r h j p q s at at' up up' same =
      let v = Reach-IsSound r s in
      let eh = v.running_listed h p at up in let ej = v.running_listed j q at' up' in cc
