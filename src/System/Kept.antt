-- ===== src/System/Kept.antt =====
-- What the steps of the sessions keep, the server keeps for every instance that runs.
use ra_multiplex.Base.{
  ℕ, suc, ◌≤◌, ◌<◌, List, [], ◌++◌, append-nil, some, Option-cases, Bool-cases, true, false, ◌==◌,
  ==_refl, nat_eq, ◌≡◌, sym, ◌∙◌, subst, inl, inr, arith,
}
use mathlib.Core.Option.{some-injective}
use mathlib.Core.Path.{fun_ext}
use ra_multiplex.Base.HashMap
use ra_multiplex.Base.HashMap.{HashMap}
use ra_multiplex.Effect.{Effect}
use ra_multiplex.Lsp.Json.{Json}
use ra_multiplex.Instance.{ClientData}
use ra_multiplex.Registry.{Process}
use ra_multiplex.Session.Steps.{Session, Step}
use ra_multiplex.System.Trace.{sent_at}

-- An invariant of the sessions: of what was sent and of the clients.
pub record Invariant (V : Type 0) ⦃json : Json V⦄ : Type 1 where
  pub holds : List (Effect V) → HashMap ℕ ClientData → Type 0
  pub at_start : holds [] []
  pub in_steps :
      {s t : Session V} → Step s t → holds s.log s.instance.clients → holds t.log t.instance.clients

module _ {V : Type 0} ⦃json : Json V⦄ (inv : Invariant V) where
  -- It holds for each instance that runs; handles that were not given out are unused.
  pub record IsKept (store : HashMap ℕ (Process V)) (next : ℕ) (logs : ℕ → List (Effect V))
      : Type 0 where
    pub low : (h : ℕ) (p : Process V) → HashMap.get h store ≡ some p → h < next
    pub quiet : (h : ℕ) → next ≤ h → logs h ≡ []
    pub kept :
        (h : ℕ) (p : Process V)
        → HashMap.get h store ≡ some p
        → p.running ≡ true
        → inv.holds (logs h) p.instance.clients

  -- A step that sends nothing.
  pub silent :
      (store : HashMap ℕ (Process V)) (next : ℕ) (logs : ℕ → List (Effect V))
      → IsKept store next logs
      → IsKept store next (λ k. logs k ++ [])
  silent store next logs v = subst (IsKept store next) (fun_ext (λ k. sym (append-nil (logs k)))) v

  modified :
      (store : HashMap ℕ (Process V)) (h : ℕ) (f : Process V → Process V) (p q : Process V)
      → HashMap.get h store ≡ some p
      → HashMap.get h (HashMap.modify h f store) ≡ some q
      → f p ≡ q
  modified store h f p q at e =
      some-injective (f p) q (sym (HashMap.get-modify h h f store ∙ rw (at, ==_refl h)) ∙ e)

  untouched :
      (store : HashMap ℕ (Process V)) (h k : ℕ) (f : Process V → Process V)
      → (h == k) ≡ false
      → HashMap.get k (HashMap.modify h f store) ≡ HashMap.get k store
  untouched store h k f other = HashMap.get-modify h k f store ∙ rw other

  -- A change of one process.
  pub modify-IsKept :
      (store : HashMap ℕ (Process V)) (next : ℕ) (logs : ℕ → List (Effect V)) (h : ℕ)
      (f : Process V → Process V) (p : Process V) (es : List (Effect V))
      → HashMap.get h store ≡ some p
      → ((f p).running ≡ true
          → (p.running ≡ true)
            × (inv.holds (logs h) p.instance.clients
                → inv.holds (logs h ++ es) (f p).instance.clients))
      → IsKept store next logs
      → IsKept (HashMap.modify h f store) next (λ k. logs k ++ sent_at h es k)
  modify-IsKept store next logs h f p es at steps v = record {
    low = λ k q e. elim (Bool-cases (h == k)) [
      | inl same ↦ subst (λ j. j < next) ((nat_eq.beq_iff h k).0 same) (v.low h p at)
      | inr other ↦ v.low k q (sym (untouched store h k f other) ∙ e)
    ];
    quiet = λ k far. elim (Bool-cases (h == k)) [
      | inl same ↦
          let below = v.low h p at in absurd (let eq = (nat_eq.beq_iff h k).0 same in omega arith)
      | inr other ↦ rw (other, v.quiet k far)
    ];
    kept = λ k q e up. elim (Bool-cases (h == k)) [
      | inl same ↦
          subst
            (λ j.
              HashMap.get j (HashMap.modify h f store) ≡ some q
              → inv.holds (logs j ++ sent_at h es j) q.instance.clients)
            ((nat_eq.beq_iff h k).0 same)
            (λ e'.
              let is : f p ≡ q = modified store h f p q at e' in
              let (ran, goes) = steps (subst (λ (r : Process V). r.running ≡ true) (sym is) up) in
              rw (==_refl h) (
                subst (λ (r : Process V). inv.holds (logs h ++ es) r.instance.clients) is
                  (goes (v.kept h p at ran))))
            e
      | inr other ↦
          rw (other, append-nil (logs k)) (v.kept k q (sym (untouched store h k f other) ∙ e) up)
    ];
  }

  -- A new process without clients, under the next handle.
  pub insert-IsKept :
      (store : HashMap ℕ (Process V)) (next : ℕ) (logs : ℕ → List (Effect V)) (q : Process V)
      → q.instance.clients ≡ []
      → IsKept store next logs
      → IsKept (HashMap.insert next q store) (suc next) logs
  insert-IsKept store next logs q bare v = record {
    low = λ k p e. elim (Bool-cases (next == k)) [
      | inl same ↦ let eq = (nat_eq.beq_iff next k).0 same in omega arith
      | inr other ↦
          let below = v.low k p (sym (HashMap.get-insert next k q store ∙ rw other) ∙ e) in
          omega arith
    ];
    quiet = λ k far. v.quiet k (omega arith);
    kept = λ k p e up. elim (Bool-cases (next == k)) [
      | inl same ↦
          let is : q ≡ p =
            some-injective q p (sym (HashMap.get-insert next k q store ∙ rw same) ∙ e) in
          let eq = (nat_eq.beq_iff next k).0 same in
          let unused : [] ≡ logs k = sym (v.quiet k (omega arith)) in
          subst (λ (r : Process V). inv.holds (logs k) r.instance.clients) is
            (subst (λ l. inv.holds l q.instance.clients) unused
              (subst (inv.holds []) (sym bare) inv.at_start))
      | inr other ↦ v.kept k p (sym (HashMap.get-insert next k q store ∙ rw other) ∙ e) up
    ];
  }

  -- A change of a process that may not be there, which sends nothing.
  pub quiet_change :
      (store : HashMap ℕ (Process V)) (next : ℕ) (logs : ℕ → List (Effect V)) (h : ℕ)
      (f : Process V → Process V)
      → ((p : Process V)
          → (f p).running ≡ true
          → (p.running ≡ true) × ((f p).instance.clients ≡ p.instance.clients))
      → IsKept store next logs
      → IsKept (HashMap.modify h f store) next logs
  quiet_change store next logs h f same v = elim (Option-cases (HashMap.get h store)) [
    | inl e ↦ rw (HashMap.modify-absent h f store e) v
    | inr (p, e) ↦
        let nothing : (k : ℕ) → logs k ++ sent_at {V = V} h [] k ≡ logs k = λ k.
          elim (Bool-cases (h == k)) [
            | inl own ↦ rw (own, append-nil (logs k))
            | inr other ↦ rw (other, append-nil (logs k))
          ] in
        subst (IsKept (HashMap.modify h f store) next) (fun_ext nothing) (
          modify-IsKept store next logs h f p [] e
            (λ up.
              let (ran, clients) = same p up in
              (ran, λ holds. rw (clients, append-nil (logs h)) holds))
            v)
  ]
