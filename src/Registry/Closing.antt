-- ===== src/Registry/Closing.antt =====
-- Sharing an instance, closing an idle one, and what is left of one whose child exited.
use ra_multiplex.Base.{
  ℕ, ◌≡◌, refl, ◌∙◌, ap, inl, inr, List, [], ◌∷◌, Option, none, some, Bool, true, false, ◌&&◌, ◌||◌,
  nat_eq, arith, if◌then◌else◌, ok, err, panic, Error, Option-cases, Bool-cases, ◌==◌,
}
use mathlib.Core.Option
use ra_multiplex.Base.Int.{ℤ, pos, ltb_ℤ}
use ra_multiplex.Base.HashMap
use ra_multiplex.Base.HashMap.{HashMap}
use ra_multiplex.Base.HashSet
use ra_multiplex.Lsp.{InitializeParams, DidOpenTextDocumentParams}
use ra_multiplex.Lsp.Json.{Json}
use ra_multiplex.Instance.{
  Instance, InstanceKey, Client, ClientData, idle, open_file, cleanup_client,
}
use ra_multiplex.Registry.{key_eq, key_beq_iff, Process, Registry, empty}
use ra_multiplex.Registry.Spawn.{
  Child, get_or_spawn, gc_instance, on_instance, gc_handles, gc_round, stopped, child_exit,
}
use ra_multiplex.Registry.Steps.{Reach}
use ra_multiplex.Registry.Invariant.{Reach-IsSound}

module _ {V : Type 0} ⦃json : Json V⦄ where
  -- Once a client got an instance for a key, the next client with that key gets the same one, and
  -- neither its own parameters nor another child matter.
  pub get_or_spawn_again :
      (r t : Registry V) (key : InstanceKey) (params params' : InitializeParams V)
      (child child' : Child V) (now now' : ℤ) (h : ℕ)
      → get_or_spawn r key params child now ≡ ok (t, h)
      → get_or_spawn t key params' child' now' ≡ ok (t, h)
  unfolding get_or_spawn
  get_or_spawn_again r t key params params' child child' now now' h e =
      elim (Option-cases (HashMap.get key r.entries)) [
        | inl vacant ↦
            ground (arith, HashMap.get-insert key key r.next r.entries, key_beq_iff key key)
        | inr (j, found) ↦ ground arith
      ]

values-contains :
    (k : InstanceKey) (h : ℕ) (entries : HashMap InstanceKey ℕ)
    → HashMap.get k entries ≡ some h
    → HashSet.contains (HashMap.values entries) h ≡ true
unfolding HashSet.contains HashMap.get
values-contains k h [] e = cc
values-contains k h ((j, i) ∷ entries) e = ground (arith, values-contains k h entries)

abbrev pub no_clients : HashMap ℕ ClientData → Bool
no_clients [] = true
no_clients (c ∷ cs) = false

module _ {V : Type 0} where
  -- Closing an instance twice is closing it once.
  gc_instance_idem :
      (timeout : Option ℕ) (now : ℤ) (i : Instance V)
      → gc_instance timeout now (gc_instance timeout now i) ≡ gc_instance timeout now i
  unfolding gc_instance
  gc_instance_idem none now i = refl
  gc_instance_idem (some t) now i = ground arith

  gc_twice :
      (timeout : Option ℕ) (now : ℤ) (o : Option (Process V))
      → Option.map
          (on_instance (gc_instance timeout now))
          (Option.map (on_instance (gc_instance timeout now)) o)
        ≡ Option.map (on_instance (gc_instance timeout now)) o
  gc_twice timeout now none = refl
  gc_twice timeout now (some p) =
      ap (λ i. some (record p { instance = i })) (gc_instance_idem timeout now p.instance)

  get-gc_handles :
      (timeout : Option ℕ) (now : ℤ) (hs : List ℕ) (store : HashMap ℕ (Process V)) (h : ℕ)
      → HashMap.get h (gc_handles timeout now hs store) ≡ (
          if HashSet.contains hs h
          then Option.map (on_instance (gc_instance timeout now)) (HashMap.get h store)
          else HashMap.get h store)
  unfolding gc_handles HashSet.contains
  get-gc_handles timeout now [] store h = refl
  get-gc_handles timeout now (j ∷ hs) store h =
      let g = on_instance (gc_instance timeout now) in
      get-gc_handles timeout now hs (HashMap.modify j g store) h
      ∙ rest (HashSet.contains hs h) (j == h) (HashMap.get-modify j h g store)
    where
      rest :
          (more same : Bool)
          → HashMap.get h (HashMap.modify j (on_instance (gc_instance timeout now)) store) ≡ (
              if same
              then Option.map (on_instance (gc_instance timeout now)) (HashMap.get h store)
              else HashMap.get h store)
          → (if more
              then Option.map
                  (on_instance (gc_instance timeout now))
                  (HashMap.get h (HashMap.modify j (on_instance (gc_instance timeout now)) store))
              else HashMap.get h (HashMap.modify j (on_instance (gc_instance timeout now)) store))
            ≡ (if same || more
                then Option.map (on_instance (gc_instance timeout now)) (HashMap.get h store)
                else HashMap.get h store)
      rest true true e = rw e (gc_twice timeout now (HashMap.get h store))
      rest true false e = rw e
      rest false true e = e
      rest false false e = e

  gc_instance-close :
      (t : ℕ) (now : ℤ) (i : Instance V)
      → ((gc_instance (some t) now i).close
          ≡ (i.close || (no_clients i.clients && ltb_ℤ (pos t) (idle i now))))
        × ((gc_instance (some t) now i).clients ≡ i.clients)
  unfolding gc_instance
  gc_instance-close t now i = by_clients i.clients refl
    where
      by_clients :
          (cs : HashMap ℕ ClientData)
          → i.clients ≡ cs
          → ((gc_instance (some t) now i).close
              ≡ (i.close || (no_clients i.clients && ltb_ℤ (pos t) (idle i now))))
            × ((gc_instance (some t) now i).clients ≡ i.clients)
      by_clients [] e = elim (Bool-cases (ltb_ℤ (pos t) (idle i now))) [
        | inl late ↦ ground (arith, late)
        | inr early ↦ ground (arith, early)
      ]
      by_clients (c ∷ cs) e = ground arith

module _ {V : Type 0} ⦃json : Json V⦄ where
  -- A tick of the garbage collector with a timeout asks a running child to close exactly if nobody
  -- is connected to it and it has been idle for longer than the timeout (or if it was asked
  -- already). It disconnects nobody and stops nothing by itself.
  pub gc_round_closes :
      (r : Registry V) (t : ℕ) (now : ℤ) (h : ℕ) (p : Process V)
      → Reach empty r
      → HashMap.get h r.store ≡ some p
      → p.running ≡ true
      → (q : Process V) × (HashMap.get h (gc_round (some t) now r).store ≡ some q)
        × (q.instance.close ≡ (
            p.instance.close
            || (no_clients p.instance.clients && ltb_ℤ (pos t) (idle p.instance now))))
        × (q.instance.clients ≡ p.instance.clients)
        × (q.running ≡ true)
  unfolding gc_round
  gc_round_closes r t now h p s at up =
      let listed = (Reach-IsSound r s).running_listed h p at up in
      let hit = values-contains p.instance.key h r.entries listed in
      let (closes, keeps) = gc_instance-close t now p.instance in
      (
        on_instance (gc_instance (some t) now) p,
        get-gc_handles (some t) now (HashMap.values r.entries) r.store h ∙ rw (hit, at),
        closes,
        keeps,
        up,
      )

  -- What a client that is still connected meets after the child exited.
  disconnected :
      (i : Instance V) (n : ℕ) (params : DidOpenTextDocumentParams) (value : V)
      → i.clients ≡ []
      → json.did_open.from_value value ≡ some params
      → open_file i n value ≡ panic
  unfolding open_file HashMap.contains_key
  disconnected i n params value e p = ground arith

  -- After the child of an instance exited, its key is free, so the next client gets a new child;
  -- but a client of the old instance that opens a file panics its task, because the exit cleared
  -- the map of clients that `open_file` expects it in, while the end of that client is an error.
  pub child_exit_disconnects :
      (r : Registry V) (h : ℕ) (p : Process V) (n : ℕ) (params : DidOpenTextDocumentParams)
      (value : V) (c : Client)
      → Reach empty r
      → HashMap.get h r.store ≡ some p
      → json.did_open.from_value value ≡ some params
      → (q : Process V) × (HashMap.get h (child_exit r h p).store ≡ some q)
        × (HashMap.get p.instance.key (child_exit r h p).entries ≡ none)
        × (open_file q.instance n value ≡ panic)
        × (cleanup_client q.instance c ≡ err Error.client_was_not_connected)
  unfolding child_exit cleanup_client HashMap.get
  child_exit_disconnects r h p n params value c s at parsed =
      let v = Reach-IsSound r s in
      (
        stopped p,
        ground (arith, HashMap.get-modify h h stopped r.store),
        ground (
          arith,
          HashMap.get-remove p.instance.key p.instance.key r.entries v.one_each,
          key_beq_iff p.instance.key p.instance.key,
        ),
        disconnected (stopped p).instance n params value refl parsed,
        refl,
      )
