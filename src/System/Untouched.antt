-- ===== src/System/Untouched.antt =====
-- What a connection does to the instances that it does not join.
use ra_multiplex.Base.{
  ℕ, Text, List, [], Option, none, some, Option-cases, Bool-cases, nat_eq, ◌==◌, ◌≡◌, Bool, true,
  refl, sym, ap, ◌∙◌, ◌⊎◌, inl, inr, arith, Outcome, ok, err, panic,
}
use ra_multiplex.Base.Int.{ℤ}
use ra_multiplex.Base.Fallible.{◌>>=◌}
use ra_multiplex.Base.HashMap
use ra_multiplex.Io.{IoResult}
use ra_multiplex.Lsp.{InitializeParams}
use ra_multiplex.Lsp.Json.{Json}
use ra_multiplex.Lsp.Jsonrpc.{Message, Request}
use ra_multiplex.Effect.{Effect}
use ra_multiplex.Instance.{Instance, InstanceKey, ClientData, add_client}
use ra_multiplex.Client.Workspace.{UriCrates, select_workspace_root}
use ra_multiplex.Client.Connect.{
  Connected, connect, find_instance, go_on, greet, greeted, join, settle, initialize_reply,
}
use ra_multiplex.Registry.{Registry, Process, key_eq}
use ra_multiplex.Registry.Spawn.{Child, spawn, get_or_spawn, on_instance}
use ra_multiplex.Registry.Sound.{IsSound}
use ra_multiplex.System.Connecting.{spawn-clients}

module _ {V : Type 0} where
  abbrev clients_of : Option (Process V) → HashMap.HashMap ℕ ClientData
  clients_of (some p) = p.instance.clients
  clients_of none = []

  -- The clients of an instance; none, if there is no such instance yet.
  abbrev pub clients_at : Registry V → ℕ → HashMap.HashMap ℕ ClientData
  clients_at self i = clients_of (HashMap.get i self.store)

  -- The client `n` is entered beside the clients that were there, with no open file.
  abbrev pub IsJoined : ℕ → Registry V → Registry V → Outcome (ℕ × List (Effect V)) → ℕ → Type 0
  IsJoined n self t end i =
      (q : Process V) × (es : List (Effect V)) × (end ≡ ok (i, es))
      × (HashMap.get i t.store ≡ some q)
      × (q.instance.clients
          ≡ HashMap.insert n (record { client = record { id = n }; files = [] })
              (clients_at self i))

  -- An instance that was not there, and has no client.
  abbrev pub IsNew : Registry V → Registry V → ℕ → Type 0
  IsNew self t i =
      (q : Process V) × (HashMap.get i t.store ≡ some q)
      × (q.instance.clients ≡ [])
      × (HashMap.get i self.store ≡ none)

  fresh_handle : (self : Registry V) → IsSound self → HashMap.get self.next self.store ≡ none
  fresh_handle self v = elim (Option-cases (HashMap.get self.next self.store)) [
    | inl e ↦ e
    | inr (p, e) ↦ absurd (let below = v.fresh self.next p e in omega arith)
  ]

module _ {V : Type 0} ⦃json : Json V⦄ where
  get_or_spawn-IsNew :
      (self after : Registry V) (key : InstanceKey) (params : InitializeParams V) (child : Child V)
      (now : ℤ) (h i : ℕ)
      → IsSound self
      → get_or_spawn self key params child now ≡ ok (after, h)
      → (HashMap.get i after.store ≡ HashMap.get i self.store) ⊎ IsNew self after i
  unfolding get_or_spawn
  get_or_spawn-IsNew self after key params child now h i v e =
      elim (Option-cases (HashMap.get key self.entries)) [
        | inl vacant ↦ spawned (spawn key params child now) refl vacant
        | inr (j, found) ↦
            let same : after.store ≡ self.store = ground arith in inl (ap (HashMap.get i) same)
      ]
    where
      spawned :
          (o : Outcome (Instance V))
          → spawn key params child now ≡ o
          → HashMap.get key self.entries ≡ none
          → (HashMap.get i after.store ≡ HashMap.get i self.store) ⊎ IsNew self after i
      spawned (ok instance) s vacant =
          let q : Process V = record { instance = instance; running = true } in
          let same : after.store ≡ HashMap.insert self.next q self.store = ground arith in
          elim (Bool-cases (self.next == i)) [
            | inl new ↦ inr (
              q,
              ground (arith, same, HashMap.get-insert self.next i q self.store),
              spawn-clients i key params child now instance s,
              ground (arith, fresh_handle self v),
            )
            | inr old ↦ inl (ground (arith, same, HashMap.get-insert self.next i q self.store))
          ]
      spawned (err x) s vacant = ground arith
      spawned panic s vacant = ground arith

  join-IsJoined :
      (self after : Registry V) (h n i : ℕ) (p : Process V) (es : List (Effect V))
      → HashMap.get h self.store ≡ some p
      → join self h p.instance (record { id = n }) ≡ ok (after, es)
      → (HashMap.get i after.store ≡ HashMap.get i self.store)
        ⊎ IsJoined n self after (ok (h, es)) i
  unfolding join add_client
  join-IsJoined self after h n i p es at joins =
      let d : ClientData = record { client = record { id = n }; files = [] } in
      let entered : Instance V = record p.instance {
        clients = HashMap.insert n d p.instance.clients;
      } in
      elim (Bool-cases (HashMap.contains_key n p.instance.clients)) [
        | inl taken ↦ ground arith
        | inr free ↦
            let same : after.store ≡ HashMap.modify h (on_instance (λ j. entered)) self.store =
              ground arith in
            let reads = HashMap.get-modify h i (on_instance (λ j. entered)) self.store in
            elim (Bool-cases (h == i)) [
              | inl this ↦ inr (
                record p { instance = entered },
                es,
                ground arith,
                ground (arith, same, reads),
                ap (HashMap.insert n d) (ground (arith, at)),
              )
              | inr other ↦ inl (ground (arith, same, reads))
            ]
      ]

  settle-IsJoined :
      (self : Registry V) (h n i : ℕ) (p : Process V) (reply : Message V) (o : Outcome (Unit {0}))
      (r : Outcome (Registry V × List (Effect V)))
      → HashMap.get h self.store ≡ some p
      → r ≡ (o >>= λ u. join self h p.instance (record { id = n }))
      → (HashMap.get i (settle self h reply r).0.store ≡ HashMap.get i self.store)
        ⊎ IsJoined n self (settle self h reply r).0 (settle self h reply r).2 i
  settle-IsJoined self h n i p reply (ok u) (ok (after, es)) at e =
      join-IsJoined self after h n i p es at (sym e)
  settle-IsJoined self h n i p reply (err x) (ok (after, es)) at e = ground arith
  settle-IsJoined self h n i p reply panic (ok (after, es)) at e = ground arith
  settle-IsJoined self h n i p reply o (err x) at e = inl refl
  settle-IsJoined self h n i p reply o panic at e = inl refl

  -- Behind the search for the instance.
  abbrev Lot : ℕ → Registry V → Connected V → ℕ → Type 0
  Lot n self (t, sent, end) i =
      (HashMap.get i t.store ≡ HashMap.get i self.store) ⊎ IsJoined n self t end i

  greet-Lot :
      (self : Registry V) (h n i : ℕ) (req : Request V) (write : IoResult (Unit {0}))
      (second : Outcome (Option (Message V)))
      → Lot n self (greet self h (record { id = n }) req write second) i
  unfolding greet
  greet-Lot self h n i req write second = elim (Option-cases (HashMap.get h self.store)) [
    | inl e ↦ rw (greet, e) (inl refl)
    | inr (p, e) ↦
        let r : Outcome (Registry V × List (Effect V)) =
          greeted write second >>= λ u. join self h p.instance (record { id = n }) in
        rw (greet, e)
          (settle-IsJoined self h n i p (initialize_reply p.instance req) (greeted write second) r e
            refl)
  ]

  clients_at-older :
      (self after : Registry V) (i : ℕ)
      → (HashMap.get i after.store ≡ HashMap.get i self.store) ⊎ IsNew self after i
      → clients_at after i ≡ clients_at self i
  clients_at-older self after i (inl same) = ap clients_of same
  clients_at-older self after i (inr (q, at, none_yet, new)) =
      ap clients_of at ∙ none_yet ∙ sym (ap clients_of new)

  -- Over the whole of `connect`, from the state that it leaves and the way in which it ends.
  abbrev pub Untouched : ℕ → Registry V → Registry V → Outcome (ℕ × List (Effect V)) → ℕ → Type 0
  Untouched n self t end i =
      (HashMap.get i t.store ≡ HashMap.get i self.store)
      ⊎ (IsNew self t i ⊎ IsJoined n self t end i)

  abbrev Lots : ℕ → Registry V → Connected V → ℕ → Type 0
  Lots n self (t, sent, end) i = Untouched n self t end i

  module _ (uri : UriCrates) (windows : Bool) where
    find_instance-IsNew :
        (self after : Registry V) (server : Text) (args : List Text) (env : List (Text × Text))
        (cwd : Option Text) (params : InitializeParams V) (child : Child V) (now : ℤ) (h i : ℕ)
        → IsSound self
        → find_instance uri windows self server args env cwd params child now ≡ ok (after, h)
        → (HashMap.get i after.store ≡ HashMap.get i self.store) ⊎ IsNew self after i
    unfolding find_instance
    find_instance-IsNew self after server args env cwd params child now h i v e =
        by_root (select_workspace_root uri windows params cwd) refl
      where
        by_root :
            (o : Outcome Text)
            → select_workspace_root uri windows params cwd ≡ o
            → (HashMap.get i after.store ≡ HashMap.get i self.store) ⊎ IsNew self after i
        by_root (ok root) s =
            get_or_spawn-IsNew self after
              (record { server = server; args = args; env = env; workspace_root = root }) params
              child now h i v (ground arith)
        by_root (err x) s = ground arith
        by_root panic s = ground arith

    go_on-Lots :
        (self : Registry V) (n i : ℕ) (req : Request V) (write : IoResult (Unit {0}))
        (second : Outcome (Option (Message V))) (o : Outcome (Registry V × ℕ))
        → ((after : Registry V) (h : ℕ)
            → o ≡ ok (after, h)
            → (HashMap.get i after.store ≡ HashMap.get i self.store) ⊎ IsNew self after i)
        → Lots n self (go_on uri windows self (record { id = n }) req write second o) i
    go_on-Lots self n i req write second (ok (after, h)) found =
        elim (greet-Lot after h n i req write second) [
          | inr (q, es, well, at, entered) ↦
              let older = clients_at-older self after i (found after h refl) in
              inr (inr (q, es, well, at, entered ∙ ap (HashMap.insert n _) older))
          | inl same ↦ elim (found after h refl) [
            | inl kept ↦ inl (same ∙ kept)
            | inr (q, at, none_yet, new) ↦ inr (inl (q, same ∙ at, none_yet, new))
          ]
        ]
    go_on-Lots self n i req write second (err e) found = inl refl
    go_on-Lots self n i req write second panic found = inl refl

    -- However a connection ends, each instance stays as it was, but for one that it joins or that
    -- was spawned for it: to the clients of the first the client is added, with no open file, and
    -- the connection went well and returns that instance; the second has no client. So a connection
    -- that fails changes no instance that was there before, and leaves at most an instance without
    -- clients behind. It is assumed that the map of instances and the children agree, as in every
    -- state that is reached.
    pub connect_touches :
        (self : Registry V) (n : ℕ) (server : Text) (args : List Text) (env : List (Text × Text))
        (cwd : Option Text) (req : Request V) (params : InitializeParams V) (child : Child V)
        (now : ℤ) (write : IoResult (Unit {0})) (second : Outcome (Option (Message V))) (i : ℕ)
        → IsSound self
        → Untouched n self
            (connect uri windows self n server args env cwd req params child now write second).0
            (connect uri windows self n server args env cwd req params child now write second).2
            i
    unfolding connect
    connect_touches self n server args env cwd req params child now write second i v =
        go_on-Lots self n i req write second
          (find_instance uri windows self server args env cwd params child now)
          (λ after h e. find_instance-IsNew self after server args env cwd params child now h i v e)
