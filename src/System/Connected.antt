-- ===== src/System/Connected.antt =====
-- Which numbers are clients of some instance, and how that changes.
use ra_multiplex.Base.{
  ℕ, [], some, Option-cases, Bool-cases, true, ◌==◌, nat_eq, ◌≡◌, ◌⊎◌, inl, inr, arith,
}
use ra_multiplex.Base.HashMap
use ra_multiplex.Base.HashMap.{HashMap}
use ra_multiplex.Instance.{Instance, Client, ClientData}
use ra_multiplex.Registry.{Process, key_eq}
use ra_multiplex.Registry.Spawn.{on_instance}

-- Some instance has a client with this number.
pub record IsConnected {V : Type 0} (n : ℕ) (store : HashMap ℕ (Process V)) : Type 0 where
  pub handle : ℕ
  pub process : Process V
  pub at : HashMap.get handle store ≡ some process
  pub among : HashMap.contains_key n process.instance.clients ≡ true

module _ {V : Type 0} (n : ℕ) where
  -- A change of one process that brings no client.
  pub modify-IsConnected :
      (h : ℕ) (f : Process V → Process V) (store : HashMap ℕ (Process V))
      → ((p : Process V)
          → HashMap.get h store ≡ some p
          → HashMap.contains_key n (f p).instance.clients ≡ true
          → HashMap.contains_key n p.instance.clients ≡ true)
      → IsConnected n (HashMap.modify h f store)
      → IsConnected n store
  modify-IsConnected h f store older c = elim (Option-cases (HashMap.get c.handle store)) [
    | inl e ↦ absurd (let got = c.at in ground (arith, HashMap.get-modify h c.handle f store))
    | inr (p, e) ↦ record {
      handle = c.handle;
      process = p;
      at = e;
      among =
          let got = c.at in
          let there = c.among in
          ground (arith, HashMap.get-modify h c.handle f store, nat_eq.beq_iff h c.handle, older p);
    }
  ]

  -- A new process without clients.
  pub insert-IsConnected :
      (h : ℕ) (q : Process V) (store : HashMap ℕ (Process V))
      → q.instance.clients ≡ []
      → IsConnected n (HashMap.insert h q store)
      → IsConnected n store
  unfolding HashMap.contains_key
  insert-IsConnected h q store bare c = record {
    handle = c.handle;
    process = c.process;
    at =
        let got = c.at in
        let there = c.among in ground (arith, HashMap.get-insert h c.handle q store);
    among = c.among;
  }

  -- A process that is given one more client.
  pub enter-IsConnected :
      (h : ℕ) (p : Process V) (client : Client) (i : Instance V) (d : ClientData)
      (store : HashMap ℕ (Process V))
      → HashMap.get h store ≡ some p
      → i.clients ≡ HashMap.insert client.id d p.instance.clients
      → IsConnected n (HashMap.modify h (on_instance (λ j. i)) store)
      → (client.id ≡ n) ⊎ IsConnected n store
  enter-IsConnected h p client i d store at entered c = elim (Bool-cases (client.id == n)) [
    | inl own ↦ inl ((nat_eq.beq_iff client.id n).0 own)
    | inr other ↦ inr (
        modify-IsConnected h (on_instance (λ j. i)) store
          (λ q at' among.
            ground (arith, HashMap.contains_key-insert client.id n d p.instance.clients))
          c)
  ]
