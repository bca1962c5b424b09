-- ===== src/System/Fresh.antt =====
-- The numbers of connections that wait are not those of clients, in every state of the server.
use ra_multiplex.Base.{
  ℕ, suc, ◌<◌, Text, List, [], ◌∷◌, Option, none, some, Bool, true, false, not, keep-In, In, ◌==◌,
  nat_eq, ◌≡◌, refl, sym, ap, ◌∙◌, ◌⊎◌, inl, inr, subst, arith, Outcome,
}
use ra_multiplex.Base.Int.{ℤ}
use ra_multiplex.Base.HashMap
use ra_multiplex.Base.HashMap.{HashMap}
use ra_multiplex.Str.Decimal.{usize_max}
use ra_multiplex.Io.{IoResult}
use ra_multiplex.Lsp.{InitializeParams}
use ra_multiplex.Lsp.Json.{Json}
use ra_multiplex.Lsp.Jsonrpc.{Message, Request}
use ra_multiplex.Instance.{Instance}
use ra_multiplex.Instance.Stdout.{handle_server_message}
use ra_multiplex.Client.Connect.{connect}
use ra_multiplex.Client.Workspace.{UriCrates}
use ra_multiplex.Registry.{Registry, Process}
use ra_multiplex.Registry.Spawn.{
  Child, on_instance, stopped, gc_instance, gc_handles, gc_round, child_exit, notified,
}
use ra_multiplex.Server.{next_client_id}
use ra_multiplex.Session.Keys.{handle_client_message-SameClient, cleanup_client-older}
use ra_multiplex.Session.Handlers.{handle_server_message-clients}
use ra_multiplex.System.{
  System, becomes, connected, Step, accepts, connects, client_says, server_says, leaves, collects,
  kills, exits,
}
use ra_multiplex.System.Connected.{IsConnected, modify-IsConnected}
use ra_multiplex.System.Connecting.{connect-IsConnected}

-- Every number that was given out lies below the counter, and no waiting connection has the number
-- of a client.
pub record IsFresh {V : Type 0} (s : System V) : Type 0 where
  pub waiting_low : (n : ℕ) → In n s.waiting → n < s.counter
  pub clients_low : (n : ℕ) → IsConnected n s.registry.store → n < s.counter
  pub apart : (n : ℕ) → In n s.waiting → IsConnected n s.registry.store → ⊥

pub counts_up : (n : ℕ) → n < usize_max → (next_client_id n).1 ≡ suc n
unfolding next_client_id
counts_up n h = omega arith

module _ {V : Type 0} where
  -- A step that brings no client.
  older-IsFresh :
      (s : System V) (r : Registry V)
      → ((n : ℕ) → IsConnected n r.store → IsConnected n s.registry.store)
      → IsFresh s
      → IsFresh (record s { registry = r })
  older-IsFresh s r older v = record {
    waiting_low = v.waiting_low;
    clients_low = λ n c. v.clients_low n (older n c);
    apart = λ n w c. v.apart n w (older n c);
  }

  becomes-IsConnected :
      (n : ℕ) (r : Registry V) (h : ℕ) (p : Process V) (i : Instance V)
      → HashMap.get h r.store ≡ some p
      → (HashMap.contains_key n i.clients ≡ true → HashMap.contains_key n p.instance.clients ≡ true)
      → IsConnected n (becomes r h i).store
      → IsConnected n r.store
  becomes-IsConnected n r h p i at older c =
      modify-IsConnected n h (on_instance (λ j. i)) r.store (λ q at' among. ground arith) c

  pub gc_instance-clients :
      (timeout : Option ℕ) (now : ℤ) (i : Instance V)
      → (gc_instance timeout now i).clients ≡ i.clients
  unfolding gc_instance
  gc_instance-clients none now i = refl
  gc_instance-clients (some t) now i = ground arith

  gc_handles-IsConnected :
      (n : ℕ) (timeout : Option ℕ) (now : ℤ) (hs : List ℕ) (store : HashMap ℕ (Process V))
      → IsConnected n (gc_handles timeout now hs store)
      → IsConnected n store
  unfolding gc_handles
  gc_handles-IsConnected n timeout now [] store c = c
  gc_handles-IsConnected n timeout now (h ∷ hs) store c =
      modify-IsConnected n h (on_instance (gc_instance timeout now)) store
        (λ q at among. rw (sym (gc_instance-clients timeout now q.instance)) among)
        (gc_handles-IsConnected n timeout now hs _ c)

module _ {V : Type 0} ⦃json : Json V⦄ (uri : UriCrates) (windows : Bool) where
  connected-IsFresh :
      (s : System V) (n : ℕ) (server : Text) (args : List Text) (env : List (Text × Text))
      (cwd : Option Text) (req : Request V) (params : InitializeParams V) (child : Child V)
      (now : ℤ) (write : IoResult (Unit {0})) (second : Outcome (Option (Message V)))
      → In n s.waiting
      → IsFresh s
      → IsFresh (connected uri windows s n server args env cwd req params child now write second)
  connected-IsFresh s n server args env cwd req params child now write second waits v =
      let joined : (m : ℕ)
          → IsConnected m
              (connect uri windows s.registry n server args env cwd req params child now write
                second).0.store
          → (n ≡ m) ⊎ IsConnected m s.registry.store =
        λ m c.
          connect-IsConnected m uri windows s.registry n server args env cwd req params child now
            write second c in
      record {
        waiting_low = λ m w. v.waiting_low m (keep-In (λ k. not (k == n)) m s.waiting w).0;
        clients_low = λ m c. elim (joined m c) [
          | inl same ↦ subst (λ k. k < s.counter) same (v.waiting_low n waits)
          | inr old ↦ v.clients_low m old
        ];
        apart = λ m w c.
            let (still, other) = keep-In (λ k. not (k == n)) m s.waiting w in
            elim (joined m c) [
              | inl same ↦ ground (arith, nat_eq.beq_iff m n)
              | inr old ↦ v.apart m still old
            ];
      }

  accepted-IsFresh :
      (s : System V)
      → s.counter < usize_max
      → IsFresh s
      → IsFresh (record s {
        waiting = (next_client_id s.counter).0 ∷ s.waiting;
        counter = (next_client_id s.counter).1;
      })
  accepted-IsFresh s low v =
      let up : (next_client_id s.counter).1 ≡ suc s.counter = counts_up s.counter low in
      record {
        waiting_low = λ n w. rw up (elim w [
          | inl new ↦ unfold next_client_id in omega arith
          | inr old ↦ let below = v.waiting_low n old in omega arith
        ]);
        clients_low = λ n c. rw up (let below = v.clients_low n c in omega arith);
        apart = λ n w c. elim w [
          | inl new ↦ let below = v.clients_low n c in unfold next_client_id in omega arith
          | inr old ↦ v.apart n old c
        ];
      }

  pub Step-IsFresh :
      {s t : System V} → Step uri windows s t → s.counter < usize_max → IsFresh s → IsFresh t
  Step-IsFresh {s} (accepts e) low v = rw e (accepted-IsFresh s low v)
  Step-IsFresh {s} (connects n server args env cwd req params child now write second waits e) low
        v =
      rw e (connected-IsFresh s n server args env cwd req params child now write second waits v)
  Step-IsFresh {s} (client_says h p c now sent m i es flow at says e) low v = rw e (
      older-IsFresh s (becomes s.registry h i)
        (λ n.
          becomes-IsConnected n s.registry h p i at (λ among.
            sym (handle_client_message-SameClient n p.instance c now sent m says) ∙ among))
        v)
  Step-IsFresh {s} (server_says h p m at e) low v = rw e (
      older-IsFresh s (becomes s.registry h (handle_server_message p.instance m).0)
        (λ n.
          becomes-IsConnected n s.registry h p (handle_server_message p.instance m).0 at (λ among.
            ap (HashMap.contains_key n) (sym (handle_server_message-clients p.instance m)) ∙ among))
        v)
  Step-IsFresh {s} (leaves h p c i es at left e) low v = rw e (
      older-IsFresh s (becomes s.registry h i)
        (λ n. becomes-IsConnected n s.registry h p i at (cleanup_client-older n p.instance c left))
        v)
  Step-IsFresh {s} (collects timeout now e) low v = rw e (
      older-IsFresh s (gc_round timeout now s.registry)
        (unfold gc_round in
          λ n.
            gc_handles-IsConnected n timeout now (HashMap.values s.registry.entries)
              s.registry.store)
        v)
  Step-IsFresh {s} (kills h e) low v = rw e (
      older-IsFresh s (notified s.registry h)
        (unfold notified in
          λ n.
            modify-IsConnected n h (on_instance (λ i. record i { close = false })) s.registry.store
              (λ q at among. among))
        v)
  Step-IsFresh {s} (exits h p at up e) low v = rw e (
      older-IsFresh s (child_exit s.registry h p)
        (unfold child_exit in
          λ n.
            modify-IsConnected n h stopped s.registry.store
              (λ q at' among. unfold HashMap.contains_key in ground arith))
        v)
