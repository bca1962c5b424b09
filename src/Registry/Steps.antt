-- ===== src/Registry/Steps.antt =====
-- What happens to the map of instances and to the children.
use ra_multiplex.Base.{ℕ, ◌≡◌, Option, some, true, nat_eq, ok}
use ra_multiplex.Base.Int.{ℤ}
use ra_multiplex.Base.HashMap
use ra_multiplex.Base.HashMap.{HashMap}
use ra_multiplex.Lsp.{InitializeParams}
use ra_multiplex.Lsp.Json.{Json}
use ra_multiplex.Instance.{Instance, InstanceKey}
use ra_multiplex.Registry.{key_eq, Process, Registry}
use ra_multiplex.Registry.Spawn.{Child, get_or_spawn, on_instance, gc_round, child_exit, notified}

-- What the tasks do to the registry, in any order. `works` is any step of an instance's own tasks,
-- which never change its key.
module _ {V : Type 0} ⦃json : Json V⦄ where
  pub data Step (r t : Registry V) : Type 0 where
    connects :
        (key : InstanceKey) (params : InitializeParams V) (child : Child V) (now : ℤ) (h : ℕ)
        → get_or_spawn r key params child now ≡ ok (t, h)
        → Step r t
    collects : (timeout : Option ℕ) (now : ℤ) → t ≡ gc_round timeout now r → Step r t
    works :
        (h : ℕ) (f : Instance V → Instance V)
        → ((i : Instance V) → (f i).key ≡ i.key)
        → t ≡ record r { store = HashMap.modify h (on_instance f) r.store }
        → Step r t
    kills : (h : ℕ) → t ≡ notified r h → Step r t
    exits :
        (h : ℕ) (p : Process V)
        → HashMap.get h r.store ≡ some p
        → p.running ≡ true
        → t ≡ child_exit r h p
        → Step r t

  pub data Reach (r : Registry V) : Registry V → Type 0 where
    here : Reach r r
    next : {t u : Registry V} → Reach r t → Step t u → Reach r u
