-- ===== src/Registry.antt =====
-- src/instance.rs: the map of instances, and the tasks that find, spawn, watch and close them. An
-- `Arc<Instance>` is a handle into a store, so that the map and the tasks share one instance.
pub mod Lookup
pub mod Spawn
pub mod Steps
pub mod Sound
pub mod Invariant
pub mod Closing
use ra_multiplex.Base.{
  ℕ, suc, ◌≤◌, ◌<◌, Text, codes, List, [], ◌∷◌, ◌++◌, Option, none, some, Bool, true, false, ◌&&◌,
  ◌==◌, nat_eq, list_eq, pair_eq, text_eq, Eq, keep, length, ltb, if◌then◌else◌, map, ◌↔◌, ◌≡◌,
  arith, Outcome, ok, err, panic, Error,
}
use ra_multiplex.Base.Int.{ℤ, pos, ltb_ℤ}
use ra_multiplex.Base.HashMap
use ra_multiplex.Base.HashMap.{HashMap}
use ra_multiplex.Str.FilePath.{path_starts_with}
use ra_multiplex.Lsp.{InitializeResult}
use ra_multiplex.Lsp.Ext.{StatusResponse}
use ra_multiplex.Instance.{Instance, InstanceKey, instance_status, idle}

abbrev texts_eq : Eq (List Text)
texts_eq = list_eq

abbrev env_eq : Eq (List (Text × Text))
env_eq = list_eq

-- The derived `PartialEq` of `InstanceKey`.
abbrev pub key_beq : InstanceKey → InstanceKey → Bool
key_beq k j =
    k.server == j.server
    && k.args == j.args
    && k.env == j.env
    && k.workspace_root == j.workspace_root

pub key_beq_iff : (k j : InstanceKey) → (key_beq k j ≡ true) ↔ (k ≡ j)
key_beq_iff k j = ground (
  arith,
  text_eq.beq_iff k.server j.server,
  texts_eq.beq_iff k.args j.args,
  env_eq.beq_iff k.env j.env,
  text_eq.beq_iff k.workspace_root j.workspace_root,
)

instance abbrev pub key_eq : Eq InstanceKey
key_eq = record { beq = key_beq; beq_iff = key_beq_iff }

-- `running`: the instance's `wait_task` has not seen the child exit.
pub record Process (V : Type 0) : Type 0 where
  pub instance : Instance V
  pub running : Bool

-- `next` is the first unused handle.
pub record Registry (V : Type 0) : Type 0 where
  pub entries : HashMap InstanceKey ℕ
  pub store : HashMap ℕ (Process V)
  pub next : ℕ

-- `max_by_key` keeps the later of two entries with equally long roots.
unfoldable pub longest_root : InstanceKey × ℕ → List (InstanceKey × ℕ) → InstanceKey × ℕ
longest_root best [] = best
longest_root best (e ∷ es) =
    longest_root
      (if ltb (length e.0.workspace_root) (length best.0.workspace_root) then best else e) es

abbrev pub covers : Text → InstanceKey × ℕ → Bool
covers cwd e = path_starts_with cwd e.0.workspace_root

unfoldable pub max_by_root : List (InstanceKey × ℕ) → Option (InstanceKey × ℕ)
unfolding longest_root
max_by_root [] = none
max_by_root (e ∷ es) = some (longest_root e es)

-- `InstanceMap::get_by_cwd`, with the key of the entry beside the handle.
unfoldable pub get_by_cwd : HashMap InstanceKey ℕ → Text → Option (InstanceKey × ℕ)
unfolding max_by_root keep
get_by_cwd entries cwd = max_by_root (keep (covers cwd) entries)

module _ {V : Type 0} where
  abbrev pub empty : Registry V
  empty = record { entries = []; store = []; next = 0 }

  -- The instances behind the entries; every handle of the map is in the store.
  unfoldable pub instances : HashMap ℕ (Process V) → List ℕ → List (Instance V)
  instances store [] = []
  instances store (h ∷ hs) = elim (HashMap.get h store) [
    | some p ↦ p.instance ∷ instances store hs
    | none ↦ instances store hs
  ]

  -- `InstanceMap::get_status`
  unfoldable pub get_status : Registry V → StatusResponse
  unfolding instances instance_status
  get_status self = record {
    instances = map instance_status (instances self.store (HashMap.values self.entries));
  }
