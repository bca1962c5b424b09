-- ===== src/Registry/Spawn.antt =====
-- src/instance.rs: `initialize_handshake`, `spawn`, `get_or_spawn`, `gc_task` and `wait_task`. What
-- the operating system and the child do is an argument.
use ra_multiplex.Base.{
  ℕ, suc, Text, codes, List, [], ◌∷◌, Option, none, some, Bool, true, false, nat_eq, if◌then◌else◌,
  Outcome, ok, err, panic, Error,
}
use ra_multiplex.Base.Int.{ℤ, pos, ltb_ℤ}
use ra_multiplex.Base.Fallible.{◌>>=◌, or_error}
use ra_multiplex.Base.HashMap
use ra_multiplex.Io.{IoResult, done, failed}
use ra_multiplex.Lsp.{InitializeParams, InitializeResult}
use ra_multiplex.Lsp.Json.{Json}
use ra_multiplex.Lsp.Jsonrpc.{
  Message, request, notification, response_error, response_success, ResponseSuccess, version,
  string, id_eq,
}
use ra_multiplex.Instance.{Instance, InstanceKey, idle}
use ra_multiplex.Registry.{key_eq, Process, Registry}

-- The outcome of the two writes and of the read between them.
pub record ChildIo (V : Type 0) : Type 0 where
  pub first_write : IoResult (Unit {0})
  pub response : Outcome (Option (Message V))
  pub second_write : IoResult (Unit {0})

-- The outcome of starting the child, and of asking for its id.
pub record Child (V : Type 0) : Type 0 where
  pub started : Bool
  pub id : Option ℕ
  pub io : ChildIo V

abbrev pub handshake_id : Text
handshake_id = codes "lspmux:initialize_request"

abbrev pub written : IoResult (Unit {0}) → Outcome (Unit {0})
written (done u) = ok u
written (failed kind) = err Error.write_failed

module _ {V : Type 0} ⦃json : Json V⦄ where
  unfoldable pub initialize_request : InitializeParams V → Message V
  initialize_request params = request (record {
    jsonrpc = version;
    method = codes "initialize";
    params = json.initialize_params.to_value params;
    id = string handshake_id;
  })

  unfoldable pub initialized_notification : Message V
  initialized_notification =
      notification
        (record { jsonrpc = version; method = codes "initialized"; params = json.empty_object })

  -- Only a success under the id of the request is the response.
  unfoldable pub handshake_response : Message V → Outcome (ResponseSuccess V)
  unfolding id_eq
  handshake_response (response_success res) =
      if id_eq res.id handshake_id then ok res else err Error.not_initialize_response
  handshake_response (response_error res) = err Error.not_initialize_response
  handshake_response (request req) = err Error.not_initialize_response
  handshake_response (notification notif) = err Error.not_initialize_response

  -- The handshake up to the parsed result.
  unfoldable pub handshake_result : ChildIo V → Outcome (InitializeResult V)
  unfolding handshake_response
  handshake_result io = do
    u ← written io.first_write
    read ← io.response
    message ← or_error read Error.stream_ended
    res ← handshake_response message
    or_error (json.initialize_result.from_value res.result) Error.parsing_result

  abbrev with_result :
      IoResult (Unit {0})
      → Message V
      → Outcome (InitializeResult V)
      → List (Message V) × Outcome (InitializeResult V)
  with_result second_write req (ok result) =
      (req ∷ initialized_notification ∷ [], (do u ← written second_write; ok result))
  with_result second_write req (err e) = (req ∷ [], err e)
  with_result second_write req panic = (req ∷ [], panic)

  -- What it writes to the child, and what it returns.
  unfoldable pub initialize_handshake :
      InitializeParams V → ChildIo V → List (Message V) × Outcome (InitializeResult V)
  unfolding handshake_result initialized_notification
  initialize_handshake params io =
      with_result io.second_write (initialize_request params) (handshake_result io)

  unfoldable pub spawn : InstanceKey → InitializeParams V → Child V → ℤ → Outcome (Instance V)
  unfolding initialize_handshake
  spawn key params child now = do
    pid ← or_error (if child.started then child.id else none) Error.spawn_failed
    init_result ← (initialize_handshake params child.io).1
    ok (record {
      key = key;
      pid = pid;
      init_result = init_result;
      clients = [];
      dynamic_capabilities = [];
      close = false;
      last_used = now;
    })

  -- `Entry::Occupied` ignores the new parameters and the child is not started.
  unfoldable pub get_or_spawn :
      Registry V → InstanceKey → InitializeParams V → Child V → ℤ → Outcome (Registry V × ℕ)
  unfolding spawn
  get_or_spawn self key params child now = elim (HashMap.get key self.entries) [
    | some h ↦ ok (self, h)
    | none ↦ do
      instance ← spawn key params child now
      ok (
        record {
          entries = HashMap.insert key self.next self.entries;
          store =
              HashMap.insert self.next (record { instance = instance; running = true }) self.store;
          next = suc self.next;
        },
        self.next,
      )
  ]

module _ {V : Type 0} where
  -- The body of the loop in `gc_task`, at one instance.
  unfoldable pub gc_instance : Option ℕ → ℤ → Instance V → Instance V
  unfolding idle
  gc_instance none now self = self
  gc_instance (some instance_timeout) now self = elim self.clients [
    | [] ↦
        if ltb_ℤ (pos instance_timeout) (idle self now) then record self { close = true } else self
    | c ∷ cs ↦ self
  ]

  abbrev pub on_instance : (Instance V → Instance V) → Process V → Process V
  on_instance f p = record p { instance = f p.instance }

  unfoldable pub gc_handles :
      Option ℕ → ℤ → List ℕ → HashMap.HashMap ℕ (Process V) → HashMap.HashMap ℕ (Process V)
  unfolding gc_instance
  gc_handles timeout now [] store = store
  gc_handles timeout now (h ∷ hs) store =
      gc_handles timeout now hs (HashMap.modify h (on_instance (gc_instance timeout now)) store)

  -- One tick of `gc_task`.
  unfoldable pub gc_round : Option ℕ → ℤ → Registry V → Registry V
  unfolding gc_handles
  gc_round timeout now self = record self {
    store = gc_handles timeout now (HashMap.values self.entries) self.store;
  }

  abbrev pub stopped : Process V → Process V
  stopped p = record { instance = record p.instance { clients = [] }; running = false }

  -- `wait_task` after `child.wait()`: the key is taken off the map and the clients off the instance.
  unfoldable pub child_exit : Registry V → ℕ → Process V → Registry V
  child_exit self h p = record self {
    entries = HashMap.remove p.instance.key self.entries;
    store = HashMap.modify h stopped self.store;
  }

  -- `wait_task` after `close.notified()`: the permit is taken and the child is killed.
  unfoldable pub notified : Registry V → ℕ → Registry V
  notified self h = record self {
    store = HashMap.modify h (on_instance (λ i. record i { close = false })) self.store;
  }
