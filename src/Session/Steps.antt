-- ===== src/Session/Steps.antt =====
-- One language server instance and its clients: which steps the tasks of the program make, in any
-- order, while the server's child runs. A step is one critical section: the program holds the lock on
-- `clients` across it.
use ra_multiplex.Base.{◌≡◌, List, ◌++◌, Bool, ok}
use ra_multiplex.Base.Int.{ℤ}
use ra_multiplex.Lsp.Json.{Json}
use ra_multiplex.Lsp.Jsonrpc.{Message}
use ra_multiplex.Effect.{Effect}
use ra_multiplex.Instance.{Instance, Client, add_client, cleanup_client}
use ra_multiplex.Instance.Stdout.{handle_server_message}
use ra_multiplex.Client.Output.{Flow, handle_client_message}

-- `log` holds what was sent so far, oldest first.
pub record Session (V : Type 0) : Type 0 where
  pub instance : Instance V
  pub log : List (Effect V)

abbrev pub extend : {V : Type 0} → Session V → Instance V → List (Effect V) → Session V
extend s i es = record { instance = i; log = s.log ++ es }

module _ {V : Type 0} ⦃json : Json V⦄ where
  -- `join` is `connect`'s call of `add_client`; `client_says` a round of a client's `output_task`;
  -- `part` the end of that task; `server_says` a round of `stdout_task`.
  pub data Step (s t : Session V) : Type 0 where
    join :
        (c : Client) (i : Instance V) (es : List (Effect V))
        → add_client s.instance c ≡ ok (i, es)
        → t ≡ extend s i es
        → Step s t
    client_says :
        (c : Client) (now : ℤ) (sent : Bool) (m : Message V) (i : Instance V) (es : List (Effect V))
        (flow : Flow)
        → handle_client_message s.instance c now sent m ≡ ok (i, es, flow)
        → t ≡ extend s i es
        → Step s t
    part :
        (c : Client) (i : Instance V) (es : List (Effect V))
        → cleanup_client s.instance c ≡ ok (i, es)
        → t ≡ extend s i es
        → Step s t
    server_says :
        (m : Message V)
        → t ≡ extend s (handle_server_message s.instance m).0 (handle_server_message s.instance m).1
        → Step s t

  pub data Reach (s : Session V) : Session V → Type 0 where
    here : Reach s s
    next : {t u : Session V} → Reach s t → Step t u → Reach s u
