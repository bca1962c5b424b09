-- ===== src/Commands/Run.antt =====
-- src/ext.rs: the commands from the connection to the lines that they print. The streams are tokio's;
-- a reader holds what is still to come on its stream.
use mathlib.Core.Option
use ra_multiplex.Base.{
  ℕ, suc, Text, codes, List, [], ◌∷◌, ◌++◌, map, Option, some, Bool, if◌then◌else◌, Outcome, ok,
  err, panic, Error,
}
use ra_multiplex.Base.Int.{ℤ, ◌-ℤ◌}
use ra_multiplex.Base.Fallible.{◌>>=◌, or_error}
use ra_multiplex.Io.{IoResult, done, failed, AsyncBufRead, AsyncWrite}
use ra_multiplex.Str.Decimal.{display_usize, display_i64}
use ra_multiplex.Config.{Config}
use ra_multiplex.Lsp.Json.{Json}
use ra_multiplex.Lsp.Jsonrpc.{Message}
use ra_multiplex.Lsp.Ext.{Method, status, reload, ClientStatus, InstanceStatus, StatusResponse}
use ra_multiplex.Lsp.Transport.{MessageJson, LspReader, read_message, write_message, new}
use ra_multiplex.Socket
use ra_multiplex.Socket.{Network, Stream, OwnedReadHalf, OwnedWriteHalf, into_split}
use ra_multiplex.Commands.{command_request, ext_request}

-- tokio's buffered reader on one half of the stream, and its writer on the other.
pub record Link (net : Network) (R : Type 0) : Type 0 where
  pub buffered : OwnedReadHalf net → R
  pub reads : AsyncBufRead R
  pub writes : AsyncWrite (OwnedWriteHalf net)

module _ (net : Network) {R V : Type 0} (link : Link net R) (wire : MessageJson V) where
  -- Behind the writing of the request. `none` means that `read_header` ran out of fuel.
  abbrev pub answered :
      {A : Type 0}
      → (V → Option A)
      → R
      → IoResult (Unit {0}) × OwnedWriteHalf net
      → Option (Outcome A) × OwnedWriteHalf net
  answered parse reader (failed kind, writer) = (some (err Error.write_failed), writer)
  answered parse reader (done u, writer) = (
    Option.map
        (λ (r : Outcome (Option (Message V)) × LspReader R V). ext_request parse (done u) r.0)
        (read_message link.reads wire (new link.reads wire reader)),
    writer,
  )

  module _ ⦃json : Json V⦄ where
    unfoldable pub exchange :
        {A : Type 0}
        → (V → Option A)
        → Method
        → Stream net
        → Option (Outcome A) × OwnedWriteHalf net
    unfolding into_split command_request write_message read_message ext_request new
    exchange parse method stream =
        let (reader, writer) = into_split net stream in
        answered parse (link.buffered reader)
          (write_message link.writes wire (command_request method) writer)

    abbrev on_connection :
        {A : Type 0}
        → (V → Option A)
        → Method
        → Outcome (Stream net) × net.World
        → Option (Outcome A) × net.World
    on_connection parse method (ok stream, w) = ((exchange parse method stream).0, w)
    on_connection parse method (err e, w) = (some (err e), w)
    on_connection parse method (panic, w) = (some panic, w)

    -- The whole of `ext_request`.
    unfoldable pub request_on :
        {A : Type 0} → (V → Option A) → Config → Method → net.World → Option (Outcome A) × net.World
    unfolding Socket.connect exchange
    request_on parse config method w =
        on_connection parse method (Socket.connect net config.connect w)

    -- The current directory is known by its `to_str`.
    unfoldable pub reload_directory : IoResult (Option Text) → Outcome Text
    reload_directory (failed kind) = err Error.no_current_dir
    reload_directory (done path) = or_error path Error.not_utf8_dir

    abbrev on_directory :
        Config → net.World → Outcome Text → Option (Outcome (Unit {0})) × net.World
    on_directory config w (ok cwd) = request_on (λ v. some tt) config (reload cwd) w
    on_directory config w (err e) = (some (err e), w)
    on_directory config w panic = (some panic, w)

    unfoldable pub run_reload :
        Config → IoResult (Option Text) → net.World → Option (Outcome (Unit {0})) × net.World
    unfolding reload_directory request_on
    run_reload config current_dir w = on_directory config w (reload_directory current_dir)

-- The standard library's `Debug` of a text and of a list of texts.
pub record Debug : Type 0 where
  pub text : Text → Text
  pub list : List Text → Text

abbrev each : {A : Type 0} → (A → List Text) → List A → List Text
each f [] = []
each f (x ∷ xs) = f x ++ each f xs

-- The lines for an instance; the difference of the two times is taken to fit an `i64`.
module _ (debug : Debug) where
  unfoldable pub client_lines : ClientStatus → List Text
  client_lines client =
      codes "    - Client"
      ∷ (codes "      id: " ++ display_usize client.id)
      ∷ codes "      files:"
      ∷ map (λ file. codes "        - " ++ file) client.files

  unfoldable pub env_lines : List (Text × Text) → List Text
  env_lines [] = []
  env_lines (e ∷ env) =
      codes "  server env:"
      ∷ map (λ (v : Text × Text). codes "    " ++ v.0 ++ codes " = " ++ v.1) (e ∷ env)

  unfoldable pub instance_lines : ℤ → InstanceStatus → List Text
  unfolding client_lines env_lines
  instance_lines now instance =
      codes "- Instance"
      ∷ (codes "  pid: " ++ display_usize instance.pid)
      ∷ (codes "  server: " ++ debug.text instance.server ++ codes " " ++ debug.list instance.args)
      ∷ (env_lines instance.env
          ++ (codes "  path: " ++ debug.text instance.workspace_root)
            ∷ (codes "  last used: " ++ display_i64 (now -ℤ instance.last_used) ++ codes "s ago")
            ∷ codes "  registered dynamic capabilities:"
            ∷ (map (λ cap. codes "    - " ++ cap) instance.registered_dyn_capabilities
                ++ codes "  clients:" ∷ each client_lines instance.clients))

  -- The clock is asked again for every instance.
  unfoldable pub status_lines : (ℕ → ℤ) → ℕ → List InstanceStatus → List Text
  unfolding instance_lines
  status_lines clock n [] = []
  status_lines clock n (i ∷ is) = instance_lines (clock n) i ++ status_lines clock (suc n) is

  -- What is printed of a status; `to_string` is serde_json's.
  unfoldable pub print_status :
      (StatusResponse → Text) → (ℕ → ℤ) → Bool → StatusResponse → List Text
  unfolding status_lines
  print_status to_string clock json res =
      if json then to_string res ∷ [] else status_lines clock 0 res.instances

  module _ (net : Network) {R V : Type 0} (link : Link net R) (wire : MessageJson V)
      ⦃json : Json V⦄ where
    -- `status`: an error, or what is printed.
    unfoldable pub run_status :
        (StatusResponse → Text)
        → (ℕ → ℤ)
        → Config
        → Bool
        → net.World
        → Option (Outcome (List Text)) × net.World
    unfolding request_on print_status
    run_status to_string clock config as_json w =
        let (result, w') =
          request_on net link wire json.status_response.from_value config status w in
        (Option.map (λ o. o >>= λ res. ok (print_status to_string clock as_json res)) result, w')
