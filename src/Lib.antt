-- ===== src/Lib.antt =====
-- ra-multiplex lets several editors share one language server. This library models the program in
-- src/ and proves what makes it correct.
--
-- The parts, and the files that model them (paths from the repository's root):
--
-- Base: shared notation, lists, Rust's Eq as an interface, HashMap as the list of its entries in an
-- order that no theorem fixes, HashSet, and the results of fallible code (Outcome: a value, an error or
-- a panic). Str: what the program uses of Rust's strings, numbers as text, UTF-8 and paths. A text is
-- the list of its bytes. Io: tokio's readers and writers as interfaces.
--
-- Lsp (src/lsp.rs), Lsp.Jsonrpc (src/lsp/jsonrpc.rs) and Lsp.Ext (src/lsp/ext.rs) are the messages.
-- What they rely on of serde_json is an interface: Lsp.Json has its conversions,
-- Lsp.Transport.MessageJson whole messages. Lsp.Ext has the tags that the multiplexer puts into
-- request ids (tag, untag).
--
-- Serde is what the serde attributes of those types make of them: for each type the fields under
-- the names, with the defaults and the omissions that its attributes say, and the reader that
-- matches (Serde.Documents, Serde.Registrations, Serde.Params, Serde.Options for the flattened and
-- the tagged parts, Serde.Status, Serde.Messages for the untagged and the strict ones).
-- serde_json's Value is a parameter that is known by its shape, the printing and the parsing of a
-- Value another. Serde.Codecs fills the interface Lsp.Json, Serde.Wire fills MessageJson, and
-- Serde.Peers, Serde.Relay, Serde.Folders, Serde.Wire and Serde.Editor put the other parts on top.
-- Where a value cannot be told from its text, as a Some that holds null, the conditions say so
-- (IsSendable, IsReadable, IsPlain, IsInRange). That serde also reads a struct from an array of its
-- fields and a trace level from an object, and refuses a field that comes twice, is left out.
--
-- Lsp.Transport (src/lsp/transport.rs) is LspReader and LspWriter. The loop of read_header runs on
-- fuel, three rounds, which are enough: each of the two headers may come once, and the empty line is
-- the third. Lsp.Transport.Queue is what LspReader promises: a queue of messages.
--
-- Tasks is stdin_task (src/instance.rs) and input_task (src/client.rs), which write what a channel
-- brings through LspWriter. Socket (src/socketwrapper.rs) wraps tokio's TCP and Unix sockets, on a Unix
-- target; those, and the calls of the operating system, are the parameter Network.
--
-- Instance (src/instance.rs, impl Instance) has the state of one language server, its clients with
-- their open files, and its dynamic capabilities. Each operation holds the lock on the clients from
-- its first read to its last send, so it is one function from a state to a state and a list of
-- effects (Effect: what is sent to the server or to a client). Instance.Stdout is a round of
-- stdout_task and Instance.Task the whole of it, Client.Output (src/client.rs) a round of
-- output_task and Client.Task the whole. Session puts them together: a step relation in which
-- clients and server act in any order. A client sends through output_task, the server through
-- stdout_task, and both change the one Instance.
--
-- Registry (src/instance.rs) has the map of instances: get_by_cwd, get_status, and in Registry.Spawn
-- initialize_handshake, spawn, get_or_spawn, gc_task and wait_task. An Arc<Instance> is a handle into
-- a store, since the map and the tasks share the instance. Registry.Steps has the steps.
--
-- Client.Workspace and Client.Connect (src/client.rs) are a connection from its first message to
-- the start of its tasks: process, connect, status, reload, and the selection of the workspace
-- root. The crates that parse and decode URIs are parameters. Proxy (src/proxy.rs) and Commands
-- (src/ext.rs) are the programs at the other end of the connection. Proxy.Run is the proxy from its
-- connection to the copying of bytes, which is tokio's; Commands.Run the commands from theirs to
-- the lines that they print. In both, a stream holds the bytes that are still to come or were
-- written. Server (src/server.rs) is the loop that accepts connections and spawns a task with a
-- number for each, which begins with process.
--
-- Config (src/config.rs) is the configuration: Config.Reading what the serde attributes make of a
-- TOML table, Config.Loading the file and the logger. toml's parser, the file system, the opening
-- of the log, the project's directories and tracing's filters are parameters. A BTreeSet is its
-- ascending list (Base.BTreeSet). Main (src/main.rs) goes from the parsed arguments to the call of
-- a command; of the client command it has the attributes, which clap, a parameter, makes a value
-- of.
--
-- System puts Server, Client, Instance and Registry together: connections are accepted, connect,
-- and send and receive, while the garbage collector and the children's own tasks run, in any order.
-- A call of connect is one step there. System.Trace has what a run sent through each instance, so
-- that System.Kept and System.Instances carry the invariants of a session over to every instance of
-- the server, System.Untouched says which instances a connection touches, and System.Refinement
-- maps the server's steps to those of Registry.Steps.
--
-- The outcomes of reads, writes, sends, of starting a child and of the clock are arguments. A usize
-- has 64 bits and wraps around; an i64 in an id is checked on parsing. Times are integers.
--
-- Not modelled: the log's messages (stderr_task and Drop for Instance only log), clap's parser, the
-- Debug output of the config command, and what tokio does inside a read, a write or the copying. That a
-- send into a full channel waits is not modelled either, and the difference of two times that status
-- prints is taken to fit an i64.
--
-- Examples has concrete inputs, with toy crates that fulfil the assumptions, and tests of the source.
pub mod Base
pub mod Str
pub mod Io
pub mod Lsp
pub mod Main
pub mod Effect
pub mod Instance
pub mod Client
pub mod Registry
pub mod Config
pub mod Server
pub mod Proxy
pub mod Commands
pub mod Examples
pub mod Session
pub mod Serde
pub mod Tasks
pub mod System
pub mod Socket
