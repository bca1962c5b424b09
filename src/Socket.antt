-- ===== src/Socket.antt =====
-- src/socketwrapper.rs: one type for TCP and Unix sockets, on a Unix target. The sockets are tokio's;
-- a call of a socket takes its state and returns the next one.
pub mod Halves
pub mod Addresses
use ra_multiplex.Base.{ℕ, Text, List, Outcome, ok, err, panic, Error}
use ra_multiplex.Io.{
  ErrorKind, connection_reset, connection_aborted, broken_pipe, unexpected_eof, not_connected,
  not_found, other, IoResult, done, failed,
}
use ra_multiplex.Config.{Address}

pub data Poll (A : Type 0) : Type 0 where
  pending : Poll A
  ready : A → Poll A

-- tokio's `AsyncRead`, by the room that is left in the buffer.
pub record AsyncRead (S : Type 0) : Type 0 where
  pub poll_read : ℕ → S → Poll (IoResult Text) × S

-- tokio's `AsyncWrite`.
pub record AsyncPollWrite (S : Type 0) : Type 0 where
  pub poll_write : Text → S → Poll (IoResult ℕ) × S
  pub poll_write_vectored : List Text → S → Poll (IoResult ℕ) × S
  pub poll_flush : S → Poll (IoResult (Unit {0})) × S
  pub poll_shutdown : S → Poll (IoResult (Unit {0})) × S

-- The variants of each of the file's enums: `Stream`, its two halves, `Listener` and `SocketAddr`.
pub data Variant (T U : Type 0) : Type 0 where
  tcp : T → Variant T U
  unix : U → Variant T U

module _ {T U : Type 0} where
  -- A call of whichever socket it is.
  unfoldable pub project : {X : Type 0} → (T → X × T) → (U → X × U) → Variant T U → X × Variant T U
  project f g (tcp t) = let (x, t') = f t in (x, tcp t')
  project f g (unix u) = let (x, u') = g u in (x, unix u')

  module _ (t : AsyncRead T) (u : AsyncRead U) where
    unfoldable pub read_half : AsyncRead (Variant T U)
    unfolding project
    read_half = record { poll_read = λ room. project (t.poll_read room) (u.poll_read room) }

    unfoldable pub stream_read : AsyncRead (Variant T U)
    unfolding project
    stream_read = record { poll_read = λ room. project (t.poll_read room) (u.poll_read room) }

  module _ (t : AsyncPollWrite T) (u : AsyncPollWrite U) where
    unfoldable pub write_half : AsyncPollWrite (Variant T U)
    unfolding project
    write_half = record {
      poll_write = λ buf. project (t.poll_write buf) (u.poll_write buf);
      poll_write_vectored =
          λ bufs. project (t.poll_write_vectored bufs) (u.poll_write_vectored bufs);
      poll_flush = project t.poll_flush u.poll_flush;
      poll_shutdown = project t.poll_shutdown u.poll_shutdown;
    }

    unfoldable pub stream_write : AsyncPollWrite (Variant T U)
    unfolding project
    stream_write = record {
      poll_write = λ buf. project (t.poll_write buf) (u.poll_write buf);
      poll_write_vectored =
          λ bufs. project (t.poll_write_vectored bufs) (u.poll_write_vectored bufs);
      poll_flush = project t.poll_flush u.poll_flush;
      poll_shutdown = project t.poll_shutdown u.poll_shutdown;
    }

-- tokio's sockets and the calls of the operating system; `World` is what these calls change.
pub record Network : Type 1 where
  pub World : Type 0
  pub TcpStream : Type 0
  pub TcpRead : Type 0
  pub TcpWrite : Type 0
  pub TcpListener : Type 0
  pub TcpAddr : Type 0
  pub UnixStream : Type 0
  pub UnixRead : Type 0
  pub UnixWrite : Type 0
  pub UnixListener : Type 0
  pub UnixAddr : Type 0
  pub tcp_connect : Text → ℕ → World → IoResult TcpStream × World
  pub tcp_bind : Text → ℕ → World → IoResult TcpListener × World
  pub tcp_accept : TcpListener → World → IoResult (TcpStream × TcpAddr) × World
  pub tcp_split : TcpStream → TcpRead × TcpWrite
  pub unix_connect : Text → World → IoResult UnixStream × World
  pub unix_bind : Text → World → IoResult UnixListener × World
  pub unix_accept : UnixListener → World → IoResult (UnixStream × UnixAddr) × World
  pub unix_split : UnixStream → UnixRead × UnixWrite
  pub remove_file : Text → World → IoResult (Unit {0}) × World

-- `.with_context(…).map(…)`
unfoldable pub with_context : {A B W : Type 0} → Error → (A → B) → IoResult A × W → Outcome B × W
with_context e f (done a, w) = (ok (f a), w)
with_context e f (failed kind, w) = (err e, w)

-- May a socket be bound after this attempt to remove an old one? There may have been none.
unfoldable pub is_removed : IoResult (Unit {0}) → Outcome (Unit {0})
is_removed (done u) = ok u
is_removed (failed not_found) = ok tt
is_removed (failed kind) = err Error.removing_old_socket

module _ (net : Network) where
  abbrev pub Stream : Type 0
  Stream = Variant net.TcpStream net.UnixStream

  abbrev pub OwnedReadHalf : Type 0
  OwnedReadHalf = Variant net.TcpRead net.UnixRead

  abbrev pub OwnedWriteHalf : Type 0
  OwnedWriteHalf = Variant net.TcpWrite net.UnixWrite

  abbrev pub Listener : Type 0
  Listener = Variant net.TcpListener net.UnixListener

  abbrev pub SocketAddr : Type 0
  SocketAddr = Variant net.TcpAddr net.UnixAddr

  unfoldable pub connect : Address → net.World → Outcome Stream × net.World
  unfolding with_context
  connect (Address.tcp ip port) w = with_context Error.connecting tcp (net.tcp_connect ip port w)
  connect (Address.unix path) w = with_context Error.connecting unix (net.unix_connect path w)

  unfoldable pub into_split : Stream → OwnedReadHalf × OwnedWriteHalf
  into_split (tcp s) = let (read, write) = net.tcp_split s in (tcp read, tcp write)
  into_split (unix s) = let (read, write) = net.unix_split s in (unix read, unix write)

  -- `bind` of a Unix socket behind the attempt to remove an old one.
  unfoldable pub bind_unix : Text → Outcome (Unit {0}) × net.World → Outcome Listener × net.World
  unfolding with_context
  bind_unix path (ok u, w) = with_context Error.binding unix (net.unix_bind path w)
  bind_unix path (err e, w) = (err e, w)
  bind_unix path (panic, w) = (panic, w)

  unfoldable pub bind : Address → net.World → Outcome Listener × net.World
  unfolding with_context bind_unix is_removed
  bind (Address.tcp ip port) w = with_context Error.binding tcp (net.tcp_bind ip port w)
  bind (Address.unix path) w =
      let (result, w') = net.remove_file path w in bind_unix path (is_removed result, w')

  -- What a listener accepted, with the address of the peer.
  unfoldable pub accepted :
      {S A : Type 0}
      → (S → Stream)
      → (A → SocketAddr)
      → IoResult (S × A) × net.World
      → IoResult (Stream × SocketAddr) × net.World
  accepted f g (done (s, a), w) = (done (f s, g a), w)
  accepted f g (failed kind, w) = (failed kind, w)

  unfoldable pub accept : Listener → net.World → IoResult (Stream × SocketAddr) × net.World
  unfolding accepted
  accept (tcp l) w = accepted tcp tcp (net.tcp_accept l w)
  accept (unix l) w = accepted unix unix (net.unix_accept l w)
