-- ===== src/Examples/Sockets.antt =====
-- A file system that knows only which files exist, and a socket file that an old server left.
use ra_multiplex.Base.{
  ℕ, Text, codes, Bool, Bool-cases, inl, inr, true, false, ok, refl, ◌==◌, nat_eq, list_eq, text_eq,
  if◌then◌else◌, ◌≡◌, sym, ap, ◌∙◌, arith,
}
use ra_multiplex.Io.{IoResult, done, failed, not_found}
use ra_multiplex.Config.{Address}
use ra_multiplex.Socket.{Network, unix, connect, bind, bind_unix, accept, is_removed}
use ra_multiplex.Socket.Addresses.{Removes, BindsFree, bind-BindsFree}

abbrev pub Files : Type 0
Files = Text → Bool

unfoldable pub remove_file : Text → Files → IoResult (Unit {0}) × Files
remove_file path files =
    if files path
    then (done tt, λ p. if p == path then false else files p)
    else (failed not_found, files)

abbrev pub one_host : Network
one_host = record {
  World = Files;
  TcpStream = ℕ;
  TcpRead = ℕ;
  TcpWrite = ℕ;
  TcpListener = ℕ;
  TcpAddr = ℕ;
  UnixStream = Text;
  UnixRead = Text;
  UnixWrite = Text;
  UnixListener = Text;
  UnixAddr = Text;
  tcp_connect = λ ip port w. (done port, w);
  tcp_bind = λ ip port w. (done port, w);
  tcp_accept = λ l w. (done (l, l), w);
  tcp_split = λ s. (s, s);
  unix_connect = λ path w. (done path, w);
  unix_bind = λ path w. (done path, w);
  unix_accept = λ l w. (done (l, l), w);
  unix_split = λ s. (s, s);
  remove_file = remove_file;
}

abbrev exists : Text → Files → Bool
exists path files = files path

free : (path : Text) (files : Files) → (remove_file path files).1 path ≡ false
unfolding remove_file
free path files = elim (Bool-cases (files path)) [
  | inl e ↦ ground (arith, text_eq.beq_iff path path)
  | inr e ↦ ground arith
]

-- The file is gone, whatever the result is.
gone :
    (path : Text) (files files' : Files) (r : IoResult (Unit {0}))
    → remove_file path files ≡ (r, files')
    → files' path ≡ false
gone path files files' r e =
    sym (ap (λ (x : IoResult (Unit {0}) × Files). x.1 path) e) ∙ free path files

one_host-Removes : Removes one_host exists
one_host-Removes = record {
  removed = λ path w w' e. gone path w w' (done tt) e;
  missing = λ path w w' e. gone path w w' (failed not_found) e;
}

-- The socket of an earlier server is still there.
abbrev pub left_over : Files
left_over p = true

bind-BindsFree_example : BindsFree one_host exists (codes "/run/mux") left_over
bind-BindsFree_example =
    bind-BindsFree one_host exists (codes "/run/mux") left_over one_host-Removes

abbrev mux : Address
mux = Address.unix (codes "/run/mux")

mux_connected : connect one_host mux left_over ≡ (ok (unix (codes "/run/mux")), left_over)
unfolding connect
mux_connected = refl

-- The world behind the removal of the old socket.
abbrev cleared : Files
cleared = (remove_file (codes "/run/mux") left_over).1

mux_bound : bind one_host mux left_over ≡ (ok (unix (codes "/run/mux")), cleared)
unfolding bind bind_unix is_removed remove_file
mux_bound = refl

mux_accepted :
    accept one_host (unix (codes "/run/mux")) cleared
    ≡ (done (unix (codes "/run/mux"), unix (codes "/run/mux")), cleared)
unfolding accept
mux_accepted = refl
