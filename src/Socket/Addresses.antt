-- ===== src/Socket/Addresses.antt =====
-- The old file of a Unix socket, and when `bind` asks for a new one.
use ra_multiplex.Base.{Text, Bool, false, ◌≡◌, ◌≢◌, refl, ◌⊎◌, inl, inr, err, Error}
use ra_multiplex.Io.{
  ErrorKind, connection_reset, connection_aborted, broken_pipe, unexpected_eof, not_connected,
  not_found, other, IoResult, done, failed,
}
use ra_multiplex.Config.{Address}
use ra_multiplex.Socket.{unix, Network, bind, bind_unix, with_context, is_removed}

-- What a file system promises of `remove_file`: behind it there is no file, if it succeeds or says
-- that there was none.
pub record Removes (net : Network) (exists : Text → net.World → Bool) : Type 0 where
  pub removed :
      (path : Text) (w w' : net.World)
      → net.remove_file path w ≡ (done tt, w')
      → exists path w' ≡ false
  pub missing :
      (path : Text) (w w' : net.World)
      → net.remove_file path w ≡ (failed not_found, w')
      → exists path w' ≡ false

module _ (net : Network) where
  -- A Unix socket is bound in a world where its path is free, or not at all.
  abbrev pub BindsFree : (Text → net.World → Bool) → Text → net.World → Type 0
  BindsFree exists path w =
      ((w' : net.World) × (exists path w' ≡ false)
        × (bind net (Address.unix path) w
            ≡ with_context Error.binding unix (net.unix_bind path w')))
      ⊎ ((w' : net.World) × (k : ErrorKind) × (k ≢ not_found)
          × (net.remove_file path w ≡ (failed k, w'))
          × (bind net (Address.unix path) w ≡ (err Error.removing_old_socket, w')))

  -- Whatever is left at the path of a Unix socket, `bind` asks tokio to bind there only when no file
  -- is left, and then its result is tokio's; otherwise the removal failed, for another reason than
  -- that there was no file, and `bind` is an error that changed nothing more. It is assumed that
  -- behind a removal that succeeded or found nothing there is no file.
  pub bind-BindsFree :
      (exists : Text → net.World → Bool) (path : Text) (w : net.World)
      → Removes net exists
      → BindsFree exists path w
  unfolding bind bind_unix is_removed
  bind-BindsFree exists path w law = by_result (net.remove_file path w) refl
    where
      by_result :
          (r : IoResult (Unit {0}) × net.World)
          → net.remove_file path w ≡ r
          → BindsFree exists path w
      by_result (done u, w') e = inl (w', law.removed path w w' e, rw e)
      by_result (failed not_found, w') e = inl (w', law.missing path w w' e, rw e)
      by_result (failed connection_reset, w') e = inr (w', connection_reset, (λ same. cc), e, rw e)
      by_result (failed connection_aborted, w') e =
          inr (w', connection_aborted, (λ same. cc), e, rw e)
      by_result (failed broken_pipe, w') e = inr (w', broken_pipe, (λ same. cc), e, rw e)
      by_result (failed unexpected_eof, w') e = inr (w', unexpected_eof, (λ same. cc), e, rw e)
      by_result (failed not_connected, w') e = inr (w', not_connected, (λ same. cc), e, rw e)
      by_result (failed other, w') e = inr (w', other, (λ same. cc), e, rw e)
