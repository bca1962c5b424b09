-- ===== src/Socket/Halves.antt =====
-- What tokio's sockets promise holds of the sockets that wrap them.
use ra_multiplex.Base.{
  ℕ, suc, zero, ◌≤◌, Text, List, [], ◌∷◌, ◌++◌, length, ◌≡◌, refl, ap, ◌∙◌, subst,
}
use ra_multiplex.Io.{done}
use ra_multiplex.Socket.{
  pending, ready, AsyncRead, AsyncPollWrite, Variant, tcp, unix, project, read_half, write_half,
  stream_read, stream_write,
}

abbrev pub take : {A : Type 0} → ℕ → List A → List A
take zero xs = []
take (suc n) [] = []
take (suc n) (x ∷ xs) = x ∷ take n xs

abbrev pub concat : List Text → Text
concat [] = []
concat (t ∷ ts) = t ++ concat ts

-- What a writer promises: it takes so many bytes of the buffer as it says, and none where it says
-- nothing; flushing and shutting down write nothing.
pub record Accepts {S : Type 0} (io : AsyncPollWrite S) (sent : S → Text) : Type 0 where
  pub takes :
      (buf : Text) (s s' : S) (n : ℕ)
      → io.poll_write buf s ≡ (ready (done n), s')
      → (n ≤ length buf) × (sent s' ≡ sent s ++ take n buf)
  pub takes_vectored :
      (bufs : List Text) (s s' : S) (n : ℕ)
      → io.poll_write_vectored bufs s ≡ (ready (done n), s')
      → (n ≤ length (concat bufs)) × (sent s' ≡ sent s ++ take n (concat bufs))
  pub waits : (buf : Text) (s s' : S) → io.poll_write buf s ≡ (pending, s') → sent s' ≡ sent s
  pub flushes : (s : S) → sent (io.poll_flush s).1 ≡ sent s
  pub shuts_down : (s : S) → sent (io.poll_shutdown s).1 ≡ sent s

-- What a reader promises: no more bytes than there is room for, and those that come next.
pub record Fetches {S : Type 0} (io : AsyncRead S) (coming : S → Text) : Type 0 where
  pub fetches :
      (room : ℕ) (s s' : S) (bytes : Text)
      → io.poll_read room s ≡ (ready (done bytes), s')
      → (length bytes ≤ room) × (coming s ≡ bytes ++ coming s')
  pub waits : (room : ℕ) (s s' : S) → io.poll_read room s ≡ (pending, s') → coming s' ≡ coming s

abbrev pub either : {T U A : Type 0} → (T → A) → (U → A) → Variant T U → A
either f g (tcp t) = f t
either f g (unix u) = g u

module _ {T U : Type 0} where
  -- A call of a wrapped socket is a call of the socket.
  through :
      {X : Type 0} (f : T → X × T) (g : U → X × U) (P : Variant T U → X → Variant T U → Type 0)
      → ((t t' : T) (x : X) → f t ≡ (x, t') → P (tcp t) x (tcp t'))
      → ((u u' : U) (x : X) → g u ≡ (x, u') → P (unix u) x (unix u'))
      → (s s' : Variant T U) (x : X) → project f g s ≡ (x, s')
      → P s x s'
  unfolding project
  through f g P onTcp onUnix (tcp t) s' x e =
      subst (λ r. P (tcp t) r.0 r.1) e (onTcp t (f t).1 (f t).0 refl)
  through f g P onTcp onUnix (unix u) s' x e =
      subst (λ r. P (unix u) r.0 r.1) e (onUnix u (g u).1 (g u).0 refl)

  -- The writing half of a connection takes the bytes that it says, in order, and its flushing and
  -- shutting down write nothing, if that is so of tokio's halves of TCP and of Unix sockets.
  pub write_half-Accepts :
      (t : AsyncPollWrite T) (u : AsyncPollWrite U) (f : T → Text) (g : U → Text)
      → Accepts t f
      → Accepts u g
      → Accepts (write_half t u) (either f g)
  unfolding write_half project
  write_half-Accepts t u f g a b =
      let sent = either f g in
      record {
        takes = λ buf s s' n e.
            through (t.poll_write buf) (u.poll_write buf)
              (λ s x s'.
                (k : ℕ) → x ≡ ready (done k) → (k ≤ length buf) × (sent s' ≡ sent s ++ take k buf))
              (λ s s' x e k h. a.takes buf s s' k (e ∙ ap (λ y. (y, s')) h))
              (λ s s' x e k h. b.takes buf s s' k (e ∙ ap (λ y. (y, s')) h)) s s' (ready (done n)) e
              n refl;
        takes_vectored = λ bufs s s' n e.
            through (t.poll_write_vectored bufs) (u.poll_write_vectored bufs)
              (λ s x s'.
                (k : ℕ)
                → x ≡ ready (done k)
                → (k ≤ length (concat bufs)) × (sent s' ≡ sent s ++ take k (concat bufs)))
              (λ s s' x e k h. a.takes_vectored bufs s s' k (e ∙ ap (λ y. (y, s')) h))
              (λ s s' x e k h. b.takes_vectored bufs s s' k (e ∙ ap (λ y. (y, s')) h)) s s'
              (ready (done n)) e n refl;
        waits = λ buf s s' e.
            through (t.poll_write buf) (u.poll_write buf) (λ s x s'. x ≡ pending → sent s' ≡ sent s)
              (λ s s' x e h. a.waits buf s s' (e ∙ ap (λ y. (y, s')) h))
              (λ s s' x e h. b.waits buf s s' (e ∙ ap (λ y. (y, s')) h)) s s' pending e refl;
        flushes = λ s. elim s as (λ k. sent ((write_half t u).poll_flush k).1 ≡ sent k) [
          | tcp c ↦ a.flushes c
          | unix c ↦ b.flushes c
        ];
        shuts_down = λ s. elim s as (λ k. sent ((write_half t u).poll_shutdown k).1 ≡ sent k) [
          | tcp c ↦ a.shuts_down c
          | unix c ↦ b.shuts_down c
        ];
      }

  -- An unsplit connection writes as its half does.
  pub stream_write-write_half :
      (t : AsyncPollWrite T) (u : AsyncPollWrite U) → stream_write t u ≡ write_half t u
  unfolding stream_write write_half
  stream_write-write_half t u = refl

  -- The reading half of a connection returns the bytes that come next, and no more than there is
  -- room for, if that is so of tokio's halves of TCP and of Unix sockets.
  pub read_half-Fetches :
      (t : AsyncRead T) (u : AsyncRead U) (f : T → Text) (g : U → Text)
      → Fetches t f
      → Fetches u g
      → Fetches (read_half t u) (either f g)
  unfolding read_half project
  read_half-Fetches t u f g a b =
      let coming = either f g in
      record {
        fetches = λ room s s' bytes e.
            through (t.poll_read room) (u.poll_read room)
              (λ s x s'.
                (bs : Text)
                → x ≡ ready (done bs)
                → (length bs ≤ room) × (coming s ≡ bs ++ coming s'))
              (λ s s' x e bs h. a.fetches room s s' bs (e ∙ ap (λ y. (y, s')) h))
              (λ s s' x e bs h. b.fetches room s s' bs (e ∙ ap (λ y. (y, s')) h)) s s'
              (ready (done bytes)) e bytes refl;
        waits = λ room s s' e.
            through (t.poll_read room) (u.poll_read room)
              (λ s x s'. x ≡ pending → coming s' ≡ coming s)
              (λ s s' x e h. a.waits room s s' (e ∙ ap (λ y. (y, s')) h))
              (λ s s' x e h. b.waits room s s' (e ∙ ap (λ y. (y, s')) h)) s s' pending e refl;
      }

  -- An unsplit connection reads as its half does.
  pub stream_read-read_half : (t : AsyncRead T) (u : AsyncRead U) → stream_read t u ≡ read_half t u
  unfolding stream_read read_half
  stream_read-read_half t u = refl
