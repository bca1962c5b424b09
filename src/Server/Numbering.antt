-- ===== src/Server/Numbering.antt =====
-- What the accept loop spawns: a task for each connection, under a number of its own.
use ra_multiplex.Base.{
  ℕ, suc, ◌+◌, ◌≤◌, ◌<◌, ◌≡◌, ◌≢◌, refl, ap, List, [], ◌∷◌, arith, All, length, ok, err, Error, map,
  any, Bool, true, false, if◌then◌else◌,
}
use Prim.Native.Nat.{◌%◌}
use ra_multiplex.Str.Decimal.{usize_max}
use ra_multiplex.Io.{not_connected, IoResult, done, failed}
use ra_multiplex.Server.{Spawned, accept_all, run}

-- Numbers that count up from a first one.
abbrev pub CountUp : ℕ → List ℕ → Type 0
CountUp first [] = Unit
CountUp first (n ∷ ns) = (n ≡ first) × CountUp (suc first) ns

CountUp-le : (first low : ℕ) (ns : List ℕ) → low ≤ first → CountUp first ns → All (λ m. low ≤ m) ns
CountUp-le first low [] l h = tt
CountUp-le first low (n ∷ ns) l h = (omega arith, CountUp-le (suc first) low ns (omega arith) h.1)

wraps_late : (n : ℕ) → n < usize_max → (n + 1) % suc usize_max ≡ suc n
wraps_late n h = omega arith

-- No number stands twice in a list.
abbrev pub IsDistinct : List ℕ → Type 0
IsDistinct [] = Unit
IsDistinct (n ∷ ns) = All (λ m. n ≢ m) ns × IsDistinct ns

All-map : {P Q : ℕ → Type 0} (f : (n : ℕ) → P n → Q n) (ns : List ℕ) → All P ns → All Q ns
All-map f [] h = tt
All-map f (n ∷ ns) h = (f n h.0, All-map f ns h.1)

CountUp-IsDistinct : (first : ℕ) (ns : List ℕ) → CountUp first ns → IsDistinct ns
CountUp-IsDistinct first [] h = tt
CountUp-IsDistinct first (n ∷ ns) h = (
  All-map (λ m l e. omega arith) ns (CountUp-le (suc first) (suc n) ns (omega arith) h.1),
  CountUp-IsDistinct (suc first) ns h.1,
)

module _ {S : Type 0} where
  -- Every error of `accept` but `NotConnected` ends the loop.
  abbrev pub is_fatal : IoResult S → Bool
  is_fatal (done socket) = false
  is_fatal (failed not_connected) = false
  is_fatal (failed kind) = true

  -- The connections that come before the first such error, in order.
  unfoldable pub sockets : List (IoResult S) → List S
  sockets [] = []
  sockets (done socket ∷ events) = socket ∷ sockets events
  sockets (failed not_connected ∷ events) = sockets events
  sockets (failed kind ∷ events) = []

  accept_all-CountUp :
      (counter : ℕ) (events : List (IoResult S))
      → counter + length events ≤ usize_max
      → CountUp counter (map (λ (t : Spawned S). t.client_id) (accept_all counter events).0)
  unfolding accept_all
  accept_all-CountUp counter [] h = tt
  accept_all-CountUp counter (done socket ∷ events) h = (
    refl,
    rw (wraps_late counter (omega arith)) (accept_all-CountUp (suc counter) events (omega arith)),
  )
  accept_all-CountUp counter (failed not_connected ∷ events) h =
      accept_all-CountUp counter events (omega arith)
  accept_all-CountUp counter (failed kind ∷ events) h = tt

  accept_all-sockets :
      (counter : ℕ) (events : List (IoResult S))
      → (map (λ (t : Spawned S). t.socket) (accept_all counter events).0 ≡ sockets events)
        × ((accept_all counter events).1
            ≡ (if any is_fatal events then err Error.accept_failed else ok tt))
  unfolding accept_all sockets any
  accept_all-sockets counter [] = (refl, refl)
  accept_all-sockets counter (done socket ∷ events) =
      let (all, end) = accept_all-sockets ((counter + 1) % suc usize_max) events in
      (ap (◌∷◌ socket) all, end)
  accept_all-sockets counter (failed not_connected ∷ events) = accept_all-sockets counter events
  accept_all-sockets counter (failed kind ∷ events) = (refl, refl)

  -- The server spawns a task for each connection that comes before the first error of `accept` other
  -- than `NotConnected`, on its socket and in order; no two of the tasks get the same number, so long
  -- as the server has accepted at most 2 ^ 64 - 1 times, which `add_client` relies on; and the loop
  -- ends, with an error, exactly if there is such an error.
  pub run_serves :
      (events : List (IoResult S))
      → length events ≤ usize_max
      → (map (λ (t : Spawned S). t.socket) (run events).0 ≡ sockets events)
        × IsDistinct (map (λ (t : Spawned S). t.client_id) (run events).0)
        × ((run events).1 ≡ (if any is_fatal events then err Error.accept_failed else ok tt))
  unfolding run
  run_serves events h =
      let (all, end) = accept_all-sockets 0 events in
      (
        all,
        CountUp-IsDistinct 0 (map (λ (t : Spawned S). t.client_id) (accept_all 0 events).0)
            (accept_all-CountUp 0 events (omega arith)),
        end,
      )
