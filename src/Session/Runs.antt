-- ===== src/Session/Runs.antt =====
-- Runs of a session put one behind the other, for the proofs about whole tasks.
use ra_multiplex.Base.{List, [], ◌++◌, append_assoc, append-nil, ◌≡◌, sym, ap, subst}
use ra_multiplex.Lsp.Json.{Json}
use ra_multiplex.Effect.{Effect}
use ra_multiplex.Instance.{Instance}
use ra_multiplex.Session.Steps.{Session, extend, Reach, here, next}

module _ {V : Type 0} where
  -- To send `es` and then `fs` is to send both in this order.
  pub extend-extend :
      (s : Session V) (i j : Instance V) (es fs : List (Effect V))
      → extend (extend s i es) j fs ≡ extend s j (es ++ fs)
  extend-extend s i j es fs = ap (λ l. record { instance = j; log = l }) (append_assoc s.log es fs)

module _ {V : Type 0} ⦃json : Json V⦄ where
  pub Reach_trans : {r s t : Session V} → Reach r s → Reach s t → Reach r t
  Reach_trans a here = a
  Reach_trans a (next b st) = next (Reach_trans a b) st

  -- A task that does nothing makes the run without steps.
  pub Reach-unsent : (s : Session V) → Reach s (extend s s.instance [])
  Reach-unsent s =
      subst (Reach s) (ap (λ l. record { instance = s.instance; log = l }) (sym (append-nil s.log)))
        here
