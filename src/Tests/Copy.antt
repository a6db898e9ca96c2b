-- ===== src/Tests/Copy.antt =====
-- A file of three bytes, whose copy fails after two.
use cilium_cli.Prelude.{◌≡◌, refl, ℕ, zero, suc, List, [], ◌∷◌, drop, pos, inr, arith}
use cilium_cli.Copy.{Tail, Event, received, closed, failed, new_pipe, read, finished, copy_from_pod}
use cilium_cli.Copy.Delivery.{AllPossible, Ends, copy_from_pod-Ends}
use cilium_cli.Copy.Progress.{copy_from_pod-finishes}

from : ℕ → List ℕ → List ℕ
from zero bytes = bytes
from (suc n) bytes = drop n bytes

tail : Tail
unfolding from
tail = record { from = from; from_zero = λ bytes. refl; from_suc = λ n bytes. refl }

abbrev file : List ℕ
file = 7 ∷ 8 ∷ 9 ∷ []

abbrev events : List Event
events = received 2 ∷ failed ∷ received 1 ∷ closed ∷ closed ∷ []

possible : AllPossible tail file (pos 1) events (new_pipe tail file (pos 1))
unfolding tail from read
possible = (omega arith, (tt, (omega arith, (refl, (refl, tt)))))

copy_from_pod-Ends_example :
    (out : List ℕ) × ((copy_from_pod tail file (pos 1) events (1 ∷ [])).0 ≡ 1 ∷ out)
    × Ends tail file (pos 1) out (copy_from_pod tail file (pos 1) events (1 ∷ [])).1
copy_from_pod-Ends_example = copy_from_pod-Ends tail file (pos 1) events (1 ∷ []) possible

copy_from_pod-finishes_example :
    copy_from_pod tail file (pos 1) events (1 ∷ []) ≡ (1 ∷ 7 ∷ 8 ∷ 9 ∷ [], finished)
copy_from_pod-finishes_example =
    copy_from_pod-finishes tail file (pos 1) events (1 ∷ []) possible
      (omega arith, (omega arith, tt)) (inr (1, refl, omega arith)) (omega arith)
