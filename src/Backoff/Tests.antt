-- ===== src/Backoff/Tests.antt =====
-- The theorems about the backoff at concrete inputs, and runs of the code.
use Prim.Native.Nat.{min}
use go_libp2p_pubsub.Prelude.{ℕ, ◌*◌, ◌≤◌, ◌≡◌, refl, List, [], ◌∷◌, some, arith}
use go_libp2p_pubsub.Backoff.{
  Backoff, BackoffHistory, new_backoff, update_and_get, cleanup, millisecond, second,
  max_backoff_delay, min_backoff_delay, max_backoff_attempts,
}
use go_libp2p_pubsub.Backoff.Bounds.{Inv, Op, tries, cleans, step, run, delay-bounded, delay-grows}
use go_libp2p_pubsub.Backoff.Attempts.{granted, granted-exact}

program : Unit {0}
unfolding new_backoff update_and_get cleanup step run granted
program = tt

abbrev fresh : Backoff
fresh = record { info = []; ct = 1000; ci = 60 * second; max_attempts = max_backoff_attempts }

abbrev ops : List Op
ops = tries 0 0 7 3 (omega arith) ∷ tries 1 1 7 3 (omega arith) ∷ cleans 5 ∷ []

third_delay : (update_and_get 2 2 50 (run fresh ops) 3).0 ≡ some (250 * millisecond)
unfolding program
third_delay = refl

delay-bounded_example : 250 * millisecond ≤ max_backoff_delay
delay-bounded_example =
    delay-bounded 1000 (60 * second) 4 ops 2 2 50 3 (omega arith) (unfold program in refl)

abbrev tried : BackoffHistory
tried = record { duration = 6 * second; last_tried = 9; attempts = 2 }

abbrev known : Backoff
known = record fresh { info = (3, tried) ∷ [] }

known-Inv : Inv known
known-Inv = record { fair = λ id h e. ground arith }

delay-grows_example :
    (6 * second ≤ 10 * second)
    × (min_backoff_delay ≤ 10 * second)
    × (min (2 * (6 * second)) max_backoff_delay ≤ 10 * second)
delay-grows_example =
    delay-grows 10 11 0 3 known tried (omega arith) known-Inv refl (omega arith)
      (unfold program in refl)

abbrev calls : List (ℕ × ℕ × ℕ)
calls = (0, 0, 1) ∷ (1, 1, 2) ∷ (2, 2, 3) ∷ (3, 3, 4) ∷ (4, 4, 5) ∷ (5, 5, 6) ∷ []

granted-exact_example : granted calls fresh 3 ≡ 4
granted-exact_example = granted-exact calls fresh 3 0 (omega arith) refl (omega arith)
