-- ===== src/TimeCache/Tests.antt =====
-- The theorems about the caches of seen ids at concrete inputs, and runs of the code.
use go_libp2p_pubsub.Prelude.{◌≡◌, refl, inr, true, false, List, [], ◌∷◌, arith}
use go_libp2p_pubsub.TimeCache.{
  TimeCache, new_first_seen_cache, new_last_seen_cache, add_id, has_id, sweep,
}
use go_libp2p_pubsub.TimeCache.Window.{
  Op, adds, finds, sweeps, step, run, first_seen-window, last_seen-window,
}

program : Unit {0}
unfolding new_first_seen_cache new_last_seen_cache add_id has_id sweep step run
program = tt

abbrev calls : List Op
calls = adds 12 5 ∷ finds 14 4 ∷ sweeps 20 ∷ []

-- At a ttl of ten, an id added at 10 survives the sweep at 20 and not the one at 21.
survives : (has_id 30 (run (add_id 10 (new_first_seen_cache 10) 4).1 calls) 4).0 ≡ true
unfolding program
survives = refl

first_seen-window_example :
    ((add_id 30 (run (add_id 10 (new_first_seen_cache 10) 4).1 calls) 4).0 ≡ false)
    × ((has_id 30 (run (add_id 10 (new_first_seen_cache 10) 4).1 calls) 4).0 ≡ true)
    × ((has_id 30 (sweep 21 (run (add_id 10 (new_first_seen_cache 10) 4).1 calls)) 4).0 ≡ false)
first_seen-window_example =
    first_seen-window (new_first_seen_cache 10) calls 4 10 30 21 (unfold program in refl)
      (unfold program in refl) (unfold program in omega arith) (unfold program in omega arith)

-- The lookup at 14 keeps the id until 24.
found : TimeCache
found = (has_id 14 (add_id 10 (new_last_seen_cache 10) 4).1 4).1

last_seen-window_example :
    ((add_id 30 (run found (adds 15 5 ∷ sweeps 24 ∷ [])) 4).0 ≡ false)
    × ((has_id 30 (run found (adds 15 5 ∷ sweeps 24 ∷ [])) 4).0 ≡ true)
last_seen-window_example =
    last_seen-window (add_id 10 (new_last_seen_cache 10) 4).1 found (adds 15 5 ∷ sweeps 24 ∷ []) 4
      14 30 (unfold program in refl) (unfold program found in inr refl)
      (unfold program in omega arith) (omega arith)
