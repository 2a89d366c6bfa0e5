-- ===== src/RpcQueue/Tests.antt =====
-- The theorems about the outgoing queue at concrete inputs, and runs of the code.
use go_libp2p_pubsub.Prelude.{ℕ, ◌≡◌, refl, true, false, [], ◌∷◌, some}
use go_libp2p_pubsub.RpcQueue.{RpcQueue, done, err, full, len, push, pop}
use go_libp2p_pubsub.RpcQueue.Blocking.{System, start, run_push, run_pop}

-- One ordinary message and one urgent one, in a queue of three.
abbrev two : RpcQueue ℕ
two = record { queue = record { normal = 7 ∷ []; priority = 9 ∷ [] }; closed = false; max_size = 3 }

program : Unit {0}
unfolding push pop len run_push run_pop start
program = tt

pop_urgent :
    pop two false ≡ done (some 9, record two { queue = record { normal = 7 ∷ []; priority = [] } })
unfolding program
pop_urgent = refl

push_full : push (record two { max_size = 2 }) 4 true false ≡ err full
unfolding program
push_full = refl

-- A popper parks on an empty queue, a push wakes it, and it runs.
served : System ℕ
unfolding program
served =
    run_pop false (record (run_push 5 false false (run_pop false (start 1))) { woken_poppers = 0 })
