-- ===== src/GossipTracer/Tests.antt =====
-- The theorems about the promises at concrete inputs, and runs of the code.
use go_libp2p_pubsub.Prelude.{
  ◌≡◌, refl, List, [], ◌∷◌, none, some, is_some, lookup_or, keys, if◌then◌else◌,
}
use go_libp2p_pubsub.GossipTracer.{
  GossipTracer, new_gossip_tracer, add_promise, get_broken_promises, deliver_message, throttle_peer,
  is_expired, validate_message, reject_message,
}
use go_libp2p_pubsub.GossipTracer.Index.{promise, indexed}
use go_libp2p_pubsub.GossipTracer.Broken.{broken_count, get_broken_promises_lem}
use go_libp2p_pubsub.GossipTracer.History.{Op, promises_from, step, run, tracer-consistent}

program : Unit {0}
unfolding new_gossip_tracer add_promise get_broken_promises deliver_message throttle_peer
    validate_message reject_message step run
program = tt

-- Peer 1 promises message 5, peer 2 messages 5 and 6.
abbrev three : GossipTracer
three = record {
  follow_up_time = 3;
  promises = (5, (1, 13) ∷ (2, 14) ∷ []) ∷ (6, (2, 15) ∷ []) ∷ [];
  peer_promises = (1, 5 ∷ []) ∷ (2, 5 ∷ 6 ∷ []) ∷ [];
}

abbrev ops : List Op
ops =
    promises_from 10 0 1 (5 ∷ [])
    ∷ promises_from 11 1 2 (4 ∷ 5 ∷ [])
    ∷ promises_from 12 0 2 (6 ∷ [])
    ∷ []

run-three : run (new_gossip_tracer 3) ops ≡ some three
unfolding program
run-three = refl

empty_list_panics : add_promise 0 0 three 1 [] ≡ none
unfolding program
empty_list_panics = refl

broken_by_two : (get_broken_promises 16 three).res ≡ (1, 1) ∷ (2, 2) ∷ []
unfolding program is_expired
broken_by_two = refl

tracer-consistent_example : is_some (promise three 5 2) ≡ indexed three 5 2
tracer-consistent_example = tracer-consistent 3 ops three 5 2 run-three

get_broken_promises_lem_example :
    (promise (get_broken_promises 14 three).tracer 5 1
      ≡ (if is_expired 14 (promise three 5 1) then none else promise three 5 1))
    × (lookup_or 0 1 (get_broken_promises 14 three).res
        ≡ broken_count 14 1 three (keys three.promises))
get_broken_promises_lem_example = get_broken_promises_lem 14 three 5 1 (refl, (refl, tt))
