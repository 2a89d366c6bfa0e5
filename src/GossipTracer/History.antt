-- ===== src/GossipTracer/History.antt =====
-- The tracer over any sequence of its calls.
use go_libp2p_pubsub.Prelude.{
  ℕ, ◌≡◌, refl, inl, inr, List, [], ◌∷◌, Option, none, some, Option-cases, get_elem?, is_some, ◌==◌,
  arith, if◌then◌else◌, lookup,
}
use go_libp2p_pubsub.GossipTracer.{
  GossipTracer, RejectReason, missing_signature, invalid_signature, new_gossip_tracer, add_promise,
  get_broken_promises, deliver_message, validate_message, reject_message, throttle_peer,
}
use go_libp2p_pubsub.GossipTracer.Index.{
  promise, indexed, IsConsistent, add_one_promise-IsConsistent, fulfill_promise-IsConsistent,
  throttle_peer-IsConsistent, lookup-drop_promises,
}
use go_libp2p_pubsub.GossipTracer.Broken.{get_broken_promises-IsConsistent}

-- A call with its time and its random index. One that panics ends the program.
pub data Op : Type 0 where
  promises_from : (now idx p : ℕ) → List ℕ → Op
  collects : ℕ → Op
  delivers validates throttles : ℕ → Op
  rejects : RejectReason → ℕ → Op

unfoldable pub step : GossipTracer → Op → Option GossipTracer
step gt (promises_from now idx p mids) = add_promise now idx gt p mids
step gt (collects now) = some (get_broken_promises now gt).tracer
step gt (delivers mid) = some (deliver_message gt mid)
step gt (validates mid) = some (validate_message gt mid)
step gt (throttles p) = some (throttle_peer gt p)
step gt (rejects reason mid) = some (reject_message reason gt mid)

unfoldable pub run : GossipTracer → List Op → Option GossipTracer
run gt [] = some gt
run gt (op ∷ ops) = elim (step gt op) [ none ↦ none | some gt' ↦ run gt' ops ]

reject_message-IsConsistent :
    (reason : RejectReason) (gt : GossipTracer) (mid : ℕ)
    → IsConsistent gt
    → IsConsistent (reject_message reason gt mid)
unfolding reject_message
reject_message-IsConsistent missing_signature gt mid c = c
reject_message-IsConsistent invalid_signature gt mid c = c
reject_message-IsConsistent _ gt mid c = fulfill_promise-IsConsistent gt mid c

step-IsConsistent :
    (op : Op) (gt gt' : GossipTracer) → IsConsistent gt → step gt op ≡ some gt' → IsConsistent gt'
unfolding step add_promise deliver_message validate_message
step-IsConsistent (promises_from now idx p mids) gt gt' c e mid q =
    elim (Option-cases (get_elem? mids idx)) [
      | inl miss ↦ absurd (ground arith)
      | inr (m, hit) ↦ ground (arith, add_one_promise-IsConsistent now p m gt c mid q)
    ]
step-IsConsistent (collects now) gt gt' c e mid q =
    ground (arith, get_broken_promises-IsConsistent now gt c mid q)
step-IsConsistent (delivers m) gt gt' c e mid q =
    ground (arith, fulfill_promise-IsConsistent gt m c mid q)
step-IsConsistent (validates m) gt gt' c e mid q =
    ground (arith, fulfill_promise-IsConsistent gt m c mid q)
step-IsConsistent (throttles p) gt gt' c e mid q =
    ground (arith, throttle_peer-IsConsistent gt p c mid q)
step-IsConsistent (rejects reason m) gt gt' c e mid q =
    ground (arith, reject_message-IsConsistent reason gt m c mid q)

run-IsConsistent :
    (ops : List Op) (gt gt' : GossipTracer)
    → IsConsistent gt
    → run gt ops ≡ some gt'
    → IsConsistent gt'
unfolding run
run-IsConsistent [] gt gt' c e mid q = ground (arith, c mid q)
run-IsConsistent (op ∷ ops) gt gt' c e mid q = elim (Option-cases (step gt op)) [
  | inl miss ↦ absurd (ground arith)
  | inr (gt1, hit) ↦
      run-IsConsistent ops gt1 gt' (step-IsConsistent op gt gt1 c hit) (ground arith) mid q
]

-- After any calls that a new tracer sees, whatever their times and random choices, a peer's promise
-- of a message is on record exactly if the index by peer lists it.
pub tracer-consistent :
    (follow_up_time : ℕ) (ops : List Op) (gt : GossipTracer) (mid p : ℕ)
    → run (new_gossip_tracer follow_up_time) ops ≡ some gt
    → is_some (promise gt mid p) ≡ indexed gt mid p
unfolding new_gossip_tracer
tracer-consistent follow_up_time ops gt mid p e =
    run-IsConsistent ops (new_gossip_tracer follow_up_time) gt (λ m q. refl) e mid p

-- Throttling a peer voids all its promises and no other's, where the two records agree.
pub promise-throttle_peer :
    (gt : GossipTracer) (p mid q : ℕ)
    → IsConsistent gt
    → promise (throttle_peer gt p) mid q ≡ (if p == q then none else promise gt mid q)
unfolding throttle_peer
promise-throttle_peer gt p mid q c = elim (Option-cases (lookup p gt.peer_promises)) [
  | inl miss ↦ ground (arith, c mid q)
  | inr (mids, hit) ↦ ground (arith, c mid q, lookup-drop_promises p mids mid q gt.promises)
]
