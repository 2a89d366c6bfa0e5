-- ===== src/Router/Control/Tests.antt =====
-- The theorem about retried control messages at a concrete input, and a run of the code.
use go_libp2p_pubsub.Prelude.{
  ◌≡◌, refl, false, not, [], ◌∷◌, some, lookup, lookup_or, has, member, keep,
}
use go_libp2p_pubsub.Router.Env.{ControlPrune, Router}
use go_libp2p_pubsub.Router.Example.{router}
use go_libp2p_pubsub.Router.Graft.Admission.{mesh_of}
use go_libp2p_pubsub.Router.Control.{
  control_or_empty, empty_control, push_control, enqueue_gossip, take_pending,
}
use go_libp2p_pubsub.Router.Control.Retries.{take_pending_lem}

abbrev prune_five : ControlPrune
prune_five = record {
  topic_id = 5;
  backoff = 60;
  peers = record { peer_id = 9; signed_peer_record = some 90 } ∷ [];
}

-- A GRAFT of topic 1, whose mesh holds peer 2, and one of topic 5, which is stale; a PRUNE of topic 5
-- with a backoff and a peer, and one of topic 1, which is stale.
abbrev waiting : Router
unfolding push_control enqueue_gossip
waiting =
    enqueue_gossip
      (push_control router 2 (record empty_control {
        graft = 1 ∷ 5 ∷ [];
        prune = prune_five ∷ record prune_five { topic_id = 1 } ∷ [];
        iwant = (30 ∷ []) ∷ [];
      }))
      2 (record { topic_id = 1; message_ids = 30 ∷ [] })

only_current_goes :
    (take_pending waiting 2).0
    ≡ some (record empty_control {
      ihave = record { topic_id = 1; message_ids = 30 ∷ [] } ∷ [];
      graft = 1 ∷ [];
      prune = prune_five ∷ [];
    })
unfolding take_pending push_control enqueue_gossip
only_current_goes = refl

take_pending_lem_example :
    ((control_or_empty (take_pending waiting 2).0).graft
      ≡ keep
          (λ t. member 2 (mesh_of waiting t))
          (control_or_empty (lookup 2 waiting.control)).graft)
    × ((control_or_empty (take_pending waiting 2).0).prune
        ≡ keep
            (λ (prune : ControlPrune). not (member 2 (mesh_of waiting prune.topic_id)))
            (control_or_empty (lookup 2 waiting.control)).prune)
    × ((control_or_empty (take_pending waiting 2).0).ihave ≡ lookup_or [] 2 waiting.gossip)
    × (has 2 (take_pending waiting 2).1.control ≡ false)
    × (has 2 (take_pending waiting 2).1.gossip ≡ false)
take_pending_lem_example = take_pending_lem waiting 2
