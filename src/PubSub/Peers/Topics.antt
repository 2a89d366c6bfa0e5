-- ===== src/PubSub/Peers/Topics.antt =====
-- A peer that is cleared from the topics is in none of them, and the other peers stay.
use go_libp2p_pubsub.Prelude.{
  ℕ, ◌≡◌, refl, ap, Bool, true, false, not, ◌&&◌, List, [], ◌∷◌, Map, lookup_or, lookup-delete,
  delete, has, length, member, Bool-cases, inl, inr, arith, ==_iff, member-remove, ◌==◌,
}
use go_libp2p_pubsub.Router.Graft.Admission.{mesh_of}
use go_libp2p_pubsub.Router.Streams.{remove_everywhere, on_closed_outbound_stream}
use go_libp2p_pubsub.PubSub.{PubSub, PeerTopicState}
use go_libp2p_pubsub.PubSub.Peers.{
  clear_peer, notify_leaves, clear_peer_from_topics_state, forget_peer,
}

-- Whether a peer is in a topic.
abbrev pub in_topic : ℕ → ℕ → Map (Map PeerTopicState) → Bool
in_topic k t topics = has k (lookup_or [] t topics)

pub has-empty : (k : ℕ) (m : Map PeerTopicState) → (length m == 0) ≡ true → has k m ≡ false
has-empty k [] h = refl
has-empty k (e ∷ m) h = absurd (ground (arith, h))

pub in_topic-clear_peer :
    (pid k t : ℕ) (topics : Map (Map PeerTopicState))
    → in_topic k t (clear_peer pid topics).0 ≡ in_topic k t topics && not (pid == k)
unfolding clear_peer
in_topic-clear_peer pid k t [] = refl
in_topic-clear_peer pid k t ((u, tmap) ∷ topics) =
    let (rest, left) = clear_peer pid topics in
    let ih = in_topic-clear_peer pid k t topics in
    let gone = lookup-delete pid k tmap in
    elim (Bool-cases (has pid tmap)) [
      | inr outside ↦
          rw (outside, clear_peer)
            (elim (Bool-cases (pid == k)) [
              | inl same ↦
                  ground (arith, ih, outside, ap (λ j. has j tmap) ((==_iff pid k).0 same), same)
              | inr other ↦ ground (arith, ih, other)
            ])
      | inl inside ↦ elim (Bool-cases (length (delete pid tmap) == 0)) [
        | inl empty ↦
            rw (inside, clear_peer)
              (rw empty (
                ground
                  (arith, ih, gone, lookup-delete u t rest, has-empty k (delete pid tmap) empty)))
        | inr more ↦ rw (inside, clear_peer) (rw more (ground (arith, ih, gone)))
      ]
    ]

lookup-remove_everywhere :
    (pid k t : ℕ) (m : Map (List ℕ))
    → member k (lookup_or [] t (remove_everywhere pid m))
      ≡ member k (lookup_or [] t m) && not (pid == k)
unfolding remove_everywhere
lookup-remove_everywhere pid k t [] = refl
lookup-remove_everywhere pid k t ((u, ps) ∷ m) =
    ground (arith, lookup-remove_everywhere pid k t m, member-remove pid k ps)

-- Notifications change nothing that is read here.
notify_leaves-keeps :
    (p : PubSub) (ts : List ℕ) (pid : ℕ)
    → ((notify_leaves p ts pid).topics ≡ p.topics)
      × ((notify_leaves p ts pid).peers ≡ p.peers)
      × ((notify_leaves p ts pid).rt ≡ p.rt)
      × ((notify_leaves p ts pid).blacklist ≡ p.blacklist)
      × ((notify_leaves p ts pid).peer_outbound_queue_size ≡ p.peer_outbound_queue_size)
notify_leaves-keeps p [] pid = (refl, refl, refl, refl, refl)
notify_leaves-keeps p (t ∷ ts) pid =
    let (a, b, c, d, e) = notify_leaves-keeps p ts pid in
    elim (Bool-cases (has t (notify_leaves p ts pid).my_topics)) [
      | inl known ↦ rw known (a, b, c, d, e)
      | inr unknown ↦ rw unknown (a, b, c, d, e)
    ]

pub peers-forget_peer :
    (p : PubSub) (pid : ℕ)
    → ((forget_peer p pid).peers ≡ delete pid p.peers)
      × ((forget_peer p pid).blacklist ≡ p.blacklist)
unfolding forget_peer clear_peer_from_topics_state
peers-forget_peer p pid =
    let (topics, left) = clear_peer pid p.topics in
    let (_, b, _, d, _) =
      notify_leaves-keeps (record p { peers = delete pid p.peers; topics = topics }) left pid in
    (b, d)

-- A peer that is forgotten is in no topic and in no mesh, and every other peer is in those in which
-- it was.
pub forget_peer-clears :
    (p : PubSub) (pid k t : ℕ)
    → (in_topic k t (forget_peer p pid).topics ≡ in_topic k t p.topics && not (pid == k))
      × (member k (mesh_of (forget_peer p pid).rt t) ≡ member k (mesh_of p.rt t) && not (pid == k))
unfolding forget_peer clear_peer_from_topics_state on_closed_outbound_stream
forget_peer-clears p pid k t =
    let (topics, left) = clear_peer pid p.topics in
    let (a, _, c, _, _) =
      notify_leaves-keeps (record p { peers = delete pid p.peers; topics = topics }) left pid in
    (
      rw (a, forget_peer, clear_peer_from_topics_state) (in_topic-clear_peer pid k t p.topics),
      rw (c, forget_peer, clear_peer_from_topics_state)
          (lookup-remove_everywhere pid k t p.rt.mesh),
    )
