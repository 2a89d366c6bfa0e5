-- ===== src/PubSub/Incoming/Subscribers.antt =====
-- The peers of each topic after the subscriptions of an RPC.
use go_libp2p_pubsub.Prelude.{
  ℕ, ◌≡◌, refl, Bool, true, false, not, ◌&&◌, ◌||◌, List, [], ◌∷◌, Map, lookup_or, insert,
  lookup-insert, lookup-delete, delete, has, length, Bool-cases, inl, inr, arith, ◌==◌,
  if◌then◌else◌, ==_iff, ==_self, ap, ◌∙◌,
}
use go_libp2p_pubsub.SubscriptionFilter.{SubOpts}
use go_libp2p_pubsub.PubSub.{PubSub, PeerTopicState}
use go_libp2p_pubsub.PubSub.Peers.{notify}
use go_libp2p_pubsub.PubSub.Peers.Topics.{in_topic, has-empty}
use go_libp2p_pubsub.PubSub.Incoming.{record_subscription, record_subscriptions}

topics-notify : (p : PubSub) (t pid : ℕ) (joins : Bool) → (notify p t pid joins).topics ≡ p.topics
topics-notify p t pid joins = elim (Bool-cases (has t p.my_topics)) [
  | inl known ↦ rw known refl
  | inr unknown ↦ rw unknown refl
]

in_topic-insert :
    (from k u t : ℕ) (state : PeerTopicState) (topics : Map (Map PeerTopicState))
    → in_topic k t (insert u (insert from state (lookup_or [] u topics)) topics)
      ≡ in_topic k t topics || (from == k && u == t)
in_topic-insert from k u t state topics = elim (Bool-cases (u == t)) [
  | inl same ↦ rw (← (==_iff u t).0 same) (
      ground (
        arith,
        lookup-insert u u (insert from state (lookup_or [] u topics)) topics,
        lookup-insert from k state (lookup_or [] u topics),
      ))
  | inr other ↦
      ground (arith, other, lookup-insert u t (insert from state (lookup_or [] u topics)) topics)
]

in_topic-leave :
    (from k u t : ℕ) (topics : Map (Map PeerTopicState))
    → in_topic k t (
        if length (delete from (lookup_or [] u topics)) == 0
        then delete u topics
        else insert u (delete from (lookup_or [] u topics)) topics)
      ≡ in_topic k t topics && not (from == k && u == t)
in_topic-leave from k u t topics =
    let tmap' = delete from (lookup_or [] u topics) in
    elim (Bool-cases (u == t)) [
      | inl same ↦ rw (← (==_iff u t).0 same) (
          ground (
            arith,
            lookup-insert u u tmap' topics,
            lookup-delete u u topics,
            lookup-delete from k (lookup_or [] u topics),
            has-empty k tmap',
          ))
      | inr other ↦ ground (arith, other, lookup-insert u t tmap' topics, lookup-delete u t topics)
    ]

-- A peer that is, or is not, in a topic before.
in_topic-same :
    (from k u t : ℕ) (topics : Map (Map PeerTopicState))
    → (from == k && u == t) ≡ true
    → in_topic k t topics ≡ has from (lookup_or [] u topics)
in_topic-same from k u t topics h =
    rw (← (==_iff u t).0 (ground (arith, h)), ← (==_iff from k).0 (ground (arith, h))) refl

in_topic-record_subscription :
    (p : PubSub) (from k t : ℕ) (sub : SubOpts)
    → in_topic k t (record_subscription p from sub).topics
      ≡ (if from == k && sub.topicid == t then sub.subscribe else in_topic k t p.topics)
unfolding record_subscription
in_topic-record_subscription p from k t sub =
    let u = sub.topicid in
    let tmap = lookup_or [] u p.topics in
    let state : PeerTopicState = record {
      requests_partial = sub.requests_partial;
      supports_partial = sub.requests_partial || sub.supports_sending_partial;
    } in
    let joined = record p { topics = insert u (insert from state tmap) p.topics } in
    let left = record p {
      topics =
          if length (delete from tmap) == 0
          then delete u p.topics
          else insert u (delete from tmap) p.topics;
    } in
    let after_joining = in_topic-insert from k u t state p.topics in
    let after_leaving = in_topic-leave from k u t p.topics in
    elim (Bool-cases sub.subscribe) [
      | inl joins ↦ elim (Bool-cases (has from tmap)) [
        | inl again ↦ rw (joins, record_subscription) (rw again (ground (arith, after_joining)))
        | inr first ↦
            rw (joins, record_subscription)
              (rw (first, topics-notify joined u from true) (ground (arith, after_joining)))
      ]
      | inr leaves ↦ elim (Bool-cases (has from tmap)) [
        | inl there ↦
            rw (leaves, record_subscription)
              (rw (there, topics-notify left u from false) (ground (arith, after_leaving)))
        | inr absent ↦
            rw (leaves, record_subscription)
              (rw absent (ground (arith, absent, in_topic-same from k u t p.topics)))
      ]
    ]

-- What the last of the subscriptions to a topic says, or `before` if there is none.
abbrev pub last_word : ℕ → List SubOpts → Bool → Bool
last_word t [] before = before
last_word t (sub ∷ subs) before =
    last_word t subs (if sub.topicid == t then sub.subscribe else before)

-- After the subscriptions of an RPC its peer is in a topic exactly if the last of them about the topic
-- subscribes, or if there is none and it was in the topic before; the other peers are where they
-- were.
pub record_subscriptions-last :
    (p : PubSub) (from : ℕ) (subs : List SubOpts)
    → ((t : ℕ)
        → in_topic from t (record_subscriptions p from subs).topics
          ≡ last_word t subs (in_topic from t p.topics))
      × ((k t : ℕ)
          → (from == k) ≡ false
          → in_topic k t (record_subscriptions p from subs).topics ≡ in_topic k t p.topics)
unfolding record_subscriptions
record_subscriptions-last p from [] = (λ t. refl, λ k t h. refl)
record_subscriptions-last p from (sub ∷ subs) =
    let p1 = record_subscription p from sub in
    let (mine, others) = record_subscriptions-last p1 from subs in
    (
      λ t.
          mine t
          ∙ ap (last_word t subs)
              (ground (arith, in_topic-record_subscription p from from t sub, ==_self from)),
      λ k t h. ground (arith, others k t h, in_topic-record_subscription p from k t sub, h),
    )
