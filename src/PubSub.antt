-- ===== src/PubSub.antt =====
-- pubsub.go: the state of `PubSub` and its subscriptions, relays and topics, with what they announce
-- to the peers. The router is that of gossipsub.go. A handler gives `none` if it panics, and what it
-- only tells the user or the discovery service is left out.
pub mod Peers
pub mod Incoming
pub mod Announce
pub mod Interest
pub mod Tests
use go_libp2p_pubsub.Prelude.{
  ℕ, ◌+◌, ◌-◌, Bool, true, false, not, ◌&&◌, ◌||◌, List, [], ◌∷◌, ◌++◌, Option, none, some, Map,
  map, lookup, lookup_or, insert, delete, has, keys, length, member, add, remove, ltb, ◌==◌,
  if◌then◌else◌,
}
use go_libp2p_pubsub.Rpc.{Rpc, rpc_with_subs}
use go_libp2p_pubsub.RpcQueue.{RpcQueue, Outcome, done, err, panic, wait, push}
use go_libp2p_pubsub.Backoff.{Backoff}
use go_libp2p_pubsub.Blacklist.{Blacklist}
use go_libp2p_pubsub.SubscriptionFilter.{SubOpts}
use go_libp2p_pubsub.Validation.{Caches}
use go_libp2p_pubsub.Router.Env.{Params, Scores, Router, Env}
use go_libp2p_pubsub.Router.Membership.{join, leave}

-- `Topic`: `handle` is the pointer.
pub record Topic : Type 0 where
  pub handle : ℕ
  pub fanout_only : Bool
  pub request_partial_messages : Bool
  pub supports_partial_messages : Bool
  pub evt_handlers : ℕ

pub record PeerTopicState : Type 0 where
  pub requests_partial : Bool
  pub supports_partial : Bool

-- `my_subs` holds the pointers of the subscriptions of each topic, `retries` the announcements that
-- wait for `announceRetry`, and `events` the notifications of peers that join or leave a topic.
pub record PubSub : Type 0 where
  pub my_subs : Map (List ℕ)
  pub my_relays : Map ℕ
  pub my_topics : Map Topic
  pub topics : Map (Map PeerTopicState)
  pub peers : Map (RpcQueue Rpc)
  pub peer_outbound_queue_size : ℕ
  pub rt : Router
  pub blacklist : Blacklist
  pub new_peers_pend : List ℕ
  pub peer_dead_pend : List ℕ
  pub dead_peer_backoff : Backoff
  pub caches : Caches
  pub retries : List (ℕ × ℕ × Bool)
  pub events : List (ℕ × ℕ × Bool)

-- The keys of each topic's map.
abbrev pub topic_peers : Map (Map PeerTopicState) → Map (List ℕ)
topic_peers [] = []
topic_peers ((t, tmap) ∷ rest) = (t, keys tmap) ∷ topic_peers rest

-- What the announcement of a topic says.
unfoldable pub announcement : PubSub → ℕ → Bool → SubOpts
announcement p topic sub =
    let plain : SubOpts = record {
      subscribe = sub;
      topicid = topic;
      requests_partial = false;
      supports_sending_partial = false;
    } in
    elim (lookup topic p.my_topics) [
      | none ↦ plain
      | some t ↦ record plain {
        requests_partial = sub && t.request_partial_messages;
        supports_sending_partial = sub && t.supports_partial_messages;
      }
    ]

-- The loop over the peers' queues: the queues, and the peers whose queue was full.
unfoldable pub announce_all : Rpc → Map (RpcQueue Rpc) → Option (Map (RpcQueue Rpc) × List ℕ)
announce_all out [] = some ([], [])
announce_all out ((pid, q) ∷ peers) = elim (announce_all out peers) [
  | none ↦ none
  | some (rest, failed) ↦ elim (push q out false false) [
    | done q' ↦ some ((pid, q') ∷ rest, failed)
    | err e ↦ some ((pid, q) ∷ rest, pid ∷ failed)
    | panic ↦ none
    | wait ↦ none
  ]
]

unfoldable pub announce : PubSub → ℕ → Bool → Option PubSub
unfolding announcement announce_all
announce p topic sub = elim (announce_all (rpc_with_subs (announcement p topic sub)) p.peers) [
  | none ↦ none
  | some (peers, failed) ↦
      some
        (record p { peers = peers; retries = map (λ pid. (pid, topic, sub)) failed ++ p.retries })
]

-- `announceRetry` after its sleep, for one entry that is taken out of `retries`.
unfoldable pub announce_retry : PubSub → ℕ → ℕ → Bool → Option PubSub
unfolding announcement
announce_retry p pid topic sub =
    let ok = has topic p.my_subs || has topic p.my_relays in
    if (ok && sub) || (not ok && not sub)
    then elim (lookup pid p.peers) [
      | none ↦ some p
      | some q ↦ elim (push q (rpc_with_subs (announcement p topic sub)) false false) [
        | done q' ↦ some (record p { peers = insert pid q' p.peers })
        | err e ↦ some (record p { retries = (pid, topic, sub) ∷ p.retries })
        | panic ↦ none
        | wait ↦ none
      ]
    ]
    else some p

abbrev pub is_fanout_only : PubSub → ℕ → Bool
is_fanout_only p topic = elim (lookup topic p.my_topics) [ none ↦ false | some t ↦ t.fanout_only ]

module _ (s : Scores) where
  -- What the router sees of the state of `PubSub`.
  abbrev pub seen_by_router : PubSub → Env s → Env s
  seen_by_router p env = record env { topics = topic_peers p.topics }

  -- `announce` and then `rt.Join` or `rt.Leave`.
  unfoldable pub start_interest : Params → Env s → PubSub → ℕ → Option PubSub
  unfolding announce
  start_interest params env p topic = elim (announce p topic true) [
    | none ↦ none
    | some p' ↦ some (record p' { rt = (join s params (seen_by_router p' env) p'.rt topic).1 })
  ]

  unfoldable pub stop_interest : Params → Env s → PubSub → ℕ → Option PubSub
  unfolding announce
  stop_interest params env p topic = elim (announce p topic false) [
    | none ↦ none
    | some p' ↦ some (record p' { rt = (leave s params (seen_by_router p' env) p'.rt topic).1 })
  ]

  unfoldable pub handle_add_subscription : Params → Env s → PubSub → ℕ → ℕ → Option PubSub
  unfolding start_interest
  handle_add_subscription params env p topic sub =
      let subs = lookup_or [] topic p.my_subs in
      let first = length subs == 0 && lookup_or 0 topic p.my_relays == 0 in
      elim (if first && not (is_fanout_only p topic)
        then start_interest params env p topic
        else some p) [
          | none ↦ none
          | some p' ↦ some (record p' { my_subs = insert topic (add sub subs) p'.my_subs })
        ]

  unfoldable pub handle_remove_subscription : Params → Env s → PubSub → ℕ → ℕ → Option PubSub
  unfolding stop_interest
  handle_remove_subscription params env p topic sub = elim (lookup topic p.my_subs) [
    | none ↦ some p
    | some subs ↦
        let left = remove sub subs in
        let gone = record p { my_subs = delete topic p.my_subs } in
        if length left == 0
        then (if lookup_or 0 topic p.my_relays == 0 && not (is_fanout_only p topic)
            then stop_interest params env gone topic
            else some gone)
        else some (record p { my_subs = insert topic left p.my_subs })
  ]

  unfoldable pub handle_add_relay : Params → Env s → PubSub → ℕ → Option PubSub
  unfolding start_interest
  handle_add_relay params env p topic =
      let relays = lookup_or 0 topic p.my_relays + 1 in
      let p1 = record p { my_relays = insert topic relays p.my_relays } in
      if relays == 1 && length (lookup_or [] topic p.my_subs) == 0
      then start_interest params env p1 topic
      else some p1

  unfoldable pub handle_remove_relay : Params → Env s → PubSub → ℕ → Option PubSub
  unfolding stop_interest
  handle_remove_relay params env p topic =
      let relays = lookup_or 0 topic p.my_relays - 1 in
      let gone = record p { my_relays = delete topic p.my_relays } in
      if lookup_or 0 topic p.my_relays == 0
      then some p
      else if relays == 0
      then (if length (lookup_or [] topic p.my_subs) == 0
          then stop_interest params env gone topic
          else some gone)
      else some (record p { my_relays = insert topic relays p.my_relays })

-- The topic that is answered, and the new state.
unfoldable pub handle_add_topic : PubSub → ℕ → Topic → Topic × PubSub
handle_add_topic p topic t = elim (lookup topic p.my_topics) [
  | some old ↦ (old, p)
  | none ↦ (t, record p { my_topics = insert topic t p.my_topics })
]

-- The Boolean is false for an error.
unfoldable pub handle_remove_topic : PubSub → ℕ → Bool × PubSub
handle_remove_topic p topic = elim (lookup topic p.my_topics) [
  | none ↦ (true, p)
  | some t ↦
      if t.evt_handlers == 0
        && length (lookup_or [] topic p.my_subs) == 0
        && lookup_or 0 topic p.my_relays == 0
      then (true, record p { my_topics = delete topic p.my_topics })
      else (false, p)
]

-- `getHelloPacket`: the topics that a new peer is told of.
abbrev hello_subs : PubSub → List ℕ → List ℕ → List ℕ
hello_subs p [] out = out
hello_subs p (t ∷ ts) out =
    if is_fanout_only p t then hello_subs p ts out else add t (hello_subs p ts out)

abbrev hello_relays : List ℕ → List ℕ → List ℕ
hello_relays [] out = out
hello_relays (t ∷ ts) out = add t (hello_relays ts out)

unfoldable pub hello_packet : PubSub → Rpc
unfolding announcement
hello_packet p =
    let subscriptions = hello_relays (keys p.my_relays) (hello_subs p (keys p.my_subs) []) in
    record {
      from = 0;
      subscriptions = map (λ t. announcement p t true) subscriptions;
      publish = [];
      control = none;
      partial = none;
    }
