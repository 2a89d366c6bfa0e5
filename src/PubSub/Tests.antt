-- ===== src/PubSub/Tests.antt =====
-- The theorems about `PubSub` at a concrete node, and runs of the code.
use go_libp2p_pubsub.Prelude.{
  ℕ, ◌≡◌, ◌≤◌, refl, Bool, true, false, not, ◌&&◌, List, [], ◌∷◌, Option, none, some, has, member,
  count_of, ◌==◌, keys, arith, length,
}
use go_libp2p_pubsub.Message.{Message, get_from}
use go_libp2p_pubsub.Rpc.{Rpc}
use go_libp2p_pubsub.RpcQueue.{new_rpc_queue, push}
use go_libp2p_pubsub.Backoff.{new_backoff}
use go_libp2p_pubsub.SubscriptionFilter.{SubOpts}
use go_libp2p_pubsub.TimeCache.{new_first_seen_cache, add_id, has_id}
use go_libp2p_pubsub.Validation.{push_validation, validate}
use go_libp2p_pubsub.Validation.Fates.{every}
use go_libp2p_pubsub.Router.Env.{Env}
use go_libp2p_pubsub.Router.Example.{scores, params, env, router, message, draws_zero}
use go_libp2p_pubsub.Router.Membership.{join}
use go_libp2p_pubsub.Router.Peers.{get_peers}
use go_libp2p_pubsub.Shuffle.{shuffle}
use go_libp2p_pubsub.Router.Graft.Admission.{mesh_of}
use go_libp2p_pubsub.Router.Streams.{accept_all, accept_from}
use go_libp2p_pubsub.Router.HandleRpc.{handle_rpc}
use go_libp2p_pubsub.PubSub.{
  PubSub, Topic, is_fanout_only, hello_packet, handle_add_topic, handle_add_subscription,
  handle_add_relay, handle_remove_subscription, announce_retry, handle_remove_topic,
}
use go_libp2p_pubsub.PubSub.Interest.{
  Event, join_topic, close_topic, subscribe, cancel_subscription, relay, retry, run, is_interested,
  IsConsistent, IsKept,
}
use go_libp2p_pubsub.PubSub.Interest.Refinement.{run-refines, subscribed_in}
use go_libp2p_pubsub.PubSub.Peers.{Network, blacklist_peer, handle_pending_peers, forget_peer}
use go_libp2p_pubsub.PubSub.Peers.Topics.{in_topic, forget_peer-clears}
use go_libp2p_pubsub.Blacklist.{
  new_map_blacklist, new_time_cached_blacklist, add_peer, contains, sweep_blacklist,
}
use go_libp2p_pubsub.PubSub.Peers.Events.{connected, pending, dead, new_stream, sweeps, hear_all}
use go_libp2p_pubsub.PubSub.Peers.Blacklist.{IsBarred, blacklisted-no_queue}
use go_libp2p_pubsub.PubSub.Incoming.{
  Config, Flow, Moment, FlowEvent, arrives, validates, sends, publishes, flow_run,
  record_subscriptions, select_messages, push_msgs,
}
use go_libp2p_pubsub.PubSub.Incoming.Clean.{is_sound, Agrees}
use go_libp2p_pubsub.PubSub.Incoming.Delivery.{delivered-once}
use go_libp2p_pubsub.PubSub.Incoming.Subscribers.{last_word, record_subscriptions-last}

-- A node with the peers 2 and 3, and no topic of its own. The queue of peer 3 is full.
abbrev node : PubSub
node = record {
  my_subs = [];
  my_relays = [];
  my_topics = [];
  topics = (1, (2, record { requests_partial = false; supports_partial = false }) ∷ []) ∷ [];
  peers = (2, new_rpc_queue 32) ∷ (3, new_rpc_queue 0) ∷ [];
  peer_outbound_queue_size = 32;
  rt = record router { mesh = [] };
  blacklist = new_time_cached_blacklist 100;
  new_peers_pend = [];
  peer_dead_pend = [];
  dead_peer_backoff = new_backoff 0 1000 4;
  caches = record { seen = new_first_seen_cache 120; delivered = new_first_seen_cache 120 };
  retries = [];
  events = [];
}

abbrev topic_handle : Bool → Topic
topic_handle fanout_only = record {
  handle = 50;
  fanout_only = fanout_only;
  request_partial_messages = false;
  supports_partial_messages = false;
  evt_handlers = 0;
}

-- Topic 2 is fanout-only; the relay of topic 1 outlives its subscription.
abbrev interests : List (Env scores × Event)
interests =
    (env, join_topic 1 (topic_handle false))
    ∷ (env, join_topic 2 (topic_handle true))
    ∷ (env, subscribe 1 70)
    ∷ (env, subscribe 2 71)
    ∷ (env, relay 1)
    ∷ (env, relay 2)
    ∷ (env, cancel_subscription 1 70)
    ∷ (env, retry 3 1 true)
    ∷ (env, close_topic 1)
    ∷ []

node-IsConsistent : IsConsistent node
unfolding IsConsistent IsKept new_rpc_queue
node-IsConsistent = (refl, λ t. (λ h. h, λ h. refl, refl, refl, refl))

run-refines_example :
    (p' : PubSub) × (run scores params node interests ≡ some p')
    × ((t : ℕ)
        → (has t p'.rt.mesh ≡ is_interested p' t && not (is_fanout_only p' t))
          × (member t (subscribed_in (hello_packet p').subscriptions) ≡ has t p'.rt.mesh))
run-refines_example = run-refines scores params node interests node-IsConsistent

-- In the end topic 1 has a mesh and topic 2 none.
program : Unit {0}
unfolding run handle_add_topic handle_add_subscription handle_add_relay handle_remove_subscription
    announce_retry handle_remove_topic push new_rpc_queue join get_peers shuffle flow_run
    push_validation add_id has_id select_messages accept_from handle_rpc new_first_seen_cache
    validate add_peer new_time_cached_blacklist new_map_blacklist contains sweep_blacklist hear_all
    blacklist_peer handle_pending_peers
program = tt

abbrev run_node : Option (List ℕ)
run_node = elim (run scores params node interests) [ none ↦ none | some p ↦ some (keys p.rt.mesh) ]

run_node_test : run_node ≡ some (1 ∷ [])
unfolding program
run_node_test = refl

node-IsBarred : IsBarred node
unfolding IsBarred contains new_time_cached_blacklist new_first_seen_cache
node-IsBarred = λ k h. absurd (ground (arith, h))

abbrev net : Network
net = record { connected = (λ k. true); asked = 5; now = 6; jitter = 7; outbound = (λ k. false) }

-- Peer 2 is blacklisted at 50, until 150, and the cache is swept at 150.
blacklisted-no_queue_example :
    has 2
      (hear_all
        (blacklist_peer 50 (hear_all node (connected 4 ∷ pending net ∷ [])) 2)
        (connected 2 ∷ sweeps 150 ∷ pending net ∷ dead net ∷ new_stream net 2 1 ∷ [])).peers
    ≡ false
unfolding program
blacklisted-no_queue_example =
    blacklisted-no_queue node (connected 4 ∷ pending net ∷ [])
      (connected 2 ∷ sweeps 150 ∷ pending net ∷ dead net ∷ new_stream net 2 1 ∷ []) 50 2
      node-IsBarred refl

-- After a later sweep it has a queue again.
expired_test :
    has 2 (hear_all (blacklist_peer 50 node 2) (sweeps 151 ∷ connected 2 ∷ pending net ∷ [])).peers
    ≡ true
unfolding program
expired_test = refl

forget_peer-clears_example :
    (in_topic 2 1 (forget_peer node 2).topics ≡ in_topic 2 1 node.topics && not (2 == 2))
    × (member 2 (mesh_of (forget_peer node 2).rt 1) ≡ member 2 (mesh_of node.rt 1) && not (2 == 2))
forget_peer-clears_example = forget_peer-clears node 2 2 1

abbrev says_of : ℕ → Bool → SubOpts
says_of t sub = record {
  subscribe = sub;
  topicid = t;
  requests_partial = false;
  supports_sending_partial = true;
}

-- Peer 3 subscribes to topic 1 and leaves it again.
record_subscriptions-last_example :
    ((t : ℕ)
      → in_topic 3 t (record_subscriptions node 3 (says_of 1 true ∷ says_of 1 false ∷ [])).topics
        ≡ last_word t (says_of 1 true ∷ says_of 1 false ∷ []) (in_topic 3 t node.topics))
    × ((k t : ℕ)
        → (3 == k) ≡ false
        → in_topic k t (record_subscriptions node 3 (says_of 1 true ∷ says_of 1 false ∷ [])).topics
          ≡ in_topic k t node.topics)
record_subscriptions-last_example =
    record_subscriptions-last node 3 (says_of 1 true ∷ says_of 1 false ∷ [])

-- We are peer 1, and require no signatures.
abbrev config : Config
config = record {
  inspect = (λ from rpc. true);
  sub_filter = none;
  must_sign = false;
  must_verify = false;
  sign_id = 0;
  self = 1;
}

abbrev moment : Moment scores
moment = record {
  params = params;
  env = env;
  world = record {
    now = 10;
    verify_message_signature = (λ msg. true);
    message_id = get_from;
    has_room = (λ c. true);
    has_common_room = true;
    arrival = (λ rs. rs);
  };
  graylist_threshold = 20;
  gate = accept_all;
  queue_room = (λ i. true);
}

abbrev flow : Flow
flow = record {
  p = record node { my_subs = (1, 70 ∷ []) ∷ []; blacklist = new_map_blacklist };
  val = record { topic_vals = []; default_vals = [] };
  validation_queue = [];
  send_msg = [];
  delivered = [];
}

-- The message that arrives twice, the second time from another peer.
abbrev rpc_from : ℕ → Rpc
rpc_from from = record {
  from = from;
  subscriptions = says_of 1 true ∷ [];
  publish = message ∷ [];
  control = none;
  partial = none;
}

abbrev arrivals : List (Moment scores × FlowEvent)
arrivals =
    (moment, arrives (rpc_from 2))
    ∷ (moment, arrives (rpc_from 3))
    ∷ (moment, validates)
    ∷ (moment, publishes message)
    ∷ (moment, sends)
    ∷ []

abbrev agrees : Agrees config get_from (λ msg. true) moment.world
agrees = (λ msg. refl, λ msg. refl, λ rs p. refl)

delivered-once_example :
    (f' : Flow) × (flow_run scores config flow arrivals ≡ some f')
    × (count_of (λ (msg : Message). get_from msg == 7) f'.delivered ≤ 1)
    × (every (is_sound config get_from (λ msg. true) flow.p) f'.delivered ≡ true)
delivered-once_example =
    delivered-once config get_from (λ msg. true) scores flow arrivals 7
      (
        agrees,
        draws_zero,
        (agrees, draws_zero, (agrees, draws_zero, (agrees, draws_zero, (agrees, draws_zero, tt)))),
      )
      refl refl refl

abbrev sent_by_run : Option Flow → ℕ
sent_by_run none = 0
sent_by_run (some f) = length f.delivered

delivered_one_test : sent_by_run (flow_run scores config flow arrivals) ≡ 1
unfolding program
delivered_one_test = refl

-- Of two signed messages the second finds the validation queue full.
queue_fills_test :
    length
      (push_msgs moment.world
        (λ i. i == 0)
        0
        flow
        (record message { signature = some (8 ∷ []) }
          ∷ record message { signature = some (9 ∷ []) }
          ∷ [])).validation_queue
    ≡ 1
unfolding program push_msgs
queue_fills_test = refl
