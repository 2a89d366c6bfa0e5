-- ===== src/Lib.antt =====
-- A model of go-libp2p-pubsub, the GossipSub router of libp2p.
--
-- Peers exchange messages by topic. For each topic a router keeps a mesh of peers that it forwards
-- full messages to, and gossips the ids of recent messages to others (IHAVE), who ask for those
-- they miss (IWANT). GRAFT and PRUNE change the meshes, and IDONTWANT stops duplicates. An RPC that
-- goes to a peer stands in that peer's queue until its stream takes it.
--
-- Which module models what:
--   * RpcQueue: rpc_queue.go. `push`, `pop` and `close` are `rpcQueue.push`, `Pop` and `Close` under
--     the mutex, up to their return or wait; RpcQueue.Blocking runs any number of goroutines that
--     call them, with the two condition variables.
--   * MessageCache: mcache.go. The map of messages, the counts of what was sent to whom, and the
--     sliding history of slots.
--   * TimeCache: timecache/. The caches of seen ids, by first and by last sight.
--   * Blacklist: blacklist.go. The map and the time cache behind the interface.
--   * Backoff: backoff.go. The delays before a dead peer is tried again.
--   * GossipTracer: gossip_tracer.go. The promises that an IWANT makes a peer answerable for.
--   * Shuffle: the three shuffles of gossipsub.go.
--   * Message, Rpc: the types of pubsub.go; Rpc.Split is `split`, with the sizes as parameters.
--   * PubSub: pubsub.go, the state of `PubSub` and the handlers that `processLoop` calls: the
--     subscriptions, relays and topics with what they announce (PubSub.Interest has the calls of
--     topic.go as events), PubSub.Peers the peers that come and go, PubSub.Incoming the RPCs that
--     arrive and the delivery of their messages.
--   * Validation: validation.go, the pipeline that a message passes.
--   * Router: gossipsub.go, the state of `GossipSubRouter` (Router.Env) and the handlers of control
--     messages, a module each: Router.IHave `handleIHave`, Router.IWant `handleIWant`, Router.Graft
--     `handleGraft`, Router.Prune `handlePrune` and `pxConnect`, Router.IDontWant `handleIDontWant`
--     and the decay of its marks, Router.Backoff the prune backoff and its clearing,
--     Router.Heartbeat what `heartbeat` does with a mesh, Router.HandleRpc `HandleRPC`,
--     Router.Streams the streams of peers and `AcceptFrom`, Router.Peers `getPeers` and
--     `makePrune`, Router.Membership `Join` and `Leave`, and Router.Control what waits for the
--     next RPC to a peer.
--   * SubscriptionFilter: subscription_filter.go.
--   * SeqnoValidator: validation_builtin.go, `validate` as two steps, between which others may run;
--     the metadata store is a parameter.
--   * Prelude: Boolean tests, lists and maps that all of them share.
--
-- How they interact: `handle_ihave` writes promises into the router's `GossipTracer`; `handle_iwant`
-- reads its `MessageCache` and the marks of `handle_idontwant`; `handle_graft` and `handle_prune`
-- share the mesh and the backoff; all answer by values that the caller sends. `handle_rpc` calls
-- them in turn. PubSub calls the router's `join` and `leave` when interest in a topic starts and
-- stops, gives it the control messages of an RPC, and passes the messages through Validation.
--
-- Conventions. Times and durations are numbers of nanoseconds, counted from Go's zero time; ids,
-- peers and topics are numbers, since the code only compares them. A call takes the time that it
-- reads and the random numbers that it draws as arguments. Arithmetic of durations wraps at 64 bits
-- where the code can reach it (`time_add`, `grow`). A map is an association list, a set a list, and
-- a panic is `none` or an outcome of its own. All recursion is structural, so there is no fuel.
--
-- Parameters. Scores are any type with the comparisons that Go's floats have (Router.Env.Scores).
-- A handler takes the rest of the program as a record `Env`: scores and thresholds, the peer filter,
-- the seen cache, the peers of a topic, the features of protocols, the checksum of an id, the
-- envelopes of signed records, and the room in the connector's channel. `IsIntn` states of
-- `rand.Intn` that it returns less than its argument, `Permutes` of `sort.Slice` that it keeps the
-- elements. Rpc.Split takes the sizes of protobuf as functions, with the limits. In Router.Heartbeat
-- the slices are in range since the code's check of its parameters has `D` at most `Dhi`.
--
-- What runs at the same time is a list of events in any order: the calls that reach `processLoop`,
-- the validation workers, the goroutines of a queue. The validators of a message run to their end
-- when its worker takes it, and their results arrive in an order that is given. The room in the
-- validation queue is given for each message of an RPC, since workers empty it meanwhile.
--
-- Not modelled: floating point scores (score.go, peer_gater.go), streams and discovery (the rest of
-- comm.go, discovery.go), signatures, tracing to files, generated code, the extensions and partial
-- messages, and the parts of gossipsub.go and pubsub.go that no module above names.
pub mod Prelude
pub mod Backoff
pub mod Blacklist
pub mod GossipTracer
pub mod Message
pub mod MessageCache
pub mod PubSub
pub mod Router
pub mod Rpc
pub mod RpcQueue
pub mod SeqnoValidator
pub mod Shuffle
pub mod SubscriptionFilter
pub mod TimeCache
pub mod Validation
