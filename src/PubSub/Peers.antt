-- ===== src/PubSub/Peers.antt =====
-- pubsub.go: the peers that come and go, in the code's order of handling: the sets of pending peers are
-- lists, in the order in which the loop takes them. The goroutine that opens a stream is left out.
pub mod Topics
pub mod Events
pub mod Blacklist
use go_libp2p_pubsub.Prelude.{
  ℕ, Bool, true, false, not, ◌&&◌, ◌||◌, List, [], ◌∷◌, Option, none, some, Map, lookup, insert,
  delete, has, length, member, add, ◌==◌, if◌then◌else◌,
}
use go_libp2p_pubsub.Rpc.{Rpc}
use go_libp2p_pubsub.RpcQueue.{RpcQueue, new_rpc_queue}
use go_libp2p_pubsub.Backoff.{Backoff, update_and_get}
use go_libp2p_pubsub.Blacklist.{add_peer, contains}
use go_libp2p_pubsub.Router.Streams.{on_new_outbound_stream, on_closed_outbound_stream}
use go_libp2p_pubsub.PubSub.{PubSub, PeerTopicState, hello_packet}

-- What the code asks of the network and of the clock: who is connected, the times and the jitter
-- that the backoff of a peer is computed with, and whether a connection is outbound.
pub record Network : Type 0 where
  pub connected : ℕ → Bool
  pub asked : ℕ
  pub now : ℕ
  pub jitter : ℕ
  pub outbound : ℕ → Bool

-- `sendNotification` of a topic that we have a handle of: a peer joins or leaves it.
abbrev pub notify : PubSub → ℕ → ℕ → Bool → PubSub
notify p topic pid joins =
    if has topic p.my_topics then record p { events = (topic, pid, joins) ∷ p.events } else p

abbrev pub notify_leaves : PubSub → List ℕ → ℕ → PubSub
notify_leaves p [] pid = p
notify_leaves p (t ∷ ts) pid = notify (notify_leaves p ts pid) t pid false

-- The topics without the peer, and those that it was in.
unfoldable pub clear_peer : ℕ → Map (Map PeerTopicState) → Map (Map PeerTopicState) × List ℕ
clear_peer pid [] = ([], [])
clear_peer pid ((t, tmap) ∷ topics) =
    let (rest, left) = clear_peer pid topics in
    let tmap' = delete pid tmap in
    if has pid tmap
    then (if length tmap' == 0 then (delete t rest, t ∷ left) else ((t, tmap') ∷ rest, t ∷ left))
    else ((t, tmap) ∷ rest, left)

unfoldable pub clear_peer_from_topics_state : PubSub → ℕ → PubSub
unfolding clear_peer
clear_peer_from_topics_state p pid =
    let (topics, left) = clear_peer pid p.topics in
    notify_leaves (record p { topics = topics }) left pid

-- The peer's queue is closed and forgotten, and the peer with it.
unfoldable pub forget_peer : PubSub → ℕ → PubSub
unfolding clear_peer_from_topics_state
forget_peer p pid =
    let p1 = clear_peer_from_topics_state (record p { peers = delete pid p.peers }) pid in
    record p1 { rt = on_closed_outbound_stream p1.rt pid }

-- `for pid := range newPeers`.
unfoldable pub add_pending : Network → PubSub → List ℕ → PubSub
add_pending net p [] = p
add_pending net p (pid ∷ pids) =
    add_pending net
      (if net.connected pid && not (has pid p.peers) && not (contains p.blacklist pid)
        then record p { peers = insert pid (new_rpc_queue p.peer_outbound_queue_size) p.peers }
        else p)
      pids

unfoldable pub handle_pending_peers : Network → PubSub → PubSub
unfolding add_pending
handle_pending_peers net p = add_pending net (record p { new_peers_pend = [] }) p.new_peers_pend

-- A dead peer that is still connected gets a new queue, unless its backoff refuses.
unfoldable pub handle_dead_peer : Network → PubSub → ℕ → PubSub
unfolding forget_peer
handle_dead_peer net p pid =
    let p1 = forget_peer p pid in
    let (delay, backoff) = update_and_get net.asked net.now net.jitter p1.dead_peer_backoff pid in
    let p2 = record p1 { dead_peer_backoff = backoff } in
    if not (has pid p.peers) then p else if not (net.connected pid) then p1 else elim delay [
      | none ↦ p2
      | some d ↦ record p2 {
        peers = insert pid (new_rpc_queue p.peer_outbound_queue_size) p2.peers;
      }
    ]

unfoldable pub handle_each_dead : Network → PubSub → List ℕ → PubSub
unfolding handle_dead_peer
handle_each_dead net p [] = p
handle_each_dead net p (pid ∷ pids) = handle_each_dead net (handle_dead_peer net p pid) pids

unfoldable pub handle_dead_peers : Network → PubSub → PubSub
unfolding handle_each_dead
handle_dead_peers net p = handle_each_dead net (record p { peer_dead_pend = [] }) p.peer_dead_pend

-- A new stream: the packet that it begins with, or `none` where it is reset.
unfoldable pub new_peer_stream : Network → PubSub → ℕ → ℕ → Option Rpc × PubSub
unfolding hello_packet
new_peer_stream net p pid proto =
    if not (has pid p.peers)
    then (none, p)
    else if contains p.blacklist pid
    then (none, record p { peers = delete pid p.peers })
    else (
      some (hello_packet p),
      record p { rt = on_new_outbound_stream p.rt pid proto (net.outbound pid) },
    )

unfoldable pub new_peer_error : PubSub → ℕ → PubSub
new_peer_error p pid = record p { peers = delete pid p.peers }

unfoldable pub blacklist_peer : ℕ → PubSub → ℕ → PubSub
unfolding forget_peer
blacklist_peer now p pid =
    let p1 = record p { blacklist = (add_peer now p.blacklist pid).1 } in
    if has pid p.peers then forget_peer p1 pid else p1
