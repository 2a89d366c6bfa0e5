-- ===== src/PubSub/Peers/Blacklist.antt =====
-- Peers that are blacklisted, over whatever happens to the connections.
use go_libp2p_pubsub.Prelude.{
  ℕ, ◌≡◌, refl, ap, sym, ◌∙◌, true, false, not, ◌&&◌, List, [], ◌∷◌, insert, lookup-insert,
  lookup-delete, has, Bool-cases, Option-cases, inl, inr, arith, has_same, ◌==◌, ==_iff,
}
use go_libp2p_pubsub.Blacklist.{
  Blacklist, add_peer, contains, sweep_blacklist, contains-add_peer, contains-sweep_blacklist,
}
use go_libp2p_pubsub.Rpc.{Rpc}
use go_libp2p_pubsub.RpcQueue.{RpcQueue, new_rpc_queue}
use go_libp2p_pubsub.Backoff.{update_and_get}
use go_libp2p_pubsub.PubSub.{PubSub}
use go_libp2p_pubsub.PubSub.Peers.{
  Network, add_pending, handle_pending_peers, handle_dead_peer, handle_each_dead, handle_dead_peers,
  new_peer_stream, new_peer_error, blacklist_peer, forget_peer,
}
use go_libp2p_pubsub.PubSub.Peers.Topics.{peers-forget_peer}
use go_libp2p_pubsub.PubSub.Peers.Events.{
  PeerEvent, connected, disconnected, pending, dead, new_stream, stream_error, blacklisted, sweeps,
  hear, hear_all, list_step, list_run, lasts, list_run-contains,
}

-- The blacklist is `b`, and no peer on it has a queue.
unfoldable IsBarredBy : Blacklist → PubSub → Type 0
IsBarredBy b p =
    (p.blacklist ≡ b) × ((k : ℕ) → contains p.blacklist k ≡ true → has k p.peers ≡ false)

listed_same : (b : Blacklist) (k j : ℕ) → (k == j) ≡ true → contains b j ≡ contains b k
listed_same b k j same = ap (contains b) (sym ((==_iff k j).0 same))

add_pending-IsBarredBy :
    (b : Blacklist) (net : Network) (p : PubSub) (pids : List ℕ)
    → IsBarredBy b p
    → IsBarredBy b (add_pending net p pids)
unfolding add_pending IsBarredBy
add_pending-IsBarredBy b net p [] ok = ok
add_pending-IsBarredBy b net p (pid ∷ pids) ok =
    elim (Bool-cases
      ((net.connected pid && not (has pid p.peers)) && not (contains p.blacklist pid))) [
        | inr skipped ↦ rw (skipped, add_pending) (add_pending-IsBarredBy b net p pids ok)
        | inl taken ↦
            let fresh = new_rpc_queue p.peer_outbound_queue_size in
            rw (taken, add_pending)
              (add_pending-IsBarredBy b net (record p { peers = insert pid fresh p.peers }) pids
                (
                  ok.0,
                  λ k h. ground (
                    arith,
                    h,
                    ok.1 k h,
                    taken,
                    has_same pid k p.peers,
                    listed_same p.blacklist pid k,
                    lookup-insert pid k fresh p.peers,
                  ),
                ))
      ]

forget_peer-IsBarredBy :
    (b : Blacklist) (p : PubSub) (pid : ℕ) → IsBarredBy b p → IsBarredBy b (forget_peer p pid)
unfolding IsBarredBy
forget_peer-IsBarredBy b p pid ok =
    let (peers, list) = peers-forget_peer p pid in
    (
      list ∙ ok.0,
      λ k. rw (peers, list) (λ h. ground (arith, h, ok.1 k h, lookup-delete pid k p.peers)),
    )

handle_dead_peer-IsBarredBy :
    (b : Blacklist) (net : Network) (p : PubSub) (pid : ℕ)
    → IsBarredBy b p
    → IsBarredBy b (handle_dead_peer net p pid)
unfolding handle_dead_peer IsBarredBy
handle_dead_peer-IsBarredBy b net p pid ok = elim (Bool-cases (has pid p.peers)) [
  | inr unknown ↦ rw (unknown, handle_dead_peer) ok
  | inl known ↦
      let p1 = forget_peer p pid in
      let ok1 = forget_peer-IsBarredBy b p pid ok in
      let (_, list) = peers-forget_peer p pid in
      let fresh : RpcQueue Rpc = new_rpc_queue p.peer_outbound_queue_size in
      let backoff = update_and_get net.asked net.now net.jitter p1.dead_peer_backoff pid in
      elim (Bool-cases (net.connected pid)) [
        | inr gone ↦ rw (known, handle_dead_peer) (rw gone ok1)
        | inl still ↦ elim (Option-cases backoff.0) [
          | inl refused ↦ rw (known, handle_dead_peer) (rw still (rw refused ok1))
          | inr (delay, again) ↦
              rw (known, handle_dead_peer)
                (rw still (
                  rw again (
                    ok1.0,
                    λ k h. ground (
                      arith,
                      h,
                      ok1.1 k h,
                      ok.1 pid,
                      known,
                      ap (λ l. contains l k) list,
                      listed_same p.blacklist pid k,
                      lookup-insert pid k fresh p1.peers,
                    ),
                  )))
        ]
      ]
]

handle_each_dead-IsBarredBy :
    (b : Blacklist) (net : Network) (p : PubSub) (pids : List ℕ)
    → IsBarredBy b p
    → IsBarredBy b (handle_each_dead net p pids)
unfolding handle_each_dead
handle_each_dead-IsBarredBy b net p [] ok = ok
handle_each_dead-IsBarredBy b net p (pid ∷ pids) ok =
    handle_each_dead-IsBarredBy b net (handle_dead_peer net p pid) pids
      (handle_dead_peer-IsBarredBy b net p pid ok)

new_peer_stream-IsBarredBy :
    (b : Blacklist) (net : Network) (p : PubSub) (pid proto : ℕ)
    → IsBarredBy b p
    → IsBarredBy b (new_peer_stream net p pid proto).1
unfolding new_peer_stream IsBarredBy
new_peer_stream-IsBarredBy b net p pid proto ok = elim (Bool-cases (has pid p.peers)) [
  | inr unknown ↦ rw (unknown, new_peer_stream) ok
  | inl known ↦ elim (Bool-cases (contains p.blacklist pid)) [
    | inr fine ↦ rw (known, new_peer_stream) (rw fine ok)
    | inl listed ↦
        rw (known, new_peer_stream)
          (rw listed (ok.0, λ k h. ground (arith, h, ok.1 k h, lookup-delete pid k p.peers)))
  ]
]

blacklist_peer-IsBarredBy :
    (b : Blacklist) (now : ℕ) (p : PubSub) (pid : ℕ)
    → IsBarredBy b p
    → IsBarredBy (add_peer now b pid).1 (blacklist_peer now p pid)
unfolding blacklist_peer IsBarredBy
blacklist_peer-IsBarredBy b now p pid ok =
    let listed = (add_peer now p.blacklist pid).1 in
    let (peers, list) = peers-forget_peer (record p { blacklist = listed }) pid in
    let same = ap (λ l. (add_peer now l pid).1) ok.0 in
    elim (Bool-cases (has pid p.peers)) [
      | inl known ↦
          rw (known, blacklist_peer)
            (
              list ∙ same,
              λ k.
                  rw (peers, list)
                    (λ h. ground (
                      arith,
                      h,
                      ok.1 k,
                      lookup-delete pid k p.peers,
                      contains-add_peer now p.blacklist pid k,
                    )),
            )
      | inr unknown ↦
          rw (unknown, blacklist_peer)
            (
              same,
              λ k h. ground (
                arith,
                h,
                ok.1 k,
                unknown,
                has_same pid k p.peers,
                contains-add_peer now p.blacklist pid k,
              ),
            )
    ]

hear-IsBarredBy :
    (b : Blacklist) (p : PubSub) (e : PeerEvent)
    → IsBarredBy b p
    → IsBarredBy (list_step b e) (hear p e)
unfolding hear handle_pending_peers handle_dead_peers new_peer_error IsBarredBy list_step
hear-IsBarredBy b p (connected pid) ok = ok
hear-IsBarredBy b p (disconnected pid) ok = ok
hear-IsBarredBy b p (pending net) ok =
    add_pending-IsBarredBy b net (record p { new_peers_pend = [] }) p.new_peers_pend ok
hear-IsBarredBy b p (dead net) ok =
    handle_each_dead-IsBarredBy b net (record p { peer_dead_pend = [] }) p.peer_dead_pend ok
hear-IsBarredBy b p (new_stream net pid proto) ok = new_peer_stream-IsBarredBy b net p pid proto ok
hear-IsBarredBy b p (stream_error pid) ok =
    (ok.0, λ k h. ground (arith, h, ok.1 k h, lookup-delete pid k p.peers))
hear-IsBarredBy b p (blacklisted now pid) ok = blacklist_peer-IsBarredBy b now p pid ok
hear-IsBarredBy b p (sweeps now) ok = (
  ap (sweep_blacklist now) ok.0,
  λ k h. ok.1 k (ground (arith, h, contains-sweep_blacklist now p.blacklist k)),
)

hear_all-IsBarredBy :
    (b : Blacklist) (p : PubSub) (es : List PeerEvent)
    → IsBarredBy b p
    → IsBarredBy (list_run b es) (hear_all p es)
unfolding hear_all list_run
hear_all-IsBarredBy b p [] ok = ok
hear_all-IsBarredBy b p (e ∷ es) ok =
    hear_all-IsBarredBy (list_step b e) (hear p e) es (hear-IsBarredBy b p e ok)

-- No peer on the blacklist has a queue.
unfoldable pub IsBarred : PubSub → Type 0
IsBarred p = (k : ℕ) → contains p.blacklist k ≡ true → has k p.peers ≡ false

-- Where no peer on the blacklist has a queue at first, then from when a peer is blacklisted it has no
-- queue, whatever connections, disconnections, streams, errors and blacklistings follow, in whatever
-- order. For a `MapBlacklist` this is for good. For a `TimeCachedBlacklist` it is as long as no sweep
-- of its cache comes after the time at which the entry of the peer expires.
pub blacklisted-no_queue :
    (p : PubSub) (before after : List PeerEvent) (now pid : ℕ)
    → IsBarred p
    → lasts (blacklist_peer now (hear_all p before) pid).blacklist pid after ≡ true
    → has pid (hear_all (blacklist_peer now (hear_all p before) pid) after).peers ≡ false
unfolding IsBarred IsBarredBy
blacklisted-no_queue p before after now pid ok l =
    let q = hear_all p before in
    let b = list_run p.blacklist before in
    let q' = blacklist_peer now q pid in
    let ok1 = hear_all-IsBarredBy p.blacklist p before (refl, ok) in
    let ok2 = blacklist_peer-IsBarredBy b now q pid ok1 in
    let (list, none_left) = hear_all-IsBarredBy (add_peer now b pid).1 q' after ok2 in
    none_left pid (
      ap (λ x. contains x pid) list
      ∙ list_run-contains (add_peer now b pid).1 pid after
          (ground (arith, contains-add_peer now b pid pid))
          (ap (λ x. lasts x pid after) (sym ok2.0) ∙ l))
