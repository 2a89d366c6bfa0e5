-- ===== src/PubSub/Peers/Events.antt =====
-- pubsub.go: the events by which peers come and go, as `processLoop` handles them, and what they make
-- of the blacklist.
use go_libp2p_pubsub.Prelude.{add, ℕ, ◌≡◌, refl, Bool, true, ◌&&◌, List, [], ◌∷◌, arith}
use go_libp2p_pubsub.Blacklist.{
  Blacklist, add_peer, contains, sweep_blacklist, survives, contains-add_peer, survives-add_peer,
  contains-sweep_blacklist, survives-sweep_blacklist,
}
use go_libp2p_pubsub.PubSub.{PubSub}
use go_libp2p_pubsub.PubSub.Peers.{
  Network, handle_pending_peers, handle_dead_peers, new_peer_stream, new_peer_error, blacklist_peer,
}

-- What happens to a peer, in the order in which `processLoop` hears of it. The first two are the
-- notifications that fill the pending sets. The last is the goroutine of a blacklist's time cache.
pub data PeerEvent : Type 0 where
  connected disconnected : ℕ → PeerEvent
  pending dead : Network → PeerEvent
  new_stream : Network → ℕ → ℕ → PeerEvent
  stream_error : ℕ → PeerEvent
  blacklisted : ℕ → ℕ → PeerEvent
  sweeps : ℕ → PeerEvent

unfoldable pub hear : PubSub → PeerEvent → PubSub
hear p (connected pid) = record p { new_peers_pend = add pid p.new_peers_pend }
hear p (disconnected pid) = record p { peer_dead_pend = add pid p.peer_dead_pend }
hear p (pending net) = handle_pending_peers net p
hear p (dead net) = handle_dead_peers net p
hear p (new_stream net pid proto) = (new_peer_stream net p pid proto).1
hear p (stream_error pid) = new_peer_error p pid
hear p (blacklisted now pid) = blacklist_peer now p pid
hear p (sweeps now) = record p { blacklist = sweep_blacklist now p.blacklist }

unfoldable pub hear_all : PubSub → List PeerEvent → PubSub
unfolding hear
hear_all p [] = p
hear_all p (e ∷ es) = hear_all (hear p e) es

-- What the blacklist makes of an event, and of several.
unfoldable pub list_step : Blacklist → PeerEvent → Blacklist
list_step b (blacklisted now pid) = (add_peer now b pid).1
list_step b (sweeps now) = sweep_blacklist now b
list_step b _ = b

unfoldable pub list_run : Blacklist → List PeerEvent → Blacklist
unfolding list_step
list_run b [] = b
list_run b (e ∷ es) = list_run (list_step b e) es

-- No sweep comes after the entry of a peer expires; a map has no sweeps.
abbrev pub lasts : Blacklist → ℕ → List PeerEvent → Bool
lasts b pid [] = true
lasts b pid (sweeps now ∷ es) = survives now b pid && lasts b pid es
lasts b pid (_ ∷ es) = lasts b pid es

lasts-ext :
    (b b' : Blacklist) (pid : ℕ) (es : List PeerEvent)
    → ((later : ℕ) → survives later b' pid ≡ survives later b pid)
    → lasts b pid es ≡ true
    → lasts b' pid es ≡ true
lasts-ext b b' pid [] same l = refl
lasts-ext b b' pid (sweeps now ∷ es) same l =
    ground (arith, same now, lasts-ext b b' pid es same (ground (arith, l)))
lasts-ext b b' pid (connected _ ∷ es) same l = lasts-ext b b' pid es same l
lasts-ext b b' pid (disconnected _ ∷ es) same l = lasts-ext b b' pid es same l
lasts-ext b b' pid (pending _ ∷ es) same l = lasts-ext b b' pid es same l
lasts-ext b b' pid (dead _ ∷ es) same l = lasts-ext b b' pid es same l
lasts-ext b b' pid (new_stream _ _ _ ∷ es) same l = lasts-ext b b' pid es same l
lasts-ext b b' pid (stream_error _ ∷ es) same l = lasts-ext b b' pid es same l
lasts-ext b b' pid (blacklisted _ _ ∷ es) same l = lasts-ext b b' pid es same l

-- An entry is not lost while it lasts, and another event does not change how long that is.
list_step-lasts :
    (b : Blacklist) (pid : ℕ) (e : PeerEvent) (es : List PeerEvent)
    → contains b pid ≡ true
    → lasts b pid (e ∷ es) ≡ true
    → (contains (list_step b e) pid ≡ true) × (lasts (list_step b e) pid es ≡ true)
unfolding list_step
list_step-lasts b pid (blacklisted now k) es h l = (
  ground (arith, h, contains-add_peer now b k pid),
  lasts-ext b (add_peer now b k).1 pid es (λ later. survives-add_peer now later b k pid h) l,
)
list_step-lasts b pid (sweeps now) es h l = (
  ground (arith, h, l, contains-sweep_blacklist now b pid),
  lasts-ext b (sweep_blacklist now b) pid es
      (λ later. survives-sweep_blacklist now later b pid h (ground (arith, l))) (ground (arith, l)),
)
list_step-lasts b pid (connected _) es h l = (h, l)
list_step-lasts b pid (disconnected _) es h l = (h, l)
list_step-lasts b pid (pending _) es h l = (h, l)
list_step-lasts b pid (dead _) es h l = (h, l)
list_step-lasts b pid (new_stream _ _ _) es h l = (h, l)
list_step-lasts b pid (stream_error _) es h l = (h, l)

pub list_run-contains :
    (b : Blacklist) (pid : ℕ) (es : List PeerEvent)
    → contains b pid ≡ true
    → lasts b pid es ≡ true
    → contains (list_run b es) pid ≡ true
unfolding list_run
list_run-contains b pid [] h l = h
list_run-contains b pid (e ∷ es) h l =
    let (h', l') = list_step-lasts b pid e es h l in list_run-contains (list_step b e) pid es h' l'
