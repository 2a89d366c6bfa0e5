-- ===== src/Router.antt =====
-- gossipsub.go: the state of `GossipSubRouter`, its parameters, and what its handlers read from the
-- rest of the program. The handlers are in the child modules.
pub mod Env
pub mod Backoff
pub mod IHave
pub mod IWant
pub mod IDontWant
pub mod Peers
pub mod Graft
pub mod Prune
pub mod Control
pub mod Membership
pub mod Heartbeat
pub mod HandleRpc
pub mod Streams
pub mod Example
pub mod Tests
