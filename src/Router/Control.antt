-- ===== src/Router/Control.antt =====
-- gossipsub.go: what waits for the next RPC to a peer, `pushControl`, `enqueueGossip`,
-- `piggybackControl` and `piggybackGossip`, and how `sendRPC` takes it.
pub mod Retries
pub mod Tests
use go_libp2p_pubsub.Prelude.{
  ℕ, Bool, true, false, not, ◌&&◌, ◌||◌, List, [], ◌∷◌, ◌++◌, Option, none, some, lookup, lookup_or,
  insert, delete, keep, length, member, ltb, ◌==◌, if◌then◌else◌,
}
use go_libp2p_pubsub.Router.Env.{ControlIHave, ControlPrune, ControlMessage, Router}

-- Gossip is not retried. A list that is nil in the code is empty.
unfoldable pub push_control : Router → ℕ → ControlMessage → Router
push_control gs p ctl =
    if ltb 0 (length ctl.graft) || ltb 0 (length ctl.prune)
    then record gs {
      control = insert p (record ctl { ihave = []; iwant = []; idontwant = [] }) gs.control;
    }
    else gs

unfoldable pub enqueue_gossip : Router → ℕ → ControlIHave → Router
enqueue_gossip gs p ihave = record gs {
  gossip = insert p (lookup_or [] p gs.gossip ++ ihave ∷ []) gs.gossip;
}

-- The GRAFTs and PRUNEs that are not stale: of a topic whose mesh holds the peer, or does not.
unfoldable pub current_grafts : Router → ℕ → List ℕ → List ℕ
current_grafts gs p =
    keep (λ topic. elim (lookup topic gs.mesh) [ none ↦ false | some peers ↦ member p peers ])

unfoldable pub current_prunes : Router → ℕ → List ControlPrune → List ControlPrune
current_prunes gs p = keep (λ prune. elim (lookup prune.topic_id gs.mesh) [
  | none ↦ true
  | some peers ↦ not (member p peers)
])

abbrev pub empty_control : ControlMessage
empty_control = record { ihave = []; iwant = []; graft = []; prune = []; idontwant = [] }

-- `none` is an RPC without a control message.
abbrev pub control_or_empty : Option ControlMessage → ControlMessage
control_or_empty none = empty_control
control_or_empty (some ctl) = ctl

unfoldable pub piggyback_control :
    Router → ℕ → Option ControlMessage → ControlMessage → Option ControlMessage
unfolding current_grafts current_prunes
piggyback_control gs p out ctl =
    let tograft = current_grafts gs p ctl.graft in
    let toprune = current_prunes gs p ctl.prune in
    let xctl = control_or_empty out in
    if length tograft == 0 && length toprune == 0
    then out
    else some (record xctl { graft = xctl.graft ++ tograft; prune = xctl.prune ++ toprune })

unfoldable pub piggyback_gossip : Option ControlMessage → List ControlIHave → Option ControlMessage
piggyback_gossip out ihave = let ctl = control_or_empty out in some (record ctl { ihave = ihave })

-- The first part of `sendRPC`: the control message that goes ahead of the RPC.
unfoldable pub take_control : Router → ℕ → Option ControlMessage × Router
unfolding piggyback_control
take_control gs p = elim (lookup p gs.control) [
  | none ↦ (none, gs)
  | some ctl ↦ (piggyback_control gs p none ctl, record gs { control = delete p gs.control })
]

unfoldable pub take_gossip : Option ControlMessage → Router → ℕ → Option ControlMessage × Router
unfolding piggyback_gossip
take_gossip out gs p = elim (lookup p gs.gossip) [
  | none ↦ (out, gs)
  | some ihave ↦ (piggyback_gossip out ihave, record gs { gossip = delete p gs.gossip })
]

unfoldable pub take_pending : Router → ℕ → Option ControlMessage × Router
unfolding take_control take_gossip
take_pending gs p = let (out, gs1) = take_control gs p in take_gossip out gs1 p
