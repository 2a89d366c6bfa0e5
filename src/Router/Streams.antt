-- ===== src/Router/Streams.antt =====
-- gossipsub.go: `OnNewOutboundStream`, `OnClosedOutboundStream` and `AcceptFrom`.
use go_libp2p_pubsub.Prelude.{
  ℕ, Bool, List, [], ◌∷◌, Map, insert, delete, member, remove, if◌then◌else◌,
}
use go_libp2p_pubsub.Router.Env.{Scores, Router, Env}

pub data AcceptStatus : Type 0 where
  accept_none accept_control accept_all : AcceptStatus

-- `outbound` says whether we opened a connection to the peer that has a stream of the protocol.
unfoldable pub on_new_outbound_stream : Router → ℕ → ℕ → Bool → Router
on_new_outbound_stream gs p proto outbound = record gs {
  peers = insert p proto gs.peers;
  outbound = insert p outbound gs.outbound;
}

-- `for _, peers := range gs.mesh { delete(peers, p) }`.
unfoldable pub remove_everywhere : ℕ → Map (List ℕ) → Map (List ℕ)
remove_everywhere p [] = []
remove_everywhere p ((topic, peers) ∷ rest) = (topic, remove p peers) ∷ remove_everywhere p rest

unfoldable pub on_closed_outbound_stream : Router → ℕ → Router
unfolding remove_everywhere
on_closed_outbound_stream gs p = record gs {
  peers = delete p gs.peers;
  mesh = remove_everywhere p gs.mesh;
  fanout = remove_everywhere p gs.fanout;
  gossip = delete p gs.gossip;
  control = delete p gs.control;
  outbound = delete p gs.outbound;
  unwanted = delete p gs.unwanted;
}

module _ (s : Scores) where
  open s use {Score, lt}

  -- `gate` is what the peer gater answers.
  unfoldable pub accept_from : Env s → Score → AcceptStatus → Router → ℕ → AcceptStatus
  accept_from env graylist_threshold gate gs p =
      if member p gs.direct
      then accept_all
      else if lt (env.score p) graylist_threshold
      then accept_none
      else gate
