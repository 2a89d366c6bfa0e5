-- ===== src/Router/Prune.antt =====
-- gossipsub.go: `handlePrune`, by which a peer leaves our mesh, and `pxConnect`.
pub mod Effects
pub mod KeptOut
pub mod Exchange
use go_libp2p_pubsub.Prelude.{
  ℕ, ◌*◌, ◌%◌, ◌^◌, ◌&&◌, Bool, true, false, not, List, [], ◌∷◌, Option, none, some, lookup,
  lookup_or, insert, has, length, take, remove, ltb, ◌==◌, if◌then◌else◌,
}
use go_libp2p_pubsub.Shuffle.{shuffle}
use go_libp2p_pubsub.Router.Env.{
  Params, Scores, PeerInfo, ControlMessage, ControlPrune, Router, Env,
}
use go_libp2p_pubsub.Router.Backoff.{do_add_backoff, add_backoff}
use go_libp2p_pubsub.Router.Peers.{second}

module _ (s : Scores) where
  -- A peer to connect to: one that is not connected, with its record if it has one, which has to be
  -- accepted by `ConsumeEnvelope` and to name the peer.
  px_offer : Env s → Router → PeerInfo → Option (ℕ × Option ℕ)
  px_offer env gs pi = if has pi.peer_id gs.peers then none else elim pi.signed_peer_record [
    | none ↦ some (pi.peer_id, none)
    | some spr ↦ elim (env.consume_envelope spr) [
      | none ↦ none
      | some none ↦ none
      | some (some rec) ↦ if rec == pi.peer_id then some (pi.peer_id, some spr) else none
    ]
  ]

  to_connect : Env s → Router → List PeerInfo → List (ℕ × Option ℕ)
  unfolding px_offer
  to_connect env gs [] = []
  to_connect env gs (pi ∷ peers) = elim (px_offer env gs pi) [
    | none ↦ to_connect env gs peers
    | some ci ↦ ci ∷ to_connect env gs peers
  ]

  offer_all : Env s → List (ℕ × Option ℕ) → List (ℕ × Option ℕ) → List (ℕ × Option ℕ)
  offer_all env [] connects = connects
  offer_all env (ci ∷ cis) connects =
      offer_all env cis (if env.has_room ci.0 then ci ∷ connects else connects)

  px_connect : Params → Env s → Router → (ℕ → ℕ) → List PeerInfo → Router
  unfolding to_connect offer_all
  px_connect params env gs draws peers =
      let kept =
        if ltb params.prune_peers (length peers)
        then take params.prune_peers (shuffle draws peers)
        else peers in
      record gs { connects = offer_all env (to_connect env gs kept) gs.connects }

  -- Until when a PRUNE asks to be backed off: the product of the seconds it gives wraps around.
  abbrev pub asked_interval : Params → ControlPrune → ℕ
  asked_interval params prune =
      if ltb 0 prune.backoff then prune.backoff * second % 2 ^ 64 else params.prune_backoff

  -- A PRUNE of a topic whose mesh we have, up to the peer exchange.
  unlink : Params → Env s → ℕ → ControlPrune → List ℕ → Router → Router
  unlink params env p prune peers gs =
      let topic = prune.topic_id in
      record gs {
        pruned = (p, topic) ∷ gs.pruned;
        mesh = insert topic (remove p peers) gs.mesh;
        backoff =
            if ltb 0 prune.backoff
            then do_add_backoff env.now gs.backoff p topic (prune.backoff * second % 2 ^ 64)
            else add_backoff params env.now gs.backoff p topic false;
      }

  exchange : Params → Env s → ℕ → ControlPrune → Router → Router
  unfolding px_connect
  exchange params env p prune gs =
      if ltb 0 (length prune.peers) && not (s.lt (env.score p) env.accept_px_threshold)
      then px_connect params env gs (env.topic_draws prune.topic_id) prune.peers
      else gs

  unfoldable pub prune_topic : Params → Env s → ℕ → ControlPrune → Router → Router
  unfolding exchange unlink
  prune_topic params env p prune gs = elim (lookup prune.topic_id gs.mesh) [
    | none ↦ gs
    | some peers ↦ exchange params env p prune (unlink params env p prune peers gs)
  ]

  unfoldable pub prune_topics : Params → Env s → ℕ → List ControlPrune → Router → Router
  unfolding prune_topic
  prune_topics params env p [] gs = gs
  prune_topics params env p (prune ∷ prunes) gs =
      prune_topics params env p prunes (prune_topic params env p prune gs)

  unfoldable pub handle_prune : Params → Env s → Router → ℕ → ControlMessage → Router
  unfolding prune_topics
  handle_prune params env gs p ctl = prune_topics params env p ctl.prune gs
