-- ===== src/Router/Membership.antt =====
-- gossipsub.go: `Join` and `Leave`, with what they send. GRAFTs are the peers that they go to, and
-- PRUNEs stand with their peer.
pub mod Lists
pub mod Meshes
pub mod Tests
use go_libp2p_pubsub.Prelude.{
  ℕ, ◌+◌, ◌-◌, Bool, true, false, not, ◌&&◌, ◌||◌, List, [], ◌∷◌, ◌++◌, Option, none, some, lookup,
  lookup_or, insert, delete, has, length, keep, member, add, ltb, if◌then◌else◌,
}
use go_libp2p_pubsub.Router.Env.{Params, Scores, ControlPrune, Router, Env}
use go_libp2p_pubsub.Router.Backoff.{add_backoff}
use go_libp2p_pubsub.Router.Peers.{get_peers, make_prune}

abbrev pub add_all : List ℕ → List ℕ → List ℕ
add_all [] gmap = gmap
add_all (p ∷ peers) gmap = add_all peers (add p gmap)

module _ (s : Scores) where
  -- The fanout peers that are good enough for a mesh.
  unfoldable pub good_fanout : Env s → Router → ℕ → List ℕ → List ℕ
  good_fanout env gs topic =
      keep (λ p. not (s.lt (env.score p) s.zero_score || has p (lookup_or [] topic gs.backoff)))

  unfoldable pub mesh_from_fanout : Params → Env s → Router → ℕ → List ℕ → List ℕ
  unfolding good_fanout
  mesh_from_fanout params env gs topic fanout =
      let gmap = good_fanout env gs topic fanout in
      if ltb (length gmap) params.d
      then add_all
          (get_peers s env gs (env.topic_draws topic) topic (params.d - length gmap) (λ p.
            not (member p gmap)
            && not (member p gs.direct)
            && not (has p (lookup_or [] topic gs.backoff))
            && s.ge (env.score p) s.zero_score))
          gmap
      else gmap

  unfoldable pub fresh_mesh : Params → Env s → Router → ℕ → List ℕ
  fresh_mesh params env gs topic =
      add_all
        (get_peers s env gs (env.topic_draws topic) topic params.d (λ p.
          not (member p gs.direct)
          && not (has p (lookup_or [] topic gs.backoff))
          && s.ge (env.score p) s.zero_score))
        []

  -- `tracer.Graft` and `sendGraft` for each peer of the new mesh.
  pub graft_all : ℕ → List ℕ → Router → Router
  graft_all topic [] gs = gs
  graft_all topic (p ∷ peers) gs =
      graft_all topic peers (record gs { grafted = (p, topic) ∷ gs.grafted })

  -- The peers that a GRAFT of the topic is sent to, and the new state.
  unfoldable pub join : Params → Env s → Router → ℕ → List ℕ × Router
  unfolding mesh_from_fanout fresh_mesh graft_all
  join params env gs topic = if has topic gs.mesh then ([], gs) else elim (lookup topic gs.fanout) [
    | some fanout ↦
        let gmap = mesh_from_fanout params env gs topic fanout in
        (
          gmap,
          graft_all topic gmap (record gs {
            mesh = insert topic gmap gs.mesh;
            fanout = delete topic gs.fanout;
            lastpub = delete topic gs.lastpub;
          }),
        )
    | none ↦
        let gmap = fresh_mesh params env gs topic in
        (gmap, graft_all topic gmap (record gs { mesh = insert topic gmap gs.mesh }))
  ]

  -- `tracer.Prune`, `sendPrune` and `addBackoff` for each peer of the old mesh.
  unfoldable pub leave_peers :
      Params
      → Env s
      → ℕ
      → List ℕ
      → Router
      → List (ℕ × ControlPrune)
      → List (ℕ × ControlPrune) × Router
  leave_peers params env topic [] gs sent = (sent, gs)
  leave_peers params env topic (p ∷ peers) gs sent =
      leave_peers params env topic peers
        (record gs {
          pruned = (p, topic) ∷ gs.pruned;
          backoff = add_backoff params env.now gs.backoff p topic true;
        })
        (sent ++ (p, make_prune s params env gs p topic gs.do_px true) ∷ [])

  unfoldable pub leave : Params → Env s → Router → ℕ → List (ℕ × ControlPrune) × Router
  unfolding leave_peers
  leave params env gs topic = elim (lookup topic gs.mesh) [
    | none ↦ ([], gs)
    | some gmap ↦ leave_peers params env topic gmap (record gs { mesh = delete topic gs.mesh }) []
  ]
