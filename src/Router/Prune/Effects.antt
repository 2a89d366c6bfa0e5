-- ===== src/Router/Prune/Effects.antt =====
-- What `handlePrune` leaves behind: the meshes, the backoffs, and what the peer exchange offers.
use Prim.Native.Nat.{max}
use go_libp2p_pubsub.Prelude.{
  ℕ, zero, suc, ◌*◌, ◌%◌, ◌^◌, ◌≤◌, ◌≡◌, refl, ap, inl, inr, ◌∙◌, true, not, ◌&&◌, List, [], ◌∷◌,
  some, map, lookup, lookup-insert, has, length, ltb, member, remove, if◌then◌else◌, Bool-cases,
  Option-cases, get_elem?, ◌==◌, arith, get_or_else,
}
use go_libp2p_pubsub.Router.Env.{Params, Scores, ControlMessage, ControlPrune, Router, Env}
use go_libp2p_pubsub.Router.Backoff.{until, time_add, add_backoff, until-do_add_backoff}
use go_libp2p_pubsub.Router.Peers.{second}
use go_libp2p_pubsub.Router.Graft.Admission.{mesh_of}
use go_libp2p_pubsub.Router.Prune.{
  px_connect, asked_interval, unlink, exchange, prune_topic, prune_topics, handle_prune,
}

module _ (s : Scores) (params : Params) (env : Env s) (p : ℕ) where
  exchange-keeps :
      (prune : ControlPrune) (gs : Router)
      → ((exchange s params env p prune gs).mesh ≡ gs.mesh)
        × ((exchange s params env p prune gs).backoff ≡ gs.backoff)
  unfolding exchange px_connect
  exchange-keeps prune gs =
      elim (Bool-cases
        (ltb 0 (length prune.peers) && not (s.lt (env.score p) env.accept_px_threshold))) [
          | inl taken ↦ rw (taken, exchange) (refl, refl)
          | inr ignored ↦ rw (ignored, exchange) (refl, refl)
        ]

  prune_topic-mesh :
      (prune : ControlPrune) (gs : Router) (t : ℕ)
      → (has t (prune_topic s params env p prune gs).mesh ≡ has t gs.mesh)
        × (mesh_of (prune_topic s params env p prune gs) t
            ≡ (if prune.topic_id == t then remove p (mesh_of gs t) else mesh_of gs t))
  unfolding prune_topic unlink
  prune_topic-mesh prune gs t = elim (Option-cases (lookup prune.topic_id gs.mesh)) [
    | inl miss ↦ rw (miss, prune_topic) (refl, ground arith)
    | inr (peers, hit) ↦
        rw (hit, prune_topic)
          (rw ((exchange-keeps prune (unlink s params env p prune peers gs)).0) (
            ground (arith, lookup-insert prune.topic_id t (remove p peers) gs.mesh),
            ground (arith, lookup-insert prune.topic_id t (remove p peers) gs.mesh),
          ))
  ]

  -- A PRUNE of a topic whose mesh we have backs its sender off from it, and nobody else.
  prune_topic-backoff :
      (prune : ControlPrune) (gs : Router) (t k : ℕ)
      → until (prune_topic s params env p prune gs).backoff t k ≡ (
          if has t gs.mesh && (prune.topic_id == t) && (p == k)
          then some (
              max
                (time_add env.now (asked_interval s params prune))
                (get_or_else (until gs.backoff t k) 0))
          else until gs.backoff t k)
  unfolding prune_topic unlink add_backoff
  prune_topic-backoff prune gs t k = elim (Option-cases (lookup prune.topic_id gs.mesh)) [
    | inl miss ↦ rw (miss, prune_topic) (ground arith)
    | inr (peers, hit) ↦
        rw (hit, prune_topic)
          (rw ((exchange-keeps prune (unlink s params env p prune peers gs)).1) (
            ground (
              arith,
              until-do_add_backoff env.now gs.backoff p prune.topic_id
                  (prune.backoff * second % 2 ^ 64) t k,
              until-do_add_backoff env.now gs.backoff p prune.topic_id params.prune_backoff t k,
            )))
  ]

  remove-remove : (xs : List ℕ) → remove p (remove p xs) ≡ remove p xs
  remove-remove [] = refl
  remove-remove (x ∷ xs) = ground (arith, remove-remove xs)

  prune_topics-mesh :
      (prunes : List ControlPrune) (gs : Router) (t : ℕ)
      → (has t (prune_topics s params env p prunes gs).mesh ≡ has t gs.mesh)
        × (mesh_of (prune_topics s params env p prunes gs) t ≡ (
            if member t (map ControlPrune.topic_id prunes)
            then remove p (mesh_of gs t)
            else mesh_of gs t))
  unfolding prune_topics
  prune_topics-mesh [] gs t = (refl, refl)
  prune_topics-mesh (prune ∷ prunes) gs t =
      let gs1 = prune_topic s params env p prune gs in
      let (h, m) = prune_topic-mesh prune gs t in
      let (h', m') = prune_topics-mesh prunes gs1 t in
      (h' ∙ h, m' ∙ ground (arith, m, ap (remove p) m, remove-remove (mesh_of gs t)))

  pub prune_topics-backoff-le :
      (prunes : List ControlPrune) (gs : Router) (t k : ℕ)
      → get_or_else (until gs.backoff t k) 0
        ≤ get_or_else (until (prune_topics s params env p prunes gs).backoff t k) 0
  unfolding prune_topics
  prune_topics-backoff-le [] gs t k = omega arith
  prune_topics-backoff-le (pr ∷ prunes) gs t k =
      let gs1 = prune_topic s params env p pr gs in
      ground (arith, prune_topics-backoff-le prunes gs1 t k, prune_topic-backoff pr gs t k)

  pub prune_topics-backs_off :
      (prunes : List ControlPrune) (gs : Router) (i : ℕ) (prune : ControlPrune)
      → get_elem? prunes i ≡ some prune
      → has prune.topic_id gs.mesh ≡ true
      → time_add env.now (asked_interval s params prune)
        ≤ get_or_else (until (prune_topics s params env p prunes gs).backoff prune.topic_id p) 0
  unfolding prune_topics
  prune_topics-backs_off [] gs i prune at known = absurd (ground arith)
  prune_topics-backs_off (pr ∷ prunes) gs zero prune at known =
      let gs1 = prune_topic s params env p prune gs in
      let same : pr ≡ prune = ground arith in
      rw same (
        ground (
          arith,
          prune_topic-backoff prune gs prune.topic_id p,
          prune_topics-backoff-le prunes gs1 prune.topic_id p,
        ))
  prune_topics-backs_off (pr ∷ prunes) gs (suc i) prune at known =
      let gs1 = prune_topic s params env p pr gs in
      prune_topics-backs_off prunes gs1 i prune at
        ((prune_topic-mesh pr gs prune.topic_id).0 ∙ known)

-- PRUNEs from `p` take `p` out of the mesh of every topic that they name, and change nothing else
-- about the meshes: no other peer leaves, and the other topics keep theirs.
pub handle_prune-mesh :
    (s : Scores) (params : Params) (env : Env s) (gs : Router) (p : ℕ) (ctl : ControlMessage)
    (t : ℕ)
    → mesh_of (handle_prune s params env gs p ctl) t ≡ (
        if member t (map ControlPrune.topic_id ctl.prune)
        then remove p (mesh_of gs t)
        else mesh_of gs t)
unfolding handle_prune
handle_prune-mesh s params env gs p ctl t = (prune_topics-mesh s params env p ctl.prune gs t).1
