-- ===== src/Router/Graft.antt =====
-- gossipsub.go: `handleGraft`, which takes a peer into the mesh of the topics that it asks for, or
-- answers by a PRUNE.
pub mod Admission
pub mod Backoffs
pub mod Replies
use go_libp2p_pubsub.Prelude.{
  ℕ, ◌+◌, Bool, true, false, not, ◌&&◌, List, [], ◌∷◌, ◌++◌, Option, none, some, map, lookup,
  lookup_or, insert, length, ltb, leb, member, add, if◌then◌else◌,
}
use go_libp2p_pubsub.Router.Env.{Params, Scores, ControlMessage, ControlPrune, Router, Env}
use go_libp2p_pubsub.Router.Backoff.{until, add_backoff}
use go_libp2p_pubsub.Router.Peers.{make_prune}

-- `score.AddPenalty(p, count)`.
unfoldable pub add_penalty : ℕ → ℕ → Router → Router
add_penalty p count gs = record gs {
  penalties = insert p (lookup_or 0 p gs.penalties + count) gs.penalties;
}

-- The loop's state: the router, `doPX`, and the topics to prune.
pub record Grafting : Type 0 where
  pub gs : Router
  pub do_px : Bool
  pub refused : List ℕ

-- Whether a backoff is running.
abbrev pub is_backed_off : ℕ → Option ℕ → Bool
is_backed_off now none = false
is_backed_off now (some expire) = ltb now expire

-- Whether a GRAFT comes before `expire + GraftFloodThreshold - PruneBackoff`.
abbrev pub is_flood : Params → ℕ → Option ℕ → Bool
is_flood params now none = false
is_flood params now (some expire) =
    ltb (now + params.prune_backoff) (expire + params.graft_flood_threshold)

module _ (s : Scores) where
  -- A refusal: the topic is to be pruned, the backoff is refreshed, and the peer exchange stays or
  -- goes.
  refuse : Params → Env s → ℕ → ℕ → Bool → Grafting → Grafting
  refuse params env p topic px g =
      let gs = g.gs in
      record {
        gs = record gs { backoff = add_backoff params env.now gs.backoff p topic false };
        do_px = px;
        refused = g.refused ++ topic ∷ [];
      }

  -- A GRAFT for a topic whose mesh we have, from a peer that is not in it and not direct.
  graft_stranger : Params → Env s → ℕ → ℕ → List ℕ → Grafting → Grafting
  unfolding refuse add_penalty
  graft_stranger params env p topic peers g =
      let gs = g.gs in
      let expire = until gs.backoff topic p in
      let once = record g { gs = add_penalty p 1 gs } in
      let twice = record g { gs = add_penalty p 1 (add_penalty p 1 gs) } in
      if is_backed_off env.now expire
      then refuse params env p topic false (if is_flood params env.now expire then twice else once)
      else if s.lt (env.score p) s.zero_score
      then refuse params env p topic false g
      else if leb params.d_hi (length peers) && not (lookup_or false p gs.outbound)
      then refuse params env p topic g.do_px g
      else record g {
        gs = record gs {
          mesh = insert topic (add p peers) gs.mesh;
          grafted = (p, topic) ∷ gs.grafted;
        };
      }

  graft_known : Params → Env s → ℕ → ℕ → List ℕ → Grafting → Grafting
  unfolding graft_stranger
  graft_known params env p topic peers g =
      if member p peers
      then g
      else if member p g.gs.direct
      then record g { do_px = false; refused = g.refused ++ topic ∷ [] }
      else graft_stranger params env p topic peers g

  unfoldable pub graft_topic : Params → Env s → ℕ → ℕ → Grafting → Grafting
  unfolding graft_known
  graft_topic params env p topic g =
      if env.peer_filter p topic
      then elim (lookup topic g.gs.mesh) [
        | none ↦ record g { do_px = false }
        | some peers ↦ graft_known params env p topic peers g
      ]
      else g

  unfoldable pub graft_topics : Params → Env s → ℕ → List ℕ → Grafting → Grafting
  unfolding graft_topic
  graft_topics params env p [] g = g
  graft_topics params env p (topic ∷ topics) g =
      graft_topics params env p topics (graft_topic params env p topic g)

  -- The PRUNEs to answer with, and the new state.
  unfoldable pub handle_graft :
      Params → Env s → Router → ℕ → ControlMessage → List ControlPrune × Router
  unfolding graft_topics make_prune
  handle_graft params env gs p ctl =
      let g : Grafting =
        graft_topics params env p ctl.graft (record { gs = gs; do_px = gs.do_px; refused = [] }) in
      (map (λ topic. make_prune s params env g.gs p topic g.do_px false) g.refused, g.gs)
