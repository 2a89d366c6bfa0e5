-- ===== src/Router/Heartbeat.antt =====
-- gossipsub.go: how `heartbeat` maintains the mesh of one topic, up to `emitGossip`.
pub mod Bubble
pub mod Trim
pub mod Mesh
pub mod Tests
use go_libp2p_pubsub.Prelude.{
  ℕ, zero, suc, ◌-◌, ◌/◌, ◌%◌, Bool, true, false, not, ◌&&◌, List, [], ◌∷◌, ◌++◌, Option, none,
  some, Map, lookup_or, insert, has, length, member, remove, add, count_of, get_elem?, take, drop,
  ltb, leb, ◌==◌, if◌then◌else◌,
}
use go_libp2p_pubsub.Shuffle.{shuffle}
use go_libp2p_pubsub.Router.Env.{Params, Scores, Router, Env}
use go_libp2p_pubsub.Router.Backoff.{add_backoff}
use go_libp2p_pubsub.Router.Peers.{get_peers}

-- What one heartbeat draws and is configured with, beside `Env` and `Params`. `sort_by less` is
-- `sort.Slice`, `ticks` counts the heartbeats, and the draws are those of each shuffle.
pub record Beat (s : Scores) : Type 0 where
  pub sort_by : (ℕ → ℕ → Bool) → List ℕ → List ℕ
  pub ticks : ℕ
  pub opportunistic_graft_ticks : ℕ
  pub opportunistic_graft_peers : ℕ
  pub opportunistic_graft_threshold : s.Score
  pub low_draws : ℕ → ℕ
  pub order_draws : ℕ → ℕ
  pub tail_draws : ℕ → ℕ
  pub out_draws : ℕ → ℕ
  pub graft_draws : ℕ → ℕ

-- The router, and the maps that `sendGraftPrune` gets, to which a heartbeat adds.
pub record Upkeep : Type 0 where
  pub gs : Router
  pub to_graft : Map (List ℕ)
  pub to_prune : Map (List ℕ)
  pub no_px : List ℕ

abbrev pub is_outbound : Router → ℕ → Bool
is_outbound gs p = lookup_or false p gs.outbound

-- `rotate`: the `i`-th peer goes to the front.
unfoldable pub rotate : ℕ → List ℕ → List ℕ
rotate i plst = elim (get_elem? plst i) [
  | none ↦ plst
  | some p ↦ p ∷ take i plst ++ drop (suc i) plst
]

-- Both loops that bubble up outbound peers: `rounds` indices from `i` on, at most `need` of them.
unfoldable pub bubble : (ℕ → Bool) → ℕ → ℕ → ℕ → List ℕ → List ℕ
unfolding rotate
bubble outbound zero i need plst = plst
bubble outbound (suc rounds) i zero plst = plst
bubble outbound (suc rounds) i (suc need) plst = elim (get_elem? plst i) [
  | none ↦ plst
  | some p ↦ elim (outbound p) [
    | true ↦ bubble outbound rounds (suc i) need (rotate i plst)
    | false ↦ bubble outbound rounds (suc i) (suc need) plst
  ]
]

-- The peers of a mesh that is too large, of which the first `d` are kept.
unfoldable pub bubble_up : Params → (ℕ → Bool) → List ℕ → List ℕ
unfolding bubble
bubble_up params outbound plst =
    let have = count_of outbound (take params.d plst) in
    let inside = bubble outbound (params.d - 1) 1 have plst in
    if ltb have params.d_out
    then bubble outbound (length plst - params.d) params.d (params.d_out - have) inside
    else plst

module _ (s : Scores) where
  -- `prunePeer` and `graftPeer`.
  unfoldable pub prune_peer : Params → Env s → ℕ → Upkeep → ℕ → Upkeep
  prune_peer params env topic u p = record u {
    gs = record u.gs {
      mesh = insert topic (remove p (lookup_or [] topic u.gs.mesh)) u.gs.mesh;
      backoff = add_backoff params env.now u.gs.backoff p topic false;
      pruned = (p, topic) ∷ u.gs.pruned;
    };
    to_prune = insert p (lookup_or [] p u.to_prune ++ topic ∷ []) u.to_prune;
  }

  unfoldable pub graft_peer : ℕ → Upkeep → ℕ → Upkeep
  graft_peer topic u p = record u {
    gs = record u.gs {
      mesh = insert topic (add p (lookup_or [] topic u.gs.mesh)) u.gs.mesh;
      grafted = (p, topic) ∷ u.gs.grafted;
    };
    to_graft = insert p (lookup_or [] p u.to_graft ++ topic ∷ []) u.to_graft;
  }

  unfoldable pub prune_each : Params → Env s → ℕ → Upkeep → List ℕ → Upkeep
  unfolding prune_peer
  prune_each params env topic u [] = u
  prune_each params env topic u (p ∷ ps) =
      prune_each params env topic (prune_peer params env topic u p) ps

  unfoldable pub graft_each : ℕ → Upkeep → List ℕ → Upkeep
  unfolding graft_peer
  graft_each topic u [] = u
  graft_each topic u (p ∷ ps) = graft_each topic (graft_peer topic u p) ps

  -- `for p := range peers`, of which the negative ones go.
  unfoldable pub prune_negative : Params → Env s → ℕ → List ℕ → Upkeep → Upkeep
  unfolding prune_peer
  prune_negative params env topic [] u = u
  prune_negative params env topic (p ∷ ps) u = prune_negative params env topic ps (
      if s.lt (env.score p) s.zero_score
      then (let u' = prune_peer params env topic u p in record u' { no_px = add p u'.no_px })
      else u)

  -- The peers that the filters of the three calls of `getPeers` have in common.
  abbrev pub is_candidate : Router → ℕ → ℕ → Bool
  is_candidate gs topic p =
      not (member p (lookup_or [] topic gs.mesh))
      && not (has p (lookup_or [] topic gs.backoff))
      && not (member p gs.direct)

  unfoldable pub graft_some : Env s → ℕ → (ℕ → ℕ) → ℕ → (ℕ → Bool) → Upkeep → Upkeep
  unfolding graft_each
  graft_some env topic draws count good u =
      graft_each topic u
        (get_peers s env u.gs draws topic count (λ p. is_candidate u.gs topic p && good p))

  unfoldable pub fill_mesh : Params → Env s → Beat s → ℕ → Upkeep → Upkeep
  unfolding graft_some
  fill_mesh params env beat topic u =
      let l = length (lookup_or [] topic u.gs.mesh) in
      if ltb l params.d_lo
      then graft_some env topic beat.low_draws (params.d - l) (λ p. s.ge (env.score p) s.zero_score)
          u
      else u

  -- The order in which the peers of a mesh that is too large are kept.
  unfoldable pub ranked : Params → Env s → Beat s → List ℕ → List ℕ
  ranked params env beat peers =
      let plst =
        beat.sort_by (λ a b. s.lt (env.score b) (env.score a)) (shuffle beat.order_draws peers) in
      take params.d_score plst ++ shuffle beat.tail_draws (drop params.d_score plst)

  unfoldable pub trim_mesh : Params → Env s → Beat s → ℕ → Upkeep → Upkeep
  unfolding ranked bubble_up prune_each
  trim_mesh params env beat topic u =
      let peers = lookup_or [] topic u.gs.mesh in
      let plst = bubble_up params (is_outbound u.gs) (ranked params env beat peers) in
      if leb params.d_hi (length peers)
      then prune_each params env topic u (drop params.d plst)
      else u

  unfoldable pub fill_outbound : Params → Env s → Beat s → ℕ → Upkeep → Upkeep
  unfolding graft_some
  fill_outbound params env beat topic u =
      let peers = lookup_or [] topic u.gs.mesh in
      let outbound = count_of (is_outbound u.gs) peers in
      if leb params.d_lo (length peers) && ltb outbound params.d_out
      then graft_some env topic beat.out_draws (params.d_out - outbound)
          (λ p. is_outbound u.gs p && s.ge (env.score p) s.zero_score) u
      else u

  -- The median's index is in range, since the mesh has a peer.
  unfoldable pub graft_opportunistically : Env s → Beat s → ℕ → Upkeep → Upkeep
  unfolding graft_some
  graft_opportunistically env beat topic u =
      let peers = lookup_or [] topic u.gs.mesh in
      let plst = beat.sort_by (λ a b. s.lt (env.score a) (env.score b)) peers in
      if beat.ticks % beat.opportunistic_graft_ticks == 0 && ltb 1 (length peers)
      then elim (get_elem? plst (length peers / 2)) [
        | none ↦ u
        | some median ↦
            if s.lt (env.score median) beat.opportunistic_graft_threshold
            then graft_some env topic beat.graft_draws beat.opportunistic_graft_peers
                (λ p. s.lt (env.score median) (env.score p)) u
            else u
      ]
      else u

  unfoldable pub maintain_mesh : Params → Env s → Beat s → ℕ → Upkeep → Upkeep
  unfolding prune_negative fill_mesh trim_mesh fill_outbound graft_opportunistically
  maintain_mesh params env beat topic u = graft_opportunistically env beat topic (
      fill_outbound params env beat topic (
        trim_mesh params env beat topic (
          fill_mesh params env beat topic
            (prune_negative params env topic (lookup_or [] topic u.gs.mesh) u))))
