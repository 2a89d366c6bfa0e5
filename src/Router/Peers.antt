-- ===== src/Router/Peers.antt =====
-- gossipsub.go: `getPeers`, which picks peers of a topic at random, and `makePrune`.
use go_libp2p_pubsub.Prelude.{
  ℕ, ◌/◌, ◌≤◌, ◌<◌, ◌≡◌, inl, inr, Bool, true, not, ◌&&◌, List, [], ◌∷◌, none, some, Option-cases,
  lookup, lookup_or, keep, length, length-take, take, ltb, if◌then◌else◌, ◌==◌, member, member-keep,
  member-take, arith,
}
use go_libp2p_pubsub.Shuffle.{shuffle}
use go_libp2p_pubsub.Shuffle.Counts.{member-shuffle}
use go_libp2p_pubsub.Router.Env.{Params, Scores, ControlPrune, PeerInfo, Router, Env}

abbrev pub second : ℕ
second = 1_000_000_000

-- The protocol of a peer, 0 for one that is not connected.
abbrev pub protocol_of : Router → ℕ → ℕ
protocol_of gs p = lookup_or 0 p gs.peers

abbrev pub truncated : ℕ → List ℕ → List ℕ
truncated count peers = if ltb 0 count && ltb count (length peers) then take count peers else peers

module _ (s : Scores) where
  unfoldable pub get_peers : Env s → Router → (ℕ → ℕ) → ℕ → ℕ → (ℕ → Bool) → List ℕ
  get_peers env gs draws topic count filter = elim (lookup topic env.topics) [
    | none ↦ []
    | some tmap ↦ truncated count (
        shuffle draws (
          keep (λ p. env.feature_mesh (protocol_of gs p) && filter p && env.peer_filter p topic)
            tmap))
  ]

  reduce_all : Env s → List PeerInfo → List ℕ → List PeerInfo
  reduce_all env px [] = px
  reduce_all env px (p ∷ peers) = reduce_all env (env.reduce_px_records px p) peers

  unfoldable pub make_prune : Params → Env s → Router → ℕ → ℕ → Bool → Bool → ControlPrune
  unfolding get_peers reduce_all
  make_prune params env gs p topic do_px is_unsubscribe =
      let wait = if is_unsubscribe then params.unsubscribe_backoff else params.prune_backoff in
      let px =
        get_peers env gs (env.topic_draws topic) topic params.prune_peers
          (λ xp. not (p == xp) && s.ge (env.score xp) s.zero_score) in
      if env.feature_px (protocol_of gs p)
      then record {
        topic_id = topic;
        peers = (if do_px then reduce_all env [] px else []);
        backoff = wait / second;
      }
      else record { topic_id = topic; peers = []; backoff = 0 }

module _ (s : Scores) (env : Env s) (gs : Router) (draws : ℕ → ℕ) (topic count : ℕ)
    (filter : ℕ → Bool) where
  -- Every peer that is picked is in the topic, speaks a mesh protocol, and passes the filter given
  -- and the peer filter.
  pub member-get_peers :
      (k : ℕ)
      → member k (get_peers s env gs draws topic count filter) ≡ true
      → (member k (lookup_or [] topic env.topics) ≡ true)
        × (env.feature_mesh (protocol_of gs k) ≡ true)
        × (filter k ≡ true)
        × (env.peer_filter k topic ≡ true)
  unfolding get_peers
  member-get_peers k h = elim (Option-cases (lookup topic env.topics)) [
    | inl miss ↦ absurd (ground arith)
    | inr (tmap, hit) ↦
        let able =
          λ (p : ℕ). env.feature_mesh (protocol_of gs p) && filter p && env.peer_filter p topic in
        ground (
          arith,
          hit,
          member-take count k (shuffle draws (keep able tmap)),
          member-shuffle draws k (keep able tmap),
          member-keep able k tmap,
        )
  ]

  -- No more are picked than asked for, where 0 asks for all.
  pub length-get_peers : 0 < count → length (get_peers s env gs draws topic count filter) ≤ count
  unfolding get_peers
  length-get_peers pos = elim (Option-cases (lookup topic env.topics)) [
    | inl miss ↦ ground arith
    | inr (tmap, hit) ↦
        let able =
          λ (p : ℕ). env.feature_mesh (protocol_of gs p) && filter p && env.peer_filter p topic in
        ground (arith, hit, length-take count (shuffle draws (keep able tmap)))
  ]
