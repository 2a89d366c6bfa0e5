-- ===== src/Router/Heartbeat/Tests.antt =====
-- The upkeep of a mesh at concrete inputs.
use Prim.Native.Nat.{min}
use go_libp2p_pubsub.Prelude.{
  ℕ, ◌≤◌, ◌≡◌, refl, ◌⊎◌, true, false, List, [], ◌∷◌, length, IsDistinct, count_of, member,
  get_or_else, arith,
}
use go_libp2p_pubsub.Router.Example.{scores, params, env, router}
use go_libp2p_pubsub.Router.Backoff.{until, time_add}
use go_libp2p_pubsub.Router.Peers.{get_peers}
use go_libp2p_pubsub.Shuffle.{shuffle}
use go_libp2p_pubsub.Router.Graft.Admission.{mesh_of}
use go_libp2p_pubsub.Router.Heartbeat.{
  Beat, Upkeep, is_outbound, trim_mesh, maintain_mesh, bubble_up,
}
use go_libp2p_pubsub.Router.Heartbeat.Trim.{Permutes, trim_mesh-keeps}
use go_libp2p_pubsub.Router.Heartbeat.Mesh.{IsTransitive, is_negative, IsFresh, maintain_mesh_sound}

-- Sorting leaves the order as it is.
abbrev beat : Beat scores
beat = record {
  sort_by = (λ less xs. xs);
  ticks = 60;
  opportunistic_graft_ticks = 60;
  opportunistic_graft_peers = 2;
  opportunistic_graft_threshold = 101;
  low_draws = (λ i. 0);
  order_draws = (λ i. i);
  tail_draws = (λ i. i);
  out_draws = (λ i. 0);
  graft_draws = (λ i. 0);
}

beat-Permutes : Permutes scores params env 1 beat
beat-Permutes less t xs = refl

scores-IsTransitive : IsTransitive scores params env 1
scores-IsTransitive a b c h h' = ground (arith, h, h')

abbrev upkeep : List ℕ → Upkeep
upkeep peers = record {
  gs = record router {
    mesh = (1, peers) ∷ [];
    outbound = (31, true) ∷ (32, true) ∷ (33, true) ∷ [];
  };
  to_graft = [];
  to_prune = [];
  no_px = [];
}

abbrev crowd : List ℕ
crowd = 21 ∷ 22 ∷ 23 ∷ 24 ∷ 25 ∷ 26 ∷ 27 ∷ 28 ∷ 29 ∷ 31 ∷ 32 ∷ 33 ∷ []

crowd-IsDistinct : IsDistinct crowd
crowd-IsDistinct = (
  refl,
  (refl, (refl, (refl, (refl, (refl, (refl, (refl, (refl, (refl, (refl, (refl, tt))))))))))),
)

-- Two of the outbound peers come to the front.
bubble_up_test :
    bubble_up params (is_outbound (upkeep crowd).gs) crowd
    ≡ 32 ∷ 31 ∷ 21 ∷ 22 ∷ 23 ∷ 24 ∷ 25 ∷ 26 ∷ 27 ∷ 28 ∷ 29 ∷ 33 ∷ []
unfolding bubble_up
bubble_up_test = refl

trim_mesh-keeps_example :
    (length (mesh_of (trim_mesh scores params env beat 1 (upkeep crowd)).gs 1) ≡ 6)
    × (min 2 (count_of (is_outbound (upkeep crowd).gs) crowd)
        ≤ count_of
            (is_outbound (upkeep crowd).gs)
            (mesh_of (trim_mesh scores params env beat 1 (upkeep crowd)).gs 1))
    × ((k : ℕ)
        → member k crowd ≡ true
        → member k (mesh_of (trim_mesh scores params env beat 1 (upkeep crowd)).gs 1) ≡ false
        → time_add env.now params.prune_backoff
          ≤ get_or_else
              (until (trim_mesh scores params env beat 1 (upkeep crowd)).gs.backoff 1 k)
              0)
trim_mesh-keeps_example =
    trim_mesh-keeps scores params env 1 beat (upkeep crowd) beat-Permutes (omega arith)
      (omega arith) (omega arith) crowd-IsDistinct (omega arith)

grafts_3 : member 3 (mesh_of (maintain_mesh scores params env beat 1 (upkeep (2 ∷ []))).gs 1) ≡ true
unfolding maintain_mesh get_peers shuffle
grafts_3 = refl

-- Peer 3 is grafted to the mesh of peer 2.
maintain_mesh_sound_example :
    (is_negative scores params env 1 3 ≡ false)
    × ((member 3 (mesh_of (upkeep (2 ∷ [])).gs 1) ≡ true)
        ⊎ IsFresh scores params env 1 (upkeep (2 ∷ [])) 3)
maintain_mesh_sound_example =
    maintain_mesh_sound scores params env 1 beat (upkeep (2 ∷ [])) 3 beat-Permutes
      scores-IsTransitive grafts_3
