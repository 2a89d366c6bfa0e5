-- ===== src/Router/Membership/Lists.antt =====
-- The lists that a new mesh is made of, and the peers in them.
use Prim.Native.Nat.{max}
use go_libp2p_pubsub.Prelude.{
  ℕ, ◌+◌, ◌-◌, ◌≤◌, ◌<◌, ◌≡◌, refl, inl, inr, ◌⊎◌, true, false, not, ◌&&◌, ◌||◌, List, [], ◌∷◌, Map,
  none, some, lookup, lookup_or, lookup-insert, insert, delete, has, length, member, member-keep,
  member-add, length-add-le, length-keep, add, ltb, Bool-cases, Option-cases, arith,
}
use go_libp2p_pubsub.Router.Env.{Params, Scores, Router, Env}
use go_libp2p_pubsub.Router.Backoff.{until}
use go_libp2p_pubsub.Router.Peers.{get_peers, member-get_peers, length-get_peers}
use go_libp2p_pubsub.Router.Graft.Admission.{mesh_of}
use go_libp2p_pubsub.Router.Membership.{
  add_all, good_fanout, mesh_from_fanout, fresh_mesh, graft_all, join,
}

member-add_all :
    (k : ℕ) (peers gmap : List ℕ) → member k (add_all peers gmap) ≡ member k peers || member k gmap
member-add_all k [] gmap = refl
member-add_all k (p ∷ peers) gmap =
    ground (arith, member-add_all k peers (add p gmap), member-add p k gmap)

length-add_all : (peers gmap : List ℕ) → length (add_all peers gmap) ≤ length peers + length gmap
length-add_all [] gmap = omega arith
length-add_all (p ∷ peers) gmap =
    omega (arith, length-add_all peers (add p gmap), length-add-le p gmap)

absent : (k : ℕ) (m : Map ℕ) → has k m ≡ false → lookup k m ≡ none
absent k m h = elim (Option-cases (lookup k m)) [
  | inl miss ↦ miss
  | inr (v, hit) ↦ absurd (ground (arith, hit))
]

module _ (s : Scores) (params : Params) (env : Env s) where
  -- What lets a peer into a mesh that we make.
  abbrev pub IsEligible : Router → ℕ → ℕ → Type 0
  IsEligible gs topic k =
      (until gs.backoff topic k ≡ none)
      × (s.lt (env.score k) s.zero_score ≡ false)
      × ((member k gs.direct ≡ false) ⊎ (member k (lookup_or [] topic gs.fanout) ≡ true))

  pub graft_all-mesh :
      (topic : ℕ) (peers : List ℕ) (gs : Router) → (graft_all s topic peers gs).mesh ≡ gs.mesh
  unfolding graft_all
  graft_all-mesh topic [] gs = refl
  graft_all-mesh topic (p ∷ peers) gs =
      graft_all-mesh topic peers (record gs { grafted = (p, topic) ∷ gs.grafted })

  pub fresh_mesh-IsEligible :
      (gs : Router) (topic k : ℕ)
      → member k (fresh_mesh s params env gs topic) ≡ true
      → IsEligible gs topic k
  unfolding fresh_mesh
  fresh_mesh-IsEligible gs topic k h =
      let able = λ (p : ℕ).
        not (member p gs.direct)
        && not (has p (lookup_or [] topic gs.backoff))
        && s.ge (env.score p) s.zero_score in
      let picked = get_peers s env gs (env.topic_draws topic) topic params.d able in
      let (_, _, ok, _) =
        member-get_peers s env gs (env.topic_draws topic) topic params.d able k
          (ground (arith, member-add_all k picked [])) in
      (
        absent k (lookup_or [] topic gs.backoff) (ground arith),
        s.lt-ge (env.score k) s.zero_score (ground arith),
        inl (ground arith),
      )

  good_fanout-IsEligible :
      (gs : Router) (topic k : ℕ) (fanout : List ℕ)
      → lookup topic gs.fanout ≡ some fanout
      → member k (good_fanout s env gs topic fanout) ≡ true
      → IsEligible gs topic k
  unfolding good_fanout
  good_fanout-IsEligible gs topic k fanout at h =
      let good =
        λ (p : ℕ). not (s.lt (env.score p) s.zero_score || has p (lookup_or [] topic gs.backoff)) in
      let both = member-keep good k fanout in
      (absent k (lookup_or [] topic gs.backoff) (ground arith), ground arith, inr (ground arith))

  pub mesh_from_fanout-IsEligible :
      (gs : Router) (topic k : ℕ) (fanout : List ℕ)
      → lookup topic gs.fanout ≡ some fanout
      → member k (mesh_from_fanout s params env gs topic fanout) ≡ true
      → IsEligible gs topic k
  unfolding mesh_from_fanout
  mesh_from_fanout-IsEligible gs topic k fanout at h =
      let gmap = good_fanout s env gs topic fanout in
      let able = λ (p : ℕ).
        not (member p gmap)
        && not (member p gs.direct)
        && not (has p (lookup_or [] topic gs.backoff))
        && s.ge (env.score p) s.zero_score in
      let picked = get_peers s env gs (env.topic_draws topic) topic (params.d - length gmap) able in
      elim (Bool-cases (member k gmap)) [
        | inl inside ↦ good_fanout-IsEligible gs topic k fanout at inside
        | inr new ↦
            let (_, _, ok, _) =
              member-get_peers s env gs (env.topic_draws topic) topic (params.d - length gmap) able
                k (ground (arith, member-add_all k picked gmap)) in
            (
              absent k (lookup_or [] topic gs.backoff) (ground arith),
              s.lt-ge (env.score k) s.zero_score (ground arith),
              inl (ground arith),
            )
      ]

  pub length-fresh_mesh :
      (gs : Router) (topic : ℕ)
      → 0 < params.d
      → length (fresh_mesh s params env gs topic) ≤ params.d
  unfolding fresh_mesh
  length-fresh_mesh gs topic pos =
      let able = λ (p : ℕ).
        not (member p gs.direct)
        && not (has p (lookup_or [] topic gs.backoff))
        && s.ge (env.score p) s.zero_score in
      omega (
        arith,
        length-add_all (get_peers s env gs (env.topic_draws topic) topic params.d able) [],
        length-get_peers s env gs (env.topic_draws topic) topic params.d able pos,
      )

  pub length-mesh_from_fanout :
      (gs : Router) (topic : ℕ) (fanout : List ℕ)
      → length (mesh_from_fanout s params env gs topic fanout) ≤ max params.d (length fanout)
  unfolding mesh_from_fanout good_fanout
  length-mesh_from_fanout gs topic fanout =
      let gmap = good_fanout s env gs topic fanout in
      let able = λ (p : ℕ).
        not (member p gmap)
        && not (member p gs.direct)
        && not (has p (lookup_or [] topic gs.backoff))
        && s.ge (env.score p) s.zero_score in
      let good =
        λ (p : ℕ). not (s.lt (env.score p) s.zero_score || has p (lookup_or [] topic gs.backoff)) in
      let count = params.d - length gmap in
      elim (Bool-cases (ltb (length gmap) params.d)) [
        | inl few ↦
            let less : length gmap < params.d = ground arith in
            rw (few, mesh_from_fanout)
              (omega (
                arith,
                less,
                length-add_all (get_peers s env gs (env.topic_draws topic) topic count able) gmap,
                length-get_peers s env gs (env.topic_draws topic) topic count able (ground arith),
              ))
        | inr enough ↦ rw (enough, mesh_from_fanout) (omega (arith, length-keep good fanout))
      ]

  pub join-fresh :
      (gs : Router) (topic : ℕ)
      → has topic gs.mesh ≡ false
      → lookup topic gs.fanout ≡ none
      → mesh_of (join s params env gs topic).1 topic ≡ fresh_mesh s params env gs topic
  unfolding join
  join-fresh gs topic new miss =
      let gmap = fresh_mesh s params env gs topic in
      rw (new, join)
        (rw miss (
          ground (
            arith,
            graft_all-mesh topic gmap (record gs { mesh = insert topic gmap gs.mesh }),
            lookup-insert topic topic gmap gs.mesh,
          )))

  pub join-fanout :
      (gs : Router) (topic : ℕ) (fanout : List ℕ)
      → has topic gs.mesh ≡ false
      → lookup topic gs.fanout ≡ some fanout
      → mesh_of (join s params env gs topic).1 topic ≡ mesh_from_fanout s params env gs topic fanout
  unfolding join
  join-fanout gs topic fanout new hit =
      let gmap = mesh_from_fanout s params env gs topic fanout in
      rw (new, join)
        (rw hit (
          ground (
            arith,
            graft_all-mesh topic gmap (record gs {
              mesh = insert topic gmap gs.mesh;
              fanout = delete topic gs.fanout;
              lastpub = delete topic gs.lastpub;
            }),
            lookup-insert topic topic gmap gs.mesh,
          )))
