-- ===== src/Router/Membership/Meshes.antt =====
-- Who is in the mesh of a topic after joining it, and who is kept off after leaving it.
use Prim.Native.Nat.{max}
use go_libp2p_pubsub.Prelude.{
  ℕ, ◌≤◌, ◌<◌, ◌≡◌, refl, ap, sym, inl, inr, ◌⊎◌, ◌∙◌, true, false, not, ◌&&◌, ◌||◌, List, [], ◌∷◌,
  ◌++◌, lookup, lookup_or, lookup-insert, insert, lookup-delete, delete, has, length, member,
  ==_iff, Map, none, Bool-cases, Option-cases, ◌==◌, arith, get_or_else,
}
use go_libp2p_pubsub.Router.Env.{Params, Scores, ControlPrune, Router, Env}
use go_libp2p_pubsub.Router.Backoff.{until, time_add, add_backoff, until-do_add_backoff}
use go_libp2p_pubsub.Router.Peers.{make_prune}
use go_libp2p_pubsub.Router.Graft.Admission.{mesh_of}
use go_libp2p_pubsub.Router.Membership.{join, leave_peers, leave, fresh_mesh, mesh_from_fanout}
use go_libp2p_pubsub.Router.Membership.Lists.{
  IsEligible, fresh_mesh-IsEligible, mesh_from_fanout-IsEligible, length-fresh_mesh,
  length-mesh_from_fanout, join-fresh, join-fanout, graft_all-mesh,
}

module _ (s : Scores) (params : Params) (env : Env s) where
  join-picks :
      (gs : Router) (topic k : ℕ)
      → has topic gs.mesh ≡ false
      → member k (mesh_of (join s params env gs topic).1 topic) ≡ true
      → IsEligible s params env gs topic k
  join-picks gs topic k new h = elim (Option-cases (lookup topic gs.fanout)) [
    | inl miss ↦
        fresh_mesh-IsEligible s params env gs topic k
          (sym (ap (member k) (join-fresh s params env gs topic new miss)) ∙ h)
    | inr (fanout, hit) ↦
        mesh_from_fanout-IsEligible s params env gs topic k fanout hit
          (sym (ap (member k) (join-fanout s params env gs topic fanout new hit)) ∙ h)
  ]

  -- Joining a topic makes a mesh of eligible peers: of those in it none has a backoff entry for the
  -- topic, none a negative score, and none is direct unless it comes from the fanout. It has at most
  -- `D` peers, or as many as the fanout had if those are more, where `D` is positive.
  pub join-IsEligible :
      (gs : Router) (topic : ℕ)
      → 0 < params.d
      → has topic gs.mesh ≡ false
      → ((k : ℕ)
          → member k (mesh_of (join s params env gs topic).1 topic) ≡ true
          → IsEligible s params env gs topic k)
        × (length (mesh_of (join s params env gs topic).1 topic)
            ≤ max params.d (length (lookup_or [] topic gs.fanout)))
  join-IsEligible gs topic pos new = elim (Option-cases (lookup topic gs.fanout)) [
    | inl miss ↦ (
      λ k. join-picks gs topic k new,
      omega (
        arith,
        ap length (join-fresh s params env gs topic new miss),
        length-fresh_mesh s params env gs topic pos,
      ),
    )
    | inr (fanout, hit) ↦ (
      λ k. join-picks gs topic k new,
      ground (
        arith,
        ap length (join-fanout s params env gs topic fanout new hit),
        length-mesh_from_fanout s params env gs topic fanout,
        hit,
      ),
    )
  ]

  leave_peers_lem :
      (topic : ℕ) (peers : List ℕ) (gs : Router) (sent : List (ℕ × ControlPrune)) (k : ℕ)
      → ((leave_peers s params env topic peers gs sent).1.mesh ≡ gs.mesh)
        × (get_or_else (until gs.backoff topic k) 0
            ≤ get_or_else
                (until (leave_peers s params env topic peers gs sent).1.backoff topic k)
                0)
        × ((member k peers ≡ false)
            ⊎ ((time_add env.now params.unsubscribe_backoff
                  ≤ get_or_else
                      (until (leave_peers s params env topic peers gs sent).1.backoff topic k)
                      0)
                × (has k
                      (lookup_or [] topic (leave_peers s params env topic peers gs sent).1.backoff)
                    ≡ true)))
        × ((has k (lookup_or [] topic gs.backoff) ≡ false)
            ⊎ (has k (lookup_or [] topic (leave_peers s params env topic peers gs sent).1.backoff)
                ≡ true))
  unfolding leave_peers add_backoff
  leave_peers_lem topic [] gs sent k = (refl, omega arith, inl refl, ground arith)
  leave_peers_lem topic (p ∷ peers) gs sent k =
      let gs1 : Router = record gs {
        pruned = (p, topic) ∷ gs.pruned;
        backoff = add_backoff params env.now gs.backoff p topic true;
      } in
      let sent1 = sent ++ (p, make_prune s params env gs p topic gs.do_px true) ∷ [] in
      let (m, up, off, kept) = leave_peers_lem topic peers gs1 sent1 k in
      let first =
        until-do_add_backoff env.now gs.backoff p topic params.unsubscribe_backoff topic k in
      (
        m,
        ground (arith, up, first),
        elim (Bool-cases (p == k)) [
          | inl same ↦ inr (ground (arith, up, first), ground (arith, kept, first))
          | inr other ↦ elim off [ inl absent_there ↦ inl (ground arith) | inr backed ↦ inr backed ]
        ],
        ground (arith, kept, first),
      )

  -- Leaving a topic removes its mesh, and backs off every peer that was in it for at least the
  -- unsubscribe backoff.
  pub leave-backs_off :
      (gs : Router) (topic k : ℕ)
      → (has topic (leave s params env gs topic).1.mesh ≡ false)
        × ((member k (mesh_of gs topic) ≡ false)
            ⊎ ((time_add env.now params.unsubscribe_backoff
                  ≤ get_or_else (until (leave s params env gs topic).1.backoff topic k) 0)
                × (has k (lookup_or [] topic (leave s params env gs topic).1.backoff) ≡ true)))
  unfolding leave
  leave-backs_off gs topic k = elim (Option-cases (lookup topic gs.mesh)) [
    | inl miss ↦ rw (miss, leave) (ground arith, inl (ground arith))
    | inr (gmap, hit) ↦
        let (m, _, off, _) =
          leave_peers_lem topic gmap (record gs { mesh = delete topic gs.mesh }) [] k in
        rw (hit, leave) (ground (arith, m, lookup-delete topic topic gs.mesh), off)
  ]

-- Rejoining a topic that was just left takes none of the peers back that were in its mesh, in
-- whatever environment, while their backoff entries stand.
pub join-leave :
    (s : Scores) (params : Params) (env env' : Env s) (gs : Router) (topic k : ℕ)
    → member k (mesh_of gs topic) ≡ true
    → member k (mesh_of (join s params env' (leave s params env gs topic).1 topic).1 topic) ≡ false
join-leave s params env env' gs topic k inside =
    let gs' = (leave s params env gs topic).1 in
    let (gone, off) = leave-backs_off s params env gs topic k in
    elim (Bool-cases (member k (mesh_of (join s params env' gs' topic).1 topic))) [
      | inl picked ↦
          let (free, _, _) = join-picks s params env' gs' topic k gone picked in
          absurd (ground (arith, off, free))
      | inr out ↦ out
    ]

has_old {ℓ} :
    {A : Type ℓ} (topic t : ℕ) (m : Map A) → has topic m ≡ true → has t m ≡ has t m || topic == t
has_old topic t m h = elim (Bool-cases (topic == t)) [
  | inl same ↦ ground (arith, ap (λ k. has k m) ((==_iff topic t).0 same), h, same)
  | inr other ↦ ground (arith, other)
]

has_miss {ℓ} :
    {A : Type ℓ} (topic t : ℕ) (m : Map A)
    → lookup topic m ≡ none
    → has t m ≡ has t m && not (topic == t)
has_miss topic t m h = elim (Bool-cases (topic == t)) [
  | inl same ↦ ground (arith, ap (λ k. has k m) ((==_iff topic t).0 same), h, same)
  | inr other ↦ ground (arith, other)
]

-- Joining a topic makes a mesh for it, and leaving removes that; the other topics keep theirs.
pub has-join :
    (s : Scores) (params : Params) (env : Env s) (gs : Router) (topic t : ℕ)
    → has t (join s params env gs topic).1.mesh ≡ has t gs.mesh || topic == t
unfolding join
has-join s params env gs topic t = elim (Bool-cases (has topic gs.mesh)) [
  | inl old ↦ rw (old, join) (has_old topic t gs.mesh old)
  | inr new ↦ elim (Option-cases (lookup topic gs.fanout)) [
    | inl miss ↦
        let gmap = fresh_mesh s params env gs topic in
        rw (new, join)
          (rw miss (
            ground (
              arith,
              graft_all-mesh s params env topic gmap
                  (record gs { mesh = insert topic gmap gs.mesh }),
              lookup-insert topic t gmap gs.mesh,
            )))
    | inr (fanout, hit) ↦
        let gmap = mesh_from_fanout s params env gs topic fanout in
        rw (new, join)
          (rw hit (
            ground (
              arith,
              graft_all-mesh s params env topic gmap (record gs {
                mesh = insert topic gmap gs.mesh;
                fanout = delete topic gs.fanout;
                lastpub = delete topic gs.lastpub;
              }),
              lookup-insert topic t gmap gs.mesh,
            )))
  ]
]

pub has-leave :
    (s : Scores) (params : Params) (env : Env s) (gs : Router) (topic t : ℕ)
    → has t (leave s params env gs topic).1.mesh ≡ has t gs.mesh && not (topic == t)
unfolding leave
has-leave s params env gs topic t = elim (Option-cases (lookup topic gs.mesh)) [
  | inl miss ↦ rw (miss, leave) (has_miss topic t gs.mesh miss)
  | inr (gmap, hit) ↦
      let (m, _, _, _) =
        leave_peers_lem s params env topic gmap (record gs { mesh = delete topic gs.mesh }) [] t in
      rw (hit, leave) (ground (arith, m, lookup-delete topic t gs.mesh))
]
