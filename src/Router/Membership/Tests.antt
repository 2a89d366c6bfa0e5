-- ===== src/Router/Membership/Tests.antt =====
-- The theorems about joining and leaving at concrete inputs, and runs of the code.
use Prim.Native.Nat.{max}
use go_libp2p_pubsub.Prelude.{
  ℕ, ◌≤◌, ◌≡◌, refl, true, false, [], ◌∷◌, map, lookup_or, length, member, arith,
}
use go_libp2p_pubsub.Shuffle.{shuffle}
use go_libp2p_pubsub.Router.Example.{scores, params, env, router}
use go_libp2p_pubsub.Router.Backoff.{time_add}
use go_libp2p_pubsub.Router.Graft.Admission.{mesh_of}
use go_libp2p_pubsub.Router.Peers.{get_peers}
use go_libp2p_pubsub.Router.Membership.{join, leave}
use go_libp2p_pubsub.Router.Membership.Lists.{IsEligible}
use go_libp2p_pubsub.Router.Membership.Meshes.{join-IsEligible, join-leave}

program : Unit {0}
unfolding join leave shuffle time_add get_peers
program = tt

-- Of the fanout of topic 7, peer 9 has a negative score.
fanout_becomes_mesh : mesh_of (join scores params env router 7).1 7 ≡ 3 ∷ []
unfolding program
fanout_becomes_mesh = refl

left_are_told : map (λ (sent : ℕ × _). sent.0) (leave scores params env router 1).0 ≡ 2 ∷ []
unfolding program
left_are_told = refl

join-IsEligible_example :
    ((k : ℕ)
      → member k (mesh_of (join scores params env router 7).1 7) ≡ true
      → IsEligible scores params env router 7 k)
    × (length (mesh_of (join scores params env router 7).1 7)
        ≤ max params.d (length (lookup_or [] 7 router.fanout)))
join-IsEligible_example = join-IsEligible scores params env router 7 (omega arith) refl

join-leave_example :
    member 2 (mesh_of (join scores params env (leave scores params env router 1).1 1).1 1) ≡ false
join-leave_example = join-leave scores params env env router 1 2 refl
