-- ===== src/Router/Heartbeat/Trim.antt =====
-- The mesh that is left of one that was too large.
use Prim.Native.Nat.{min}
use go_libp2p_pubsub.Prelude.{
  ℕ, ◌+◌, ◌≤◌, ◌<◌, ◌≡◌, refl, ap, ◌∙◌, Bool, true, false, not, ◌&&◌, List, [], ◌∷◌, length,
  count_of, count_of-append, take, drop, length-take, Bool-cases, inl, inr, arith, ◌==◌,
  if◌then◌else◌, ==_iff, ==_self, member, remove, member-remove, IsDistinct, IsDistinct-remove,
  IsDistinct-occurs, IsDistinct-of_occurs, member-occurs, occurs, lookup-insert, get_or_else, leb,
}
use go_libp2p_pubsub.Shuffle.{shuffle}
use go_libp2p_pubsub.Shuffle.Counts.{count_of-shuffle}
use go_libp2p_pubsub.Router.Env.{Params, Scores, Env}
use go_libp2p_pubsub.Router.Backoff.{until, time_add, add_backoff, until-do_add_backoff}
use go_libp2p_pubsub.Router.Graft.Admission.{mesh_of}
use go_libp2p_pubsub.Router.Heartbeat.{
  Beat, Upkeep, is_outbound, bubble_up, prune_peer, prune_each, ranked, trim_mesh,
}
use go_libp2p_pubsub.Router.Heartbeat.Bubble.{
  count_of-bubble_up, bubble_up-outbound, count_of-take-drop, length-count_of,
}

count_of-remove-absent :
    (t : ℕ → Bool) (p : ℕ) (xs : List ℕ)
    → member p xs ≡ false
    → count_of t (remove p xs) ≡ count_of t xs
count_of-remove-absent t p [] h = refl
count_of-remove-absent t p (x ∷ xs) h = ground (arith, h, count_of-remove-absent t p xs)

count_of-remove :
    (t : ℕ → Bool) (p : ℕ) (xs : List ℕ)
    → IsDistinct xs
    → member p xs ≡ true
    → count_of t xs ≡ (if t p then 1 else 0) + count_of t (remove p xs)
count_of-remove t p [] d h = absurd (ground (arith, h))
count_of-remove t p (x ∷ xs) d h = elim (Bool-cases (p == x)) [
  | inl same ↦
      let here : t p ≡ t x = ap t ((==_iff p x).0 same) in
      let away : member p xs ≡ false = ap (λ k. member k xs) ((==_iff p x).0 same) ∙ d.0 in
      ground (arith, same, here, count_of-remove-absent t p xs away)
  | inr other ↦ ground (arith, other, h, count_of-remove t p xs d.1)
]

module _ (s : Scores) (params : Params) (env : Env s) (topic : ℕ) where
  pub mesh-prune_peer :
      (u : Upkeep) (p : ℕ)
      → mesh_of (prune_peer s params env topic u p).gs topic ≡ remove p (mesh_of u.gs topic)
  unfolding prune_peer
  mesh-prune_peer u p =
      ground
        (arith, lookup-insert topic topic (remove p (mesh_of u.gs topic)) u.gs.mesh, ==_self topic)

  pub member-prune_each :
      (u : Upkeep) (ps : List ℕ) (k : ℕ)
      → member k (mesh_of (prune_each s params env topic u ps).gs topic)
        ≡ member k (mesh_of u.gs topic) && not (member k ps)
  unfolding prune_each
  member-prune_each u [] k = ground arith
  member-prune_each u (p ∷ ps) k =
      let u1 = prune_peer s params env topic u p in
      member-prune_each u1 ps k
      ∙ rw (mesh-prune_peer u p) (ground (arith, member-remove p k (mesh_of u.gs topic)))

  count_of-prune_each :
      (t : ℕ → Bool) (u : Upkeep) (ps : List ℕ)
      → IsDistinct (mesh_of u.gs topic)
      → IsDistinct ps
      → ((k : ℕ) → member k ps ≡ true → member k (mesh_of u.gs topic) ≡ true)
      → count_of t (mesh_of u.gs topic)
        ≡ count_of t ps + count_of t (mesh_of (prune_each s params env topic u ps).gs topic)
  unfolding prune_each
  count_of-prune_each t u [] d d' inside = omega arith
  count_of-prune_each t u (p ∷ ps) d d' inside =
      let u1 = prune_peer s params env topic u p in
      let same = mesh-prune_peer u p in
      let mesh = mesh_of u.gs topic in
      let still_inside : (k : ℕ) → member k ps ≡ true → member k (remove p mesh) ≡ true = λ k h.
        elim (Bool-cases (p == k)) [
          | inl same_peer ↦
              absurd (ground (arith, h, d'.0, ap (λ j. member j ps) ((==_iff p k).0 same_peer)))
          | inr other ↦ ground (arith, other, inside k, h, member-remove p k mesh)
        ] in
      let rest : count_of t (mesh_of u1.gs topic)
          ≡ count_of t ps + count_of t (mesh_of (prune_each s params env topic u1 ps).gs topic) =
        count_of-prune_each t u1 ps (rw same (IsDistinct-remove p (mesh_of u.gs topic) d)) d'.1
          (λ k h. rw same (still_inside k h)) in
      omega (
        arith,
        rest,
        ap (count_of t) same,
        count_of-remove t p (mesh_of u.gs topic) d (inside p (ground arith)),
      )

  pub outbound-prune_each :
      (u : Upkeep) (ps : List ℕ) → (prune_each s params env topic u ps).gs.outbound ≡ u.gs.outbound
  unfolding prune_each prune_peer
  outbound-prune_each u [] = refl
  outbound-prune_each u (p ∷ ps) = outbound-prune_each (prune_peer s params env topic u p) ps

  -- Who is pruned is backed off for the prune backoff.
  pub until-prune_each :
      (u : Upkeep) (ps : List ℕ) (k : ℕ)
      → (get_or_else (until u.gs.backoff topic k) 0
          ≤ get_or_else (until (prune_each s params env topic u ps).gs.backoff topic k) 0)
        × (member k ps ≡ true
            → time_add env.now params.prune_backoff
              ≤ get_or_else (until (prune_each s params env topic u ps).gs.backoff topic k) 0)
  unfolding prune_each prune_peer add_backoff
  until-prune_each u [] k = (omega arith, λ h. absurd (ground (arith, h)))
  until-prune_each u (p ∷ ps) k =
      let u1 = prune_peer s params env topic u p in
      let (up, back) = until-prune_each u1 ps k in
      let first = until-do_add_backoff env.now u.gs.backoff p topic params.prune_backoff topic k in
      (
        ground (arith, up, first, ==_self topic),
        λ h. elim (Bool-cases (p == k)) [
          | inl same ↦ ground (arith, up, first, same, ==_self topic)
          | inr other ↦ back (ground (arith, h, other))
        ],
      )

  -- What `sort.Slice` does at least: it keeps the elements.
  abbrev pub Permutes : Beat s → Type 0
  Permutes beat =
      (less : ℕ → ℕ → Bool) (t : ℕ → Bool) (xs : List ℕ)
      → count_of t (beat.sort_by less xs) ≡ count_of t xs

  count_of-ranked :
      (beat : Beat s) (t : ℕ → Bool) (xs : List ℕ)
      → Permutes beat
      → count_of t (ranked s params env beat xs) ≡ count_of t xs
  unfolding ranked
  count_of-ranked beat t xs permutes =
      let less = λ (a b : ℕ). s.lt (env.score b) (env.score a) in
      let sorted = beat.sort_by less (shuffle beat.order_draws xs) in
      let tail = drop params.d_score sorted in
      omega (
        arith,
        count_of-append t (take params.d_score sorted) (shuffle beat.tail_draws tail),
        count_of-shuffle t beat.tail_draws tail,
        count_of-take-drop t params.d_score sorted,
        permutes less t (shuffle beat.order_draws xs),
        count_of-shuffle t beat.order_draws xs,
      )

  IsDistinct-of_counts :
      (xs ys : List ℕ) → ((k : ℕ) → occurs k ys ≤ occurs k xs) → IsDistinct xs → IsDistinct ys
  IsDistinct-of_counts xs ys less d =
      IsDistinct-of_occurs ys (λ k. omega (arith, less k, IsDistinct-occurs k xs d))

  pub member-of_counts :
      (xs ys : List ℕ)
      → ((k : ℕ) → occurs k ys ≤ occurs k xs)
      → (k : ℕ) → member k ys ≡ true
      → member k xs ≡ true
  member-of_counts xs ys less k h =
      ground (arith, less k, member-occurs k xs, member-occurs k ys, h)

  -- A mesh with at least `Dhi` peers, no two the same, is cut down to exactly `D`, of which as many
  -- have outbound connections as `Dout` asks for, or all that had; who is cut off is backed off for
  -- the prune backoff. It is assumed that sorting keeps the elements, and that `D` is positive, at
  -- most `Dhi` and at least `Dout`.
  pub trim_mesh-keeps :
      (beat : Beat s) (u : Upkeep)
      → Permutes beat
      → 0 < params.d
      → params.d ≤ params.d_hi
      → params.d_out ≤ params.d
      → IsDistinct (mesh_of u.gs topic)
      → params.d_hi ≤ length (mesh_of u.gs topic)
      → (length (mesh_of (trim_mesh s params env beat topic u).gs topic) ≡ params.d)
        × (min params.d_out (count_of (is_outbound u.gs) (mesh_of u.gs topic))
            ≤ count_of (is_outbound u.gs) (mesh_of (trim_mesh s params env beat topic u).gs topic))
        × ((k : ℕ)
            → member k (mesh_of u.gs topic) ≡ true
            → member k (mesh_of (trim_mesh s params env beat topic u).gs topic) ≡ false
            → time_add env.now params.prune_backoff
              ≤ get_or_else (until (trim_mesh s params env beat topic u).gs.backoff topic k) 0)
  unfolding trim_mesh
  trim_mesh-keeps beat u permutes pos below room distinct large =
      let mesh = mesh_of u.gs topic in
      let plst = bubble_up params (is_outbound u.gs) (ranked s params env beat mesh) in
      let cut = drop params.d plst in
      let total : (t : ℕ → Bool) → count_of t plst ≡ count_of t mesh = λ t.
        count_of-bubble_up t params (is_outbound u.gs) (ranked s params env beat mesh)
        ∙ count_of-ranked beat t mesh permutes in
      let less : (k : ℕ) → occurs k cut ≤ occurs k mesh =
        λ k. omega (arith, total (λ x. x == k), count_of-take-drop (λ x. x == k) params.d plst) in
      let left : (t : ℕ → Bool)
          → count_of t (mesh_of (prune_each s params env topic u cut).gs topic)
            ≡ count_of t (take params.d plst) =
        λ t. omega (
          arith,
          count_of-prune_each t u cut distinct (IsDistinct-of_counts mesh cut less distinct)
              (member-of_counts mesh cut less),
          total t,
          count_of-take-drop t params.d plst,
        ) in
      let full : leb params.d_hi (length mesh) ≡ true = ground (arith, large) in
      let after = mesh_of (prune_each s params env topic u cut).gs topic in
      let order = ranked s params env beat mesh in
      let all : ℕ → Bool = λ x. true in
      let fits : params.d ≤ length order = omega (
        arith,
        count_of-ranked beat all mesh permutes,
        length-count_of order,
        length-count_of mesh,
        large,
        below,
      ) in
      rw (full, trim_mesh)
        (
          omega (
            arith,
            length-count_of after,
            left all,
            length-count_of (take params.d plst),
            length-take params.d plst,
            length-count_of plst,
            total all,
            length-count_of mesh,
            large,
            below,
          ),
          omega (
            arith,
            left (is_outbound u.gs),
            bubble_up-outbound (is_outbound u.gs) params order pos fits room,
            count_of-ranked beat (is_outbound u.gs) mesh permutes,
          ),
          λ k inside gone.
              (until-prune_each u cut k).1
                (ground (arith, inside, gone, member-prune_each u cut k)),
        )
