-- ===== src/Router/Heartbeat/Mesh.antt =====
-- Who is in the mesh of a topic after a heartbeat.
use go_libp2p_pubsub.Prelude.{
  ℕ, zero, suc, ◌-◌, ◌/◌, ◌%◌, ◌≡◌, refl, sym, ap, ◌∙◌, Bool, true, false, not, ◌&&◌, ◌||◌, List,
  [], ◌∷◌, none, some, Option, length, count_of, get_elem?, Bool-cases, Option-cases, ◌⊎◌, inl, inr,
  arith, ltb, ◌==◌, ==_iff, ==_self, member, remove, add, member-remove, member-add, lookup_or,
  lookup-insert, is_some, leb, drop,
}
use go_libp2p_pubsub.Router.Env.{Params, Scores, Env}
use go_libp2p_pubsub.Router.Backoff.{until, add_backoff, until-do_add_backoff}
use go_libp2p_pubsub.Router.Peers.{get_peers, member-get_peers}
use go_libp2p_pubsub.Router.Graft.Admission.{mesh_of}
use go_libp2p_pubsub.Router.Heartbeat.{
  Beat, Upkeep, is_outbound, bubble_up, prune_peer, prune_each, graft_peer, graft_each,
  prune_negative, is_candidate, graft_some, fill_mesh, ranked, trim_mesh, fill_outbound,
  graft_opportunistically, maintain_mesh,
}
use go_libp2p_pubsub.Router.Heartbeat.Trim.{Permutes, mesh-prune_peer, member-of_counts}

absent {ℓ} : {A : Type ℓ} (o : Option A) → is_some o ≡ false → o ≡ none
absent none h = refl
absent (some a) h = absurd (ground (arith, h))

module _ (s : Scores) (params : Params) (env : Env s) (topic : ℕ) where
  abbrev pub is_negative : ℕ → Bool
  is_negative k = s.lt (env.score k) s.zero_score

  -- A peer that may be grafted: it is in the topic, and neither backed off nor direct.
  abbrev pub IsFresh : Upkeep → ℕ → Type 0
  IsFresh u k =
      (until u.gs.backoff topic k ≡ none)
      × (member k u.gs.direct ≡ false)
      × (member k (lookup_or [] topic env.topics) ≡ true)

  -- A mesh that came from that of `u0` by pruning and by grafting fresh peers. The peers of whom
  -- `ok` is asked are not negative.
  IsSound : Upkeep → (ℕ → Bool) → Upkeep → Type 0
  IsSound u0 ok u =
      ((k : ℕ)
        → member k (mesh_of u.gs topic) ≡ true
        → (ok k ≡ true → is_negative k ≡ false)
          × ((member k (mesh_of u0.gs topic) ≡ true) ⊎ IsFresh u0 k))
      × ((k : ℕ) → until u.gs.backoff topic k ≡ none → until u0.gs.backoff topic k ≡ none)
      × (u.gs.direct ≡ u0.gs.direct)

  until-prune_peer :
      (u : Upkeep) (p k : ℕ)
      → until (prune_peer s params env topic u p).gs.backoff topic k ≡ none
      → until u.gs.backoff topic k ≡ none
  unfolding prune_peer add_backoff
  until-prune_peer u p k h =
      let first = until-do_add_backoff env.now u.gs.backoff p topic params.prune_backoff topic k in
      ground (arith, h, first, ==_self topic)

  prune_peer-IsSound :
      (u0 u : Upkeep) (ok : ℕ → Bool) (p : ℕ)
      → IsSound u0 (λ k. ok k && not (p == k)) u
      → IsSound u0 ok (prune_peer s params env topic u p)
  unfolding IsSound prune_peer
  prune_peer-IsSound u0 u ok p (good, back, same) = (
    λ k h.
        let within : member k (remove p (mesh_of u.gs topic)) ≡ true =
          sym (ap (member k) (mesh-prune_peer s params env topic u p)) ∙ h in
        let (fine, from) =
          good k (ground (arith, within, member-remove p k (mesh_of u.gs topic))) in
        (λ o. fine (ground (arith, o, within, member-remove p k (mesh_of u.gs topic))), from),
    λ k h. back k (until-prune_peer u p k h),
    same,
  )

  -- A sound state is sound for a weaker question.
  IsSound-weaken :
      (u0 u : Upkeep) (ok ok' : ℕ → Bool)
      → ((k : ℕ) → ok' k ≡ true → (ok k ≡ true) ⊎ (is_negative k ≡ false))
      → IsSound u0 ok u
      → IsSound u0 ok' u
  unfolding IsSound
  IsSound-weaken u0 u ok ok' less (good, back, same) = (
    λ k h.
        let (fine, from) = good k h in
        (λ o. elim (less k o) [ inl asked ↦ fine asked | inr known ↦ known ], from),
    back,
    same,
  )

  prune_each-IsSound :
      (u0 u : Upkeep) (ok : ℕ → Bool) (ps : List ℕ)
      → IsSound u0 ok u
      → IsSound u0 ok (prune_each s params env topic u ps)
  unfolding prune_each
  prune_each-IsSound u0 u ok [] sound = sound
  prune_each-IsSound u0 u ok (p ∷ ps) sound =
      prune_each-IsSound u0 (prune_peer s params env topic u p) ok ps (
        prune_peer-IsSound u0 u ok p (
          IsSound-weaken u0 u ok (λ k. ok k && not (p == k)) (λ k h. inl (ground (arith, h)))
            sound))

  prune_negative-IsSound :
      (u0 u : Upkeep) (ps : List ℕ)
      → IsSound u0 (λ k. not (member k ps)) u
      → IsSound u0 (λ k. true) (prune_negative s params env topic ps u)
  unfolding prune_negative IsSound
  prune_negative-IsSound u0 u [] sound = sound
  prune_negative-IsSound u0 u (p ∷ ps) sound = elim (Bool-cases (is_negative p)) [
    | inl negative ↦
        rw (negative, prune_negative)
          (prune_negative-IsSound u0
            (let u' = prune_peer s params env topic u p in record u' { no_px = add p u'.no_px }) ps
            (prune_peer-IsSound u0 u (λ k. not (member k ps)) p
              (IsSound-weaken u0 u (λ k. not (member k (p ∷ ps)))
                (λ k. not (member k ps) && not (p == k)) (λ k h. inl (ground (arith, h))) sound)))
    | inr fine ↦
        rw (fine, prune_negative)
          (prune_negative-IsSound u0 u ps (
            IsSound-weaken u0 u (λ k. not (member k (p ∷ ps))) (λ k. not (member k ps))
              (λ k h. elim (Bool-cases (p == k)) [
                | inl same ↦ inr (sym (ap is_negative ((==_iff p k).0 same)) ∙ fine)
                | inr other ↦ inl (ground (arith, h, other))
              ])
              sound))
  ]

  graft_each_lem :
      (u : Upkeep) (ps : List ℕ)
      → ((k : ℕ)
          → member k (mesh_of (graft_each s topic u ps).gs topic)
            ≡ member k (mesh_of u.gs topic) || member k ps)
        × ((graft_each s topic u ps).gs.backoff ≡ u.gs.backoff)
        × ((graft_each s topic u ps).gs.direct ≡ u.gs.direct)
  unfolding graft_each graft_peer
  graft_each_lem u [] = (λ k. ground arith, refl, refl)
  graft_each_lem u (p ∷ ps) =
      let (mesh, backoff, direct) = graft_each_lem (graft_peer s topic u p) ps in
      (
        λ k. ground (
          arith,
          mesh k,
          member-add p k (mesh_of u.gs topic),
          lookup-insert topic topic (add p (mesh_of u.gs topic)) u.gs.mesh,
          ==_self topic,
        ),
        backoff,
        direct,
      )

  graft_some-IsSound :
      (u0 u : Upkeep) (draws : ℕ → ℕ) (count : ℕ) (good : ℕ → Bool)
      → ((k : ℕ) → good k ≡ true → is_negative k ≡ false)
      → IsSound u0 (λ k. true) u
      → IsSound u0 (λ k. true) (graft_some s env topic draws count good u)
  unfolding graft_some IsSound
  graft_some-IsSound u0 u draws count good enough (fine, back, same) =
      let able = λ (p : ℕ). is_candidate s u.gs topic p && good p in
      let picked = get_peers s env u.gs draws topic count able in
      let (mesh, backoff, direct) = graft_each_lem u picked in
      (
        λ k h. elim (Bool-cases (member k (mesh_of u.gs topic))) [
          | inl old ↦ fine k old
          | inr new ↦
              let (inside, _, passes, _) =
                member-get_peers s env u.gs draws topic count able k
                  (ground (arith, h, new, mesh k)) in
              (
                λ o. enough k (ground (arith, passes)),
                inr (
                  back k (absent (until u.gs.backoff topic k) (ground (arith, passes))),
                  sym (ap (member k) same) ∙ ground (arith, passes),
                  inside,
                ),
              )
        ],
        λ k h. back k (sym (ap (λ b. until b topic k) backoff) ∙ h),
        direct ∙ same,
      )

  -- Comparing floats is transitive.
  abbrev pub IsTransitive : Type 0
  IsTransitive = (a b c : s.Score) → s.lt a b ≡ true → s.lt b c ≡ true → s.lt a c ≡ true

  fill_mesh-IsSound :
      (beat : Beat s) (u0 u : Upkeep)
      → IsSound u0 (λ k. true) u
      → IsSound u0 (λ k. true) (fill_mesh s params env beat topic u)
  unfolding fill_mesh
  fill_mesh-IsSound beat u0 u sound =
      let l = length (mesh_of u.gs topic) in
      elim (Bool-cases (ltb l params.d_lo)) [
        | inl few ↦
            rw (few, fill_mesh)
              (graft_some-IsSound u0 u beat.low_draws (params.d - l)
                (λ p. s.ge (env.score p) s.zero_score) (λ k h. s.lt-ge (env.score k) s.zero_score h)
                sound)
        | inr enough ↦ rw (enough, fill_mesh) sound
      ]

  trim_mesh-IsSound :
      (beat : Beat s) (u0 u : Upkeep)
      → IsSound u0 (λ k. true) u
      → IsSound u0 (λ k. true) (trim_mesh s params env beat topic u)
  unfolding trim_mesh
  trim_mesh-IsSound beat u0 u sound =
      let peers = mesh_of u.gs topic in
      let plst = bubble_up params (is_outbound u.gs) (ranked s params env beat peers) in
      elim (Bool-cases (leb params.d_hi (length peers))) [
        | inl many ↦
            rw (many, trim_mesh) (prune_each-IsSound u0 u (λ k. true) (drop params.d plst) sound)
        | inr room ↦ rw (room, trim_mesh) sound
      ]

  fill_outbound-IsSound :
      (beat : Beat s) (u0 u : Upkeep)
      → IsSound u0 (λ k. true) u
      → IsSound u0 (λ k. true) (fill_outbound s params env beat topic u)
  unfolding fill_outbound
  fill_outbound-IsSound beat u0 u sound =
      let peers = mesh_of u.gs topic in
      let outbound = count_of (is_outbound u.gs) peers in
      elim (Bool-cases (leb params.d_lo (length peers) && ltb outbound params.d_out)) [
        | inl few ↦
            rw (few, fill_outbound)
              (graft_some-IsSound u0 u beat.out_draws (params.d_out - outbound)
                (λ p. is_outbound u.gs p && s.ge (env.score p) s.zero_score)
                (λ k h. s.lt-ge (env.score k) s.zero_score (ground (arith, h))) sound)
        | inr enough ↦ rw (enough, fill_outbound) sound
      ]

  member-get_elem? : (xs : List ℕ) (i k : ℕ) → get_elem? xs i ≡ some k → member k xs ≡ true
  member-get_elem? [] i k h = absurd (ground (arith, h))
  member-get_elem? (x ∷ xs) zero k h = ground (arith, h)
  member-get_elem? (x ∷ xs) (suc i) k h = ground (arith, member-get_elem? xs i k h)

  graft_opportunistically-IsSound :
      (beat : Beat s) (u0 u : Upkeep)
      → Permutes s params env topic beat
      → IsTransitive
      → IsSound u0 (λ k. true) u
      → IsSound u0 (λ k. true) (graft_opportunistically s env beat topic u)
  unfolding graft_opportunistically IsSound
  graft_opportunistically-IsSound beat u0 u permutes trans sound =
      let peers = mesh_of u.gs topic in
      let less = λ (a b : ℕ). s.lt (env.score a) (env.score b) in
      let plst = beat.sort_by less peers in
      let due = beat.ticks % beat.opportunistic_graft_ticks == 0 && ltb 1 (length peers) in
      elim (Bool-cases due) [
        | inr not_now ↦ rw (not_now, graft_opportunistically) sound
        | inl now ↦ elim (Option-cases (get_elem? plst (length peers / 2))) [
          | inl miss ↦ rw (now, graft_opportunistically) (rw miss sound)
          | inr (median, hit) ↦
              let inside : member median peers ≡ true =
                member-of_counts s params env topic peers plst
                  (λ k. omega (arith, permutes less (λ x. x == k) peers)) median
                  (member-get_elem? plst (length peers / 2) median hit) in
              let median_fine : is_negative median ≡ false = (sound.0 median inside).0 refl in
              elim (Bool-cases (s.lt (env.score median) beat.opportunistic_graft_threshold)) [
                | inr well ↦ rw (now, graft_opportunistically) (rw hit (rw well sound))
                | inl poor ↦
                    rw (now, graft_opportunistically)
                      (rw hit (
                        rw poor (
                          graft_some-IsSound u0 u beat.graft_draws beat.opportunistic_graft_peers
                            (λ p. s.lt (env.score median) (env.score p))
                            (λ k h. elim (Bool-cases (is_negative k)) [
                              | inr fine ↦ fine
                              | inl negative ↦ absurd (
                                  ground (
                                    arith,
                                    median_fine,
                                    trans (env.score median) (env.score k) s.zero_score h negative,
                                  ))
                            ])
                            sound)))
              ]
        ]
      ]

  -- After a heartbeat's maintenance of a mesh no peer in it has a negative score; and whoever is new
  -- in it is in the topic, was not backed off from it before, and is not a direct peer. Sorting is
  -- assumed to keep the elements, and the comparison of scores to be transitive.
  pub maintain_mesh_sound :
      (beat : Beat s) (u : Upkeep) (k : ℕ)
      → Permutes s params env topic beat
      → IsTransitive
      → member k (mesh_of (maintain_mesh s params env beat topic u).gs topic) ≡ true
      → (is_negative k ≡ false) × ((member k (mesh_of u.gs topic) ≡ true) ⊎ IsFresh u k)
  unfolding maintain_mesh IsSound
  maintain_mesh_sound beat u k permutes trans h =
      let u1 = prune_negative s params env topic (mesh_of u.gs topic) u in
      let u2 = fill_mesh s params env beat topic u1 in
      let u3 = trim_mesh s params env beat topic u2 in
      let u4 = fill_outbound s params env beat topic u3 in
      let start : IsSound u (λ j. not (member j (mesh_of u.gs topic))) u =
        (λ j inside. (λ o. absurd (ground (arith, o, inside)), inl inside), λ j e. e, refl) in
      let sound = graft_opportunistically-IsSound beat u u4 permutes trans (
        fill_outbound-IsSound beat u u3 (
          trim_mesh-IsSound beat u u2 (
            fill_mesh-IsSound beat u u1
              (prune_negative-IsSound u u (mesh_of u.gs topic) start)))) in
      let (fine, from) = sound.0 k h in (fine refl, from)
