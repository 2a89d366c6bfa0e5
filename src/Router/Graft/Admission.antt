-- ===== src/Router/Graft/Admission.antt =====
-- Who is admitted to a mesh by a GRAFT.
use go_libp2p_pubsub.Prelude.{
  ℕ, ◌<◌, ◌≡◌, refl, inl, inr, ◌⊎◌, ◌≢◌, subst, ==_iff, Map, Bool, true, false, not, ◌&&◌, List, [],
  ◌∷◌, ◌++◌, some, lookup, lookup_or, lookup-insert, insert, length, leb, member, add, Option-cases,
  Bool-cases, has, member-add, member-append, ◌==◌, arith,
}
use go_libp2p_pubsub.Router.Env.{Params, Scores, Router, Env}
use go_libp2p_pubsub.Router.Backoff.{until, add_backoff, until-do_add_backoff}
use go_libp2p_pubsub.Router.Graft.{
  Grafting, is_backed_off, is_flood, refuse, graft_stranger, graft_known, graft_topic,
}

abbrev pub mesh_of : Router → ℕ → List ℕ
mesh_of gs topic = lookup_or [] topic gs.mesh

module _ (s : Scores) (params : Params) (env : Env s) (p : ℕ) where
  -- What lets a peer into the mesh of a topic.
  abbrev pub IsAdmissible : Router → ℕ → Type 0
  IsAdmissible gs topic =
      (env.peer_filter p topic ≡ true)
      × (has topic gs.mesh ≡ true)
      × (member p gs.direct ≡ false)
      × (is_backed_off env.now (until gs.backoff topic p) ≡ false)
      × (s.lt (env.score p) s.zero_score ≡ false)
      × ((length (mesh_of gs topic) < params.d_hi) ⊎ (lookup_or false p gs.outbound ≡ true))

  abbrev pub is_waiting : Router → ℕ → Bool
  is_waiting gs t = is_backed_off env.now (until gs.backoff t p)

  -- One round of the loop, seen at a topic: what stays, that a running backoff runs on, that the
  -- mesh gains the peer or nothing, and that the peer is in the mesh or refused.
  unfoldable pub Round : ℕ → Grafting → Grafting → ℕ → Type 0
  Round topic g g' t =
      (g'.gs.direct ≡ g.gs.direct)
      × (g'.gs.outbound ≡ g.gs.outbound)
      × (has t g'.gs.mesh ≡ has t g.gs.mesh)
      × ((is_waiting g.gs t ≡ false) ⊎ (is_waiting g'.gs t ≡ true))
      × ((mesh_of g'.gs t ≡ mesh_of g.gs t)
          ⊎ ((mesh_of g'.gs t ≡ add p (mesh_of g.gs t)) × (topic ≡ t) × IsAdmissible g.gs t))
      × ((topic ≢ t)
          ⊎ ((env.peer_filter p t && has t g.gs.mesh) ≡ false)
          ⊎ (member p (mesh_of g'.gs t) ≡ true)
          ⊎ (member t g'.refused ≡ true))
      × ((member t g.refused ≡ false) ⊎ (member t g'.refused ≡ true))

  -- A state that differs in the penalties alone.
  abbrev penalised : Grafting → Map ℕ → Grafting
  penalised g pens = record g { gs = record g.gs { penalties = pens } }

  refuse-Round :
      (topic : ℕ) (g : Grafting) (px : Bool) (pens : Map ℕ) (t : ℕ)
      → Round topic g (refuse s params env p topic px (penalised g pens)) t
  unfolding Round refuse add_backoff
  refuse-Round topic g px pens t = (
    refl,
    refl,
    refl,
    ground (arith, until-do_add_backoff env.now g.gs.backoff p topic params.prune_backoff t p),
    inl refl,
    ground (arith, member-append t g.refused (topic ∷ [])),
    ground (arith, member-append t g.refused (topic ∷ [])),
  )

  admit-Round :
      (topic : ℕ) (peers : List ℕ) (g : Grafting) (t : ℕ)
      → lookup topic g.gs.mesh ≡ some peers
      → IsAdmissible g.gs topic
      → Round topic g
          (record g {
            gs = record g.gs {
              mesh = insert topic (add p peers) g.gs.mesh;
              grafted = (p, topic) ∷ g.gs.grafted;
            };
          })
          t
  unfolding Round
  admit-Round topic peers g t at ok = elim (Bool-cases (topic == t)) [
    | inl same ↦
        let e : topic ≡ t = (==_iff topic t).0 same in
        (
          refl,
          refl,
          ground (arith, lookup-insert topic t (add p peers) g.gs.mesh),
          ground arith,
          inr (
            ground (arith, lookup-insert topic t (add p peers) g.gs.mesh),
            e,
            subst (IsAdmissible g.gs) e ok,
          ),
          inr (
              inr (
                inl (
                  ground
                    (arith, lookup-insert topic t (add p peers) g.gs.mesh, member-add p p peers)))),
          ground arith,
        )
    | inr other ↦ (
      refl,
      refl,
      ground (arith, lookup-insert topic t (add p peers) g.gs.mesh),
      ground arith,
      inl (ground (arith, lookup-insert topic t (add p peers) g.gs.mesh)),
      inl (ground arith),
      ground arith,
    )
  ]

  graft_stranger-Round :
      (topic : ℕ) (peers : List ℕ) (g : Grafting) (t : ℕ)
      → lookup topic g.gs.mesh ≡ some peers
      → member p g.gs.direct ≡ false
      → env.peer_filter p topic ≡ true
      → Round topic g (graft_stranger s params env p topic peers g) t
  unfolding graft_stranger
  graft_stranger-Round topic peers g t at strange allowed =
      elim (Bool-cases (is_waiting g.gs topic)) [
        | inl waiting ↦ elim (Bool-cases (is_flood params env.now (until g.gs.backoff topic p))) [
          | inl flood ↦ rw (waiting, graft_stranger) (rw (flood) (refuse-Round topic g false _ t))
          | inr slow ↦ rw (waiting, graft_stranger) (rw (slow) (refuse-Round topic g false _ t))
        ]
        | inr free ↦ elim (Bool-cases (s.lt (env.score p) s.zero_score)) [
          | inl bad ↦
              rw (free, graft_stranger) (rw bad (refuse-Round topic g false g.gs.penalties t))
          | inr fine ↦
              elim (Bool-cases
                (leb params.d_hi (length peers) && not (lookup_or false p g.gs.outbound))) [
                  | inl crowded ↦
                      rw (free, graft_stranger)
                        (rw fine (rw crowded (refuse-Round topic g g.do_px g.gs.penalties t)))
                  | inr room ↦
                      rw (free, graft_stranger)
                        (rw fine (
                          rw room (
                            admit-Round topic peers g t at
                              (allowed, ground arith, strange, free, fine, ground arith))))
                ]
        ]
      ]

  same-Round :
      (topic : ℕ) (g : Grafting) (px : Bool) (t : ℕ)
      → ((env.peer_filter p topic && has topic g.gs.mesh) ≡ false)
        ⊎ (member p (mesh_of g.gs topic) ≡ true)
      → Round topic g (record g { do_px = px }) t
  unfolding Round
  same-Round topic g px t why = elim (Bool-cases (topic == t)) [
    | inl same ↦
        let e : topic ≡ t = (==_iff topic t).0 same in
        (refl, refl, refl, ground arith, inl refl, rw (← e) (ground arith), ground arith)
    | inr other ↦ (refl, refl, refl, ground arith, inl refl, inl (ground arith), ground arith)
  ]

  direct-Round :
      (topic : ℕ) (g : Grafting) (t : ℕ)
      → Round topic g (record g { do_px = false; refused = g.refused ++ topic ∷ [] }) t
  unfolding Round
  direct-Round topic g t = (
    refl,
    refl,
    refl,
    ground arith,
    inl refl,
    ground (arith, member-append t g.refused (topic ∷ [])),
    ground (arith, member-append t g.refused (topic ∷ [])),
  )

  pub graft_topic-Round :
      (topic : ℕ) (g : Grafting) (t : ℕ) → Round topic g (graft_topic s params env p topic g) t
  unfolding graft_topic graft_known
  graft_topic-Round topic g t = elim (Bool-cases (env.peer_filter p topic)) [
    | inr no_filter ↦
        rw (no_filter, graft_topic) (same-Round topic g g.do_px t (inl (ground arith)))
    | inl allowed ↦ elim (Option-cases (lookup topic g.gs.mesh)) [
      | inl unknown ↦
          rw (allowed, graft_topic) (rw unknown (same-Round topic g false t (inl (ground arith))))
      | inr (peers, at) ↦
          rw (allowed, graft_topic)
            (rw at (elim (Bool-cases (member p peers)) [
              | inl inside ↦
                  rw (inside, graft_known) (same-Round topic g g.do_px t (inr (ground arith)))
              | inr out ↦ elim (Bool-cases (member p g.gs.direct)) [
                | inl direct ↦ rw (out, graft_known) (rw direct (direct-Round topic g t))
                | inr strange ↦
                    rw (out, graft_known)
                      (rw strange (graft_stranger-Round topic peers g t at strange allowed))
              ]
            ]))
    ]
  ]
