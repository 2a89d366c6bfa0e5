-- ===== src/Router/Graft/Backoffs.antt =====
-- What `handleGraft` does to the backoffs.
use go_libp2p_pubsub.Prelude.{
  ℕ, ◌≤◌, false, not, ◌&&◌, List, [], ◌∷◌, lookup, lookup_or, length, leb, member, Bool-cases,
  Option-cases, inl, inr, arith, get_or_else,
}
use go_libp2p_pubsub.Router.Env.{Params, Scores, Router, Env, ControlMessage}
use go_libp2p_pubsub.Router.Backoff.{until, add_backoff, until-do_add_backoff}
use go_libp2p_pubsub.Router.Graft.{
  Grafting, is_backed_off, is_flood, refuse, graft_stranger, graft_known, graft_topic, graft_topics,
  handle_graft,
}

module _ (s : Scores) (params : Params) (env : Env s) (p : ℕ) where
  -- The end of the backoff of `k` from `t`, or 0.
  abbrev ends : Router → ℕ → ℕ → ℕ
  ends gs t k = get_or_else (until gs.backoff t k) 0

  graft_stranger-ends :
      (topic : ℕ) (peers : List ℕ) (g : Grafting) (t k : ℕ)
      → ends g.gs t k ≤ ends (graft_stranger s params env p topic peers g).gs t k
  unfolding graft_stranger refuse add_backoff
  graft_stranger-ends topic peers g t k =
      let raised = until-do_add_backoff env.now g.gs.backoff p topic params.prune_backoff t k in
      elim (Bool-cases (is_backed_off env.now (until g.gs.backoff topic p))) [
        | inl waiting ↦ elim (Bool-cases (is_flood params env.now (until g.gs.backoff topic p))) [
          | inl flood ↦ rw (waiting, graft_stranger) (rw flood (ground (arith, raised)))
          | inr slow ↦ rw (waiting, graft_stranger) (rw slow (ground (arith, raised)))
        ]
        | inr free ↦ elim (Bool-cases (s.lt (env.score p) s.zero_score)) [
          | inl bad ↦ rw (free, graft_stranger) (rw bad (ground (arith, raised)))
          | inr fine ↦
              elim (Bool-cases
                (leb params.d_hi (length peers) && not (lookup_or false p g.gs.outbound))) [
                  | inl crowded ↦
                      rw (free, graft_stranger) (rw fine (rw crowded (ground (arith, raised))))
                  | inr room ↦ rw (free, graft_stranger) (rw fine (rw room (omega arith)))
                ]
        ]
      ]

  graft_topic-ends :
      (topic : ℕ) (g : Grafting) (t k : ℕ)
      → ends g.gs t k ≤ ends (graft_topic s params env p topic g).gs t k
  unfolding graft_topic graft_known
  graft_topic-ends topic g t k = elim (Bool-cases (env.peer_filter p topic)) [
    | inr barred ↦ rw (barred, graft_topic) (omega arith)
    | inl allowed ↦ elim (Option-cases (lookup topic g.gs.mesh)) [
      | inl unknown ↦ rw (allowed, graft_topic) (rw unknown (omega arith))
      | inr (peers, at) ↦
          rw (allowed, graft_topic)
            (rw at (elim (Bool-cases (member p peers)) [
              | inl inside ↦ rw (inside, graft_known) (omega arith)
              | inr out ↦ elim (Bool-cases (member p g.gs.direct)) [
                | inl direct ↦ rw (out, graft_known) (rw direct (omega arith))
                | inr strange ↦
                    rw (out, graft_known) (rw strange (graft_stranger-ends topic peers g t k))
              ]
            ]))
    ]
  ]

  graft_topics-ends :
      (topics : List ℕ) (g : Grafting) (t k : ℕ)
      → ends g.gs t k ≤ ends (graft_topics s params env p topics g).gs t k
  unfolding graft_topics
  graft_topics-ends [] g t k = omega arith
  graft_topics-ends (topic ∷ topics) g t k =
      let g1 = graft_topic s params env p topic g in
      omega (arith, graft_topic-ends topic g t k, graft_topics-ends topics g1 t k)

  -- A GRAFT message cuts no backoff short.
  pub handle_graft-backoff-le :
      (gs : Router) (ctl : ControlMessage) (t k : ℕ)
      → get_or_else (until gs.backoff t k) 0
        ≤ get_or_else (until (handle_graft s params env gs p ctl).1.backoff t k) 0
  unfolding handle_graft
  handle_graft-backoff-le gs ctl t k =
      graft_topics-ends ctl.graft (record { gs = gs; do_px = gs.do_px; refused = [] }) t k
