-- ===== src/Router/Graft/Replies.antt =====
-- What `handleGraft` does to the meshes and what it answers, over all the GRAFTs of a message.
use Prim.Native.Nat.{max}
use go_libp2p_pubsub.Prelude.{
  ℕ, ◌≤◌, ◌≡◌, refl, ap, sym, inl, inr, ◌⊎◌, ◌∙◌, true, false, ◌&&◌, List, [], ◌∷◌, map, lookup_or,
  length, member, add, has, member-add, length-add-le, arith,
}
use go_libp2p_pubsub.Router.Env.{Params, Scores, ControlMessage, ControlPrune, Router, Env}
use go_libp2p_pubsub.Router.Peers.{make_prune}
use go_libp2p_pubsub.Router.Graft.{Grafting, graft_topic, graft_topics, handle_graft}
use go_libp2p_pubsub.Router.Graft.Admission.{
  mesh_of, IsAdmissible, is_waiting, Round, graft_topic-Round,
}

module _ (s : Scores) (params : Params) (env : Env s) (p : ℕ) where
  -- Several rounds, seen at a topic.
  Rounds : List ℕ → Grafting → Grafting → ℕ → Type 0
  Rounds topics g g' t =
      (g'.gs.direct ≡ g.gs.direct)
      × (g'.gs.outbound ≡ g.gs.outbound)
      × (has t g'.gs.mesh ≡ has t g.gs.mesh)
      × ((is_waiting s params env p g.gs t ≡ false) ⊎ (is_waiting s params env p g'.gs t ≡ true))
      × ((mesh_of g'.gs t ≡ mesh_of g.gs t)
          ⊎ ((mesh_of g'.gs t ≡ add p (mesh_of g.gs t))
              × (member t topics ≡ true)
              × IsAdmissible s params env p g.gs t))
      × ((member t topics ≡ false)
          ⊎ ((env.peer_filter p t && has t g.gs.mesh) ≡ false)
          ⊎ (member p (mesh_of g'.gs t) ≡ true)
          ⊎ (member t g'.refused ≡ true))
      × ((member t g.refused ≡ false) ⊎ (member t g'.refused ≡ true))

  add-add : (xs : List ℕ) → add p (add p xs) ≡ add p xs
  add-add [] = ground arith
  add-add (x ∷ xs) = ground (arith, add-add xs)

  Round-Rounds :
      (topic : ℕ) (topics : List ℕ) (g g1 g2 : Grafting) (t : ℕ)
      → Round s params env p topic g g1 t
      → Rounds topics g1 g2 t
      → Rounds (topic ∷ topics) g g2 t
  unfolding Round Rounds
  Round-Rounds topic topics g g1 g2 t (d, o, h, w, m, a, r) (d', o', h', w', m', a', r') = (
    d' ∙ d,
    o' ∙ o,
    h' ∙ h,
    ground arith,
    elim m [
      | inr (gains, e, ok) ↦ elim m' [
        | inl same ↦ inr (same ∙ gains, ground arith, ok)
        | inr (again, _, _) ↦
            inr (again ∙ ap (add p) gains ∙ add-add (mesh_of g.gs t), ground arith, ok)
      ]
      | inl same ↦ elim m' [
        | inl same' ↦ inl (same' ∙ same)
        | inr (gains, asked, (f, k, nd, nw, sc, room)) ↦ inr (
          gains ∙ ap (add p) same,
          ground arith,
          (f, sym h ∙ k, ap (member p) (sym d) ∙ nd, ground arith, sc, ground (arith, same, o)),
        )
      ]
    ],
    elim a [
      | inl other ↦ elim a' [
        | inl absent ↦ inl (ground arith)
        | inr (inl barred) ↦ inr (inl (ap (◌&&◌ (env.peer_filter p t)) (sym h) ∙ barred))
        | inr (inr done) ↦ inr (inr done)
      ]
      | inr (inl barred) ↦ inr (inl barred)
      | inr (inr (inl inside)) ↦
          inr (inr (inl (ground (arith, inside, m', member-add p p (mesh_of g1.gs t)))))
      | inr (inr (inr refused)) ↦ inr (inr (inr (ground arith)))
    ],
    ground arith,
  )

  graft_topics-Rounds :
      (topics : List ℕ) (g : Grafting) (t : ℕ)
      → Rounds topics g (graft_topics s params env p topics g) t
  unfolding Rounds graft_topics
  graft_topics-Rounds [] g t = (refl, refl, refl, ground arith, inl refl, inl refl, ground arith)
  graft_topics-Rounds (topic ∷ topics) g t =
      let g1 = graft_topic s params env p topic g in
      Round-Rounds topic topics g g1 (graft_topics s params env p topics g1) t
        (graft_topic-Round s params env p topic g t) (graft_topics-Rounds topics g1 t)

  abbrev graft_start : Router → Grafting
  graft_start gs = record { gs = gs; do_px = gs.do_px; refused = [] }

  prunes-refused :
      (g : Grafting) (topics : List ℕ) (t : ℕ)
      → member t (
          map ControlPrune.topic_id
            (map (λ topic. make_prune s params env g.gs p topic g.do_px false) topics))
        ≡ member t topics
  unfolding make_prune
  prunes-refused g [] t = refl
  prunes-refused g (topic ∷ topics) t = ground (arith, prunes-refused g topics t)

-- A GRAFT message from `p` leaves the mesh of each topic as it is, or adds `p` to it and nobody
-- else. It adds `p` only to a topic that the message asks for, whose mesh we have, that the peer
-- filter allows `p`, and when `p` is not a direct peer, has no running backoff, has no negative
-- score, and either the mesh was below `Dhi` or `p` is an outbound connection.
pub handle_graft-admits :
    (s : Scores) (params : Params) (env : Env s) (gs : Router) (p : ℕ) (ctl : ControlMessage)
    (t : ℕ)
    → (mesh_of (handle_graft s params env gs p ctl).1 t ≡ mesh_of gs t)
      ⊎ ((mesh_of (handle_graft s params env gs p ctl).1 t ≡ add p (mesh_of gs t))
          × (member t ctl.graft ≡ true)
          × IsAdmissible s params env p gs t)
unfolding handle_graft Rounds
handle_graft-admits s params env gs p ctl t =
    (graft_topics-Rounds s params env p ctl.graft (graft_start s params env p gs) t).4

-- A GRAFT for a topic whose mesh we have and that the peer filter allows is never left without an
-- answer: afterwards the peer is in the mesh, or the reply holds a PRUNE of the topic.
pub handle_graft-answers :
    (s : Scores) (params : Params) (env : Env s) (gs : Router) (p : ℕ) (ctl : ControlMessage)
    (t : ℕ)
    → member t ctl.graft ≡ true
    → env.peer_filter p t ≡ true
    → has t gs.mesh ≡ true
    → (member p (mesh_of (handle_graft s params env gs p ctl).1 t) ≡ true)
      ⊎ (member t (map ControlPrune.topic_id (handle_graft s params env gs p ctl).0) ≡ true)
unfolding handle_graft Rounds
handle_graft-answers s params env gs p ctl t asked allowed known =
    let g = graft_topics s params env p ctl.graft (graft_start s params env p gs) in
    elim (graft_topics-Rounds s params env p ctl.graft (graft_start s params env p gs) t).5 [
      | inl absent ↦ absurd (ground arith)
      | inr (inl barred) ↦ absurd (ground arith)
      | inr (inr (inl inside)) ↦ inl inside
      | inr (inr (inr refused)) ↦ inr (prunes-refused s params env p g g.refused t ∙ refused)
    ]

-- GRAFTs of a peer that is not an outbound connection never push a mesh above `Dhi`: the mesh of a
-- topic is afterwards no larger than `Dhi` or than it was, whichever is more.
pub handle_graft-size :
    (s : Scores) (params : Params) (env : Env s) (gs : Router) (p : ℕ) (ctl : ControlMessage)
    (t : ℕ)
    → lookup_or false p gs.outbound ≡ false
    → length (mesh_of (handle_graft s params env gs p ctl).1 t)
      ≤ max params.d_hi (length (mesh_of gs t))
handle_graft-size s params env gs p ctl t inbound =
    elim (handle_graft-admits s params env gs p ctl t) [
      | inl same ↦ rw same (omega arith)
      | inr (gains, _, (_, _, _, _, _, inl room)) ↦
          rw gains (omega (arith, room, length-add-le p (mesh_of gs t)))
      | inr (gains, _, (_, _, _, _, _, inr out)) ↦ absurd (ground arith)
    ]
