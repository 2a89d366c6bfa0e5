-- ===== src/Router/Prune/KeptOut.antt =====
-- A peer that left a mesh by a PRUNE, over whatever GRAFTs and PRUNEs come later.
use go_libp2p_pubsub.Prelude.{
  ℕ, ◌≤◌, ◌<◌, ◌≡◌, ◌∙◌, ap, inl, inr, true, false, List, [], ◌∷◌, some, map, has, member,
  member-add, member-remove, ==_iff, Bool-cases, Option-cases, get_elem?, ◌==◌, arith, get_or_else,
  zero, suc,
}
use go_libp2p_pubsub.Router.Env.{Params, Scores, ControlMessage, ControlPrune, Router, Env}
use go_libp2p_pubsub.Router.Backoff.{until, time_add, clear_backoff, until-clear_backoff}
use go_libp2p_pubsub.Router.Graft.Admission.{mesh_of}
use go_libp2p_pubsub.Router.Graft.{handle_graft}
use go_libp2p_pubsub.Router.Graft.Backoffs.{handle_graft-backoff-le}
use go_libp2p_pubsub.Router.Graft.Replies.{handle_graft-admits}
use go_libp2p_pubsub.Router.Prune.{asked_interval, handle_prune}
use go_libp2p_pubsub.Router.Prune.Effects.{
  handle_prune-mesh, prune_topics-backoff-le, prune_topics-backs_off,
}

-- What may happen to the meshes and the backoffs: a GRAFT or PRUNE message of some peer, or that a
-- heartbeat, with its tick, clears the backoffs.
pub data Later : Type 0 where
  sends_graft sends_prune : ℕ → ControlMessage → Later
  clears : ℕ → Later

module _ (s : Scores) (params : Params) where
  unfoldable pub hear : Env s → Router → Later → Router
  hear env gs (sends_graft q ctl) = (handle_graft s params env gs q ctl).1
  hear env gs (sends_prune q ctl) = handle_prune s params env gs q ctl
  hear env gs (clears ticks) = record gs { backoff = clear_backoff ticks env.now gs.backoff }

  unfoldable pub hear_all : Router → List (Env s × Later) → Router
  unfolding hear
  hear_all gs [] = gs
  hear_all gs ((env, e) ∷ events) = hear_all (hear env gs e) events

  -- All of it before a time.
  abbrev pub Before : ℕ → List (Env s × Later) → Type 0
  Before end [] = Unit {0}
  Before end ((env, e) ∷ events) = (env.now < end) × Before end events

  -- `p` is not in the mesh, and backed off until `end` or longer.
  IsKeptOut : ℕ → ℕ → ℕ → Router → Type 0
  IsKeptOut t p end gs =
      (member p (mesh_of gs t) ≡ false) × (end ≤ get_or_else (until gs.backoff t p) 0)

  graft-IsKeptOut :
      (env : Env s) (gs : Router) (q : ℕ) (ctl : ControlMessage) (t p end : ℕ)
      → env.now < end
      → IsKeptOut t p end gs
      → IsKeptOut t p end (hear env gs (sends_graft q ctl))
  unfolding hear IsKeptOut
  graft-IsKeptOut env gs q ctl t p end early (out, late) = (
    elim (handle_graft-admits s params env gs q ctl t) [
      | inl same ↦ ap (member p) same ∙ out
      | inr (gains, _, (_, _, _, free, _, _)) ↦ elim (Bool-cases (q == p)) [
        | inr other ↦
            ap (member p) gains ∙ ground (arith, out, member-add q p (mesh_of gs t), other)
        | inl self ↦ absurd (elim (Option-cases (until gs.backoff t p)) [
          | inl none_yet ↦ ground (arith, late, early)
          | inr (expire, running) ↦
              let e : q ≡ p = (==_iff q p).0 self in ground (arith, late, early, free, running, e)
        ])
      ]
    ],
    omega (arith, late, handle_graft-backoff-le s params env q gs ctl t p),
  )

  hear-IsKeptOut :
      (env : Env s) (gs : Router) (e : Later) (t p end : ℕ)
      → env.now < end
      → IsKeptOut t p end gs
      → IsKeptOut t p end (hear env gs e)
  unfolding hear IsKeptOut handle_prune
  hear-IsKeptOut env gs (sends_graft q ctl) t p end early ok =
      graft-IsKeptOut env gs q ctl t p end early ok
  hear-IsKeptOut env gs (sends_prune q ctl) t p end early (out, late) = (
    ap (member p) (handle_prune-mesh s params env gs q ctl t)
        ∙ ground (arith, out, member-remove q p (mesh_of gs t)),
    omega (arith, late, prune_topics-backoff-le s params env q ctl.prune gs t p),
  )
  hear-IsKeptOut env gs (clears ticks) t p end early (out, late) = (
    out,
    ground (
      arith,
      late,
      early,
      until-clear_backoff ticks env.now t p gs.backoff,
      Option-cases (until gs.backoff t p),
    ),
  )

  hear_all-IsKeptOut :
      (gs : Router) (events : List (Env s × Later)) (t p end : ℕ)
      → Before end events
      → IsKeptOut t p end gs
      → IsKeptOut t p end (hear_all gs events)
  unfolding hear_all
  hear_all-IsKeptOut gs [] t p end early ok = ok
  hear_all-IsKeptOut gs ((env, e) ∷ events) t p end (first, rest) ok =
      hear_all-IsKeptOut (hear env gs e) events t p end rest
        (hear-IsKeptOut env gs e t p end first ok)

-- The topic that a PRUNE is about is among those of its message.
member-of_elem :
    (prunes : List ControlPrune) (i : ℕ) (prune : ControlPrune)
    → get_elem? prunes i ≡ some prune
    → member prune.topic_id (map ControlPrune.topic_id prunes) ≡ true
member-of_elem [] i prune at = absurd (ground arith)
member-of_elem (pr ∷ prunes) zero prune at =
    let same : pr ≡ prune = ground arith in rw same (ground arith)
member-of_elem (pr ∷ prunes) (suc i) prune at = ground (arith, member-of_elem prunes i prune at)

-- A PRUNE from `p` of a topic whose mesh we have keeps `p` out of it, over whatever GRAFT and PRUNE
-- messages of `p` and of others follow, any number of them, in whatever environments, with the
-- heartbeat's clearing of the backoffs among them, as long as the time at each is before the end of the backoff
-- that the PRUNE asked for: after them the mesh of the topic does not hold `p`. The backoff is the
-- one that the PRUNE gives, in 64-bit arithmetic, or else our own.
pub handle_prune-keeps_out :
    (s : Scores) (params : Params) (env : Env s) (gs : Router) (p : ℕ) (ctl : ControlMessage)
    (i : ℕ) (prune : ControlPrune) (events : List (Env s × Later))
    → get_elem? ctl.prune i ≡ some prune
    → has prune.topic_id gs.mesh ≡ true
    → Before s params (time_add env.now (asked_interval s params prune)) events
    → member p
        (mesh_of (hear_all s params (handle_prune s params env gs p ctl) events) prune.topic_id)
      ≡ false
unfolding handle_prune IsKeptOut
handle_prune-keeps_out s params env gs p ctl i prune events at known early =
    let gs' = handle_prune s params env gs p ctl in
    let t = prune.topic_id in
    let late = prune_topics-backs_off s params env p ctl.prune gs i prune at known in
    let m = handle_prune-mesh s params env gs p ctl t in
    let out : member p (mesh_of gs' t) ≡ false =
      ap (member p) m
      ∙ ground (arith, member-remove p p (mesh_of gs t), member-of_elem ctl.prune i prune at) in
    (hear_all-IsKeptOut s params gs' events t p (time_add env.now (asked_interval s params prune))
      early (out, late)).0
