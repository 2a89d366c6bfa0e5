-- ===== src/Router/IHave.antt =====
-- gossipsub.go: `handleIHave`, which answers advertised ids by an IWANT.
pub mod Limits
pub mod Answer
use go_libp2p_pubsub.Prelude.{
  ℕ, ◌+◌, ◌-◌, Bool, true, false, List, [], ◌∷◌, Option, none, some, has, lookup, lookup_or, insert,
  add, length, take, ltb, leb, ◌==◌, if◌then◌else◌,
}
use go_libp2p_pubsub.Shuffle.{shuffle}
use go_libp2p_pubsub.GossipTracer.{add_promise}
use go_libp2p_pubsub.Router.Env.{Params, Scores, ControlIHave, ControlMessage, Router, Env}

-- The loop over one IHAVE: past `MaxIHaveLength` ids it stops, and seen ids are left out.
unfoldable pub collect_mids : (ℕ → Bool) → ℕ → ℕ → List ℕ → List ℕ → List ℕ
collect_mids seen limit idx [] iwant = iwant
collect_mids seen limit idx (mid ∷ mids) iwant =
    let rest = collect_mids seen limit (idx + 1) mids (if seen mid then iwant else add mid iwant) in
    if leb limit idx then iwant else rest

-- `iask`: as many as are wanted, held to what is left of `MaxIHaveLength`.
abbrev pub iask_of : ℕ → ℕ → ℕ → ℕ
iask_of limit iasked wanted = if ltb limit (wanted + iasked) then limit - iasked else wanted

module _ (s : Scores) where
  -- The loop over the IHAVEs: those of topics outside the mesh or that the peer filter refuses are
  -- left out.
  unfoldable pub collect_ihaves : Params → Env s → Router → ℕ → List ControlIHave → List ℕ → List ℕ
  unfolding collect_mids
  collect_ihaves params env gs p [] iwant = iwant
  collect_ihaves params env gs p (ihave ∷ ihaves) iwant = collect_ihaves params env gs p ihaves (
      if has ihave.topic_id gs.mesh
      then (if env.peer_filter p ihave.topic_id
          then collect_mids env.seen_message params.max_ihave_length 0 ihave.message_ids iwant
          else iwant)
      else iwant)

  -- What follows the loops, where they found something to ask for. `none` is a panic.
  unfoldable pub ask_for : Params → Env s → Router → ℕ → List ℕ → Option (List (List ℕ) × Router)
  ask_for params env gs p iwant =
      let iasked = lookup_or 0 p gs.iasked in
      let iask = iask_of params.max_ihave_length iasked (length iwant) in
      let iwantlst = take iask (shuffle env.draws iwant) in
      elim (add_promise env.now (env.draw_index (length iwantlst)) gs.gossip_tracer p iwantlst) [
        | none ↦ none
        | some gt ↦ some (
          iwantlst ∷ [],
          record gs { iasked = insert p (iasked + iask) gs.iasked; gossip_tracer = gt },
        )
      ]

  -- The IWANTs to send, at most one, and the new state; `none` is a panic.
  unfoldable pub handle_ihave :
      Params → Env s → Router → ℕ → ControlMessage → Option (List (List ℕ) × Router)
  unfolding collect_ihaves ask_for
  handle_ihave params env gs p ctl =
      if s.lt (env.score p) env.gossip_threshold
      then some ([], gs)
      else let gs1 : Router = record gs {
        peerhave = insert p (lookup_or 0 p gs.peerhave + 1) gs.peerhave;
      } in
        let iwant = collect_ihaves params env gs1 p ctl.ihave [] in
        if ltb params.max_ihave_messages (lookup_or 0 p gs1.peerhave)
        then some ([], gs1)
        else if leb params.max_ihave_length (lookup_or 0 p gs1.iasked)
        then some ([], gs1)
        else if length iwant == 0
        then some ([], gs1)
        else ask_for params env gs1 p iwant
