-- ===== src/Router/HandleRpc.antt =====
-- gossipsub.go: `HandleRPC` on the control message of an RPC, without the extensions. What it passes to
-- `sendRPC` is returned.
use go_libp2p_pubsub.Prelude.{
  ℕ, ◌≡◌, refl, Bool-cases, inl, inr, ◌&&◌, List, Option, none, some, Map, length, ◌==◌,
  if◌then◌else◌,
}
use go_libp2p_pubsub.Message.{Message}
use go_libp2p_pubsub.Router.Env.{Params, Scores, ControlPrune, ControlMessage, Router, Env, IsIntn}
use go_libp2p_pubsub.Router.IHave.{handle_ihave}
use go_libp2p_pubsub.Router.IHave.Answer.{handle_ihave-total}
use go_libp2p_pubsub.Router.IWant.{handle_iwant}
use go_libp2p_pubsub.Router.Graft.{handle_graft}
use go_libp2p_pubsub.Router.Prune.{handle_prune}
use go_libp2p_pubsub.Router.IDontWant.{handle_idontwant}

-- The arguments of `rpcWithControl` that are not nil.
pub record Reply : Type 0 where
  pub messages : Map Message
  pub iwant : List (List ℕ)
  pub prune : List ControlPrune

module _ (s : Scores) where
  -- `none` is a panic, of `handleIHave`.
  unfoldable pub handle_rpc :
      Params → Env s → Router → ℕ → Option ControlMessage → Option (Option Reply × Router)
  handle_rpc params env gs from control = elim control [
    | none ↦ some (none, gs)
    | some ctl ↦ elim (handle_ihave s params env gs from ctl) [
      | none ↦ none
      | some (iwant, gs1) ↦
          let (responses, gs2) = handle_iwant s params env gs1 from ctl in
          let (prune, gs3) = handle_graft s params env gs2 from ctl in
          let gs4 = handle_prune s params env gs3 from ctl in
          let gs5 = handle_idontwant params env.compute_checksum gs4 from ctl in
          if length iwant == 0 && length responses == 0 && length prune == 0
          then some (none, gs5)
          else some (some (record { messages = responses; iwant = iwant; prune = prune }), gs5)
    ]
  ]

  -- The draws being in range, the handler does not panic.
  pub handle_rpc-total :
      (params : Params) (env : Env s) (gs : Router) (from : ℕ) (control : Option ControlMessage)
      → IsIntn env.draw_index
      → (reply : Option Reply) × (gs' : Router) × (handle_rpc params env gs from control
          ≡ some (reply, gs'))
  unfolding handle_rpc
  handle_rpc-total params env gs from none draw = (none, gs, refl)
  handle_rpc-total params env gs from (some ctl) draw =
      let (iwant, gs1, e) = handle_ihave-total s params env gs from ctl draw in
      let responses = handle_iwant s params env gs1 from ctl in
      let prune = handle_graft s params env responses.1 from ctl in
      let gs4 = handle_prune s params env prune.1 from ctl in
      let gs5 = handle_idontwant params env.compute_checksum gs4 from ctl in
      elim (Bool-cases ((length iwant == 0 && length responses.0 == 0) && length prune.0 == 0)) [
        | inl silent ↦ (none, gs5, rw (e, handle_rpc) (rw silent refl))
        | inr answers ↦ (
          some (record { messages = responses.0; iwant = iwant; prune = prune.0 }),
          gs5,
          rw (e, handle_rpc) (rw answers refl),
        )
      ]
