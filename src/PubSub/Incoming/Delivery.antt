-- ===== src/PubSub/Incoming/Delivery.antt =====
-- What is delivered: each message once, and only messages that passed every check.
use go_libp2p_pubsub.Prelude.{
  ℕ, ◌≤◌, ◌≡◌, refl, ap, Bool, true, false, ◌||◌, List, [], ◌∷◌, Option, none, some, count_of,
  Bool-cases, Option-cases, inl, inr, arith, ◌==◌,
}
use go_libp2p_pubsub.Message.{Message}
use go_libp2p_pubsub.Rpc.{Rpc}
use go_libp2p_pubsub.Validation.{ValidatorImpl, get_validators}
use go_libp2p_pubsub.Validation.Fates.{every}
use go_libp2p_pubsub.Router.Env.{Scores}
use go_libp2p_pubsub.Router.Env.{IsIntn}
use go_libp2p_pubsub.Router.Streams.{
  AcceptStatus, accept_none, accept_control, accept_all, accept_from,
}
use go_libp2p_pubsub.Router.HandleRpc.{Reply, handle_rpc-total}
use go_libp2p_pubsub.PubSub.{PubSub, seen_by_router}
use go_libp2p_pubsub.PubSub.Incoming.{
  Config, record_subscriptions, select_messages, Flow, publish_message, give_to_router,
  handle_vetted, handle_incoming_rpc, filtered, push_msgs, Moment, check_signing_policy, FlowEvent,
  arrives, validates, sends, publishes, publish_local, flow_step, flow_run,
}
use go_libp2p_pubsub.PubSub.Incoming.Frames.{Same, Same-refl, record_subscriptions-Same}
use go_libp2p_pubsub.PubSub.Incoming.Clean.{
  publish_message-IsClean, push_msgs-IsClean, select_messages-lem, run_validation-IsClean,
  Same-IsClean, is_proper-Same, is_sound, is_proper, is_ours, IsClean, Agrees, every-ext,
}

module _ (config : Config) (message_id : Message → ℕ) (verify : Message → Bool) (s : Scores) where
  IsCleanResult : PubSub → Option (Option Reply × Flow) → Type 0
  IsCleanResult p r =
      (reply : Option Reply) × (f : Flow) × (r ≡ some (reply, f))
      × IsClean config message_id verify p f

  give_to_router-IsClean :
      (p : PubSub) (m : Moment s) (f : Flow) (rpc : Rpc)
      → IsIntn m.env.draw_index
      → IsClean config message_id verify p f
      → IsCleanResult p (give_to_router s config m f rpc)
  unfolding give_to_router IsClean Same IsCleanResult
  give_to_router-IsClean p m f rpc draw ok =
      let (reply, rt, runs) =
        handle_rpc-total s m.params (seen_by_router s f.p m.env) f.p.rt rpc.from rpc.control draw in
      (reply, record f { p = record f.p { rt = rt } }, rw (runs, give_to_router) refl, ok)

  handle_vetted-IsClean :
      (p : PubSub) (m : Moment s) (f : Flow) (rpc : Rpc) (status : AcceptStatus)
      → Agrees config message_id verify m.world
      → IsIntn m.env.draw_index
      → IsClean config message_id verify p f
      → IsCleanResult p (handle_vetted s config m f rpc status)
  unfolding handle_vetted IsCleanResult IsClean
  handle_vetted-IsClean p m f rpc accept_none agrees draw ok = (none, f, refl, ok)
  handle_vetted-IsClean p m f rpc accept_control agrees draw ok =
      give_to_router-IsClean p m f rpc draw ok
  handle_vetted-IsClean p m f rpc accept_all agrees draw ok =
      let chosen = select_messages config m.world f.p rpc.from rpc.publish in
      let (same, proper) =
        select_messages-lem config message_id verify m.world f.p f.p rpc.from rpc.publish
          (Same-refl f.p) in
      give_to_router-IsClean p m
        (push_msgs m.world m.queue_room 0 (record f { p = chosen.1 }) chosen.0) rpc draw
        (push_msgs-IsClean config message_id verify p m.world m.queue_room 0
          (record f { p = chosen.1 }) chosen.0 agrees
          (Same-IsClean config message_id verify p f chosen.1 same ok)
          (ground (
            arith,
            proper,
            every-ext
                (λ m.
                  is_ours config message_id verify m || is_proper config message_id verify f.p m)
                (λ m. is_ours config message_id verify m || is_proper config message_id verify p m)
                chosen.0
                (λ m.
                  ap (λ b. is_ours config message_id verify m || b)
                    (is_proper-Same config message_id verify p (record f.p { caches = p.caches }) m
                      ok.0)),
          )))

  handle_incoming_rpc-IsClean :
      (p : PubSub) (m : Moment s) (f : Flow) (rpc : Rpc)
      → Agrees config message_id verify m.world
      → IsIntn m.env.draw_index
      → IsClean config message_id verify p f
      → IsCleanResult p (handle_incoming_rpc s config m f rpc)
  unfolding handle_incoming_rpc IsCleanResult
  handle_incoming_rpc-IsClean p m f rpc agrees draw ok =
      elim (Bool-cases (config.inspect rpc.from rpc)) [
        | inr refused ↦ (none, f, rw (refused, handle_incoming_rpc) refl, ok)
        | inl fine ↦ elim (Option-cases (filtered config rpc)) [
          | inl too_many ↦ (none, f, rw (fine, handle_incoming_rpc) (rw too_many refl), ok)
          | inr (subs, left) ↦
              let q = record_subscriptions f.p rpc.from subs in
              let status = accept_from s m.env m.graylist_threshold m.gate f.p.rt rpc.from in
              let (reply, f', runs, clean) =
                handle_vetted-IsClean p m (record f { p = q }) rpc status agrees draw
                  (Same-IsClean config message_id verify p f q
                    (record_subscriptions-Same f.p rpc.from subs) ok) in
              (reply, f', rw (fine, handle_incoming_rpc) (rw left runs), clean)
        ]
      ]

  validates-IsClean :
      (p : PubSub) (m : Moment s) (f : Flow) (q : List (Message × List ValidatorImpl))
      → Agrees config message_id verify m.world
      → IsClean config message_id verify p (record f { validation_queue = q })
      → (f' : Flow) × (flow_step s config m (record f { validation_queue = q }) validates ≡ some f')
        × IsClean config message_id verify p f'
  unfolding flow_step IsClean Same
  validates-IsClean p m f [] agrees ok = (record f { validation_queue = [] }, refl, ok)
  validates-IsClean p m f ((msg, vals) ∷ q) agrees (same, v, sent, got, once) =
      run_validation-IsClean config message_id verify p m.world (record f { validation_queue = q })
        vals msg false agrees (same, ground (arith, v), sent, got, once) (ground (arith, v))

  sends-IsClean :
      (p : PubSub) (m : Moment s) (f : Flow) (q : List Message)
      → Agrees config message_id verify m.world
      → IsClean config message_id verify p (record f { send_msg = q })
      → (f' : Flow) × (flow_step s config m (record f { send_msg = q }) sends ≡ some f')
        × IsClean config message_id verify p f'
  unfolding flow_step IsClean Same
  sends-IsClean p m f [] agrees ok = (record f { send_msg = [] }, refl, ok)
  sends-IsClean p m f (msg ∷ q) agrees (same, v, sent, got, once) = (
    publish_message m.world (record f { send_msg = q }) msg,
    refl,
    publish_message-IsClean config message_id verify p m.world (record f { send_msg = q }) msg
        agrees (same, v, ground (arith, sent), got, once) (ground (arith, sent)),
  )

  flow_step-IsClean :
      (p : PubSub) (m : Moment s) (f : Flow) (e : FlowEvent)
      → Agrees config message_id verify m.world
      → IsIntn m.env.draw_index
      → IsClean config message_id verify p f
      → (f' : Flow) × (flow_step s config m f e ≡ some f') × IsClean config message_id verify p f'
  unfolding flow_step publish_local IsCleanResult
  flow_step-IsClean p m f (arrives rpc) agrees draw ok =
      let (reply, f', runs, clean) = handle_incoming_rpc-IsClean p m f rpc agrees draw ok in
      (f', rw (runs, flow_step) refl, clean)
  flow_step-IsClean p m f validates agrees draw ok =
      validates-IsClean p m f f.validation_queue agrees ok
  flow_step-IsClean p m f sends agrees draw ok = sends-IsClean p m f f.send_msg agrees ok
  flow_step-IsClean p m f (publishes pmsg) agrees draw ok =
      let msg = record pmsg { id = 0; received_from = config.self } in
      elim (Bool-cases (check_signing_policy config msg)) [
        | inr refused ↦ (f, rw (refused, publish_local) refl, ok)
        | inl signed ↦
            let (f', runs, clean) =
              run_validation-IsClean config message_id verify p m.world f (get_validators f.val msg)
                msg true agrees ok (ground arith) in
            (f', rw (signed, publish_local) runs, clean)
      ]

  -- Each event's world knows the ids and signatures, the results of its validators arrive each once,
  -- and its draws are in range.
  abbrev pub Agreeing : List (Moment s × FlowEvent) → Type 0
  Agreeing [] = Unit {0}
  Agreeing ((m, e) ∷ events) =
      Agrees config message_id verify m.world × IsIntn m.env.draw_index × Agreeing events

  flow_run-IsClean :
      (p : PubSub) (f : Flow) (events : List (Moment s × FlowEvent))
      → Agreeing events
      → IsClean config message_id verify p f
      → (f' : Flow) × (flow_run s config f events ≡ some f') × IsClean config message_id verify p f'
  unfolding flow_run
  flow_run-IsClean p f [] agree ok = (f, refl, ok)
  flow_run-IsClean p f ((m, e) ∷ events) (agrees, draw, agree) ok =
      let (f1, runs, ok1) = flow_step-IsClean p m f e agrees draw ok in
      let (f2, rest, ok2) = flow_run-IsClean p f1 events agree ok1 in
      (f2, rw (runs, flow_run) rest, ok2)

  -- From a start where nothing is on its way, whatever RPCs arrive, and however the validation,
  -- sending and publishing of messages interleave, neither a handler nor the validation panics, where
  -- the draws are in range, each result of a validator arrives once, and the ids and signatures of
  -- messages are those of one function each. Until the caches are
  -- swept each id is delivered at most once; and every message delivered is our own, or one that
  -- we subscribe to or relay, whose peer and source are not blacklisted, that the signing policy
  -- allows, and that does not claim to be from us; and its signature is right if it has one.
  pub delivered-once :
      (f : Flow) (events : List (Moment s × FlowEvent)) (k : ℕ)
      → Agreeing events
      → f.validation_queue ≡ []
      → f.send_msg ≡ []
      → f.delivered ≡ []
      → (f' : Flow) × (flow_run s config f events ≡ some f')
        × (count_of (λ (msg : Message). message_id msg == k) f'.delivered ≤ 1)
        × (every (is_sound config message_id verify f.p) f'.delivered ≡ true)
  unfolding IsClean Same
  delivered-once f events k agree q sent got =
      let (f', runs, (_, _, _, sound, once)) =
        flow_run-IsClean f.p f events agree
          (Same-refl f.p, rw q refl, rw sent refl, rw got refl, λ k. rw got (omega arith)) in
      (f', runs, ground (arith, once k), sound)
