-- ===== src/PubSub/Incoming.antt =====
-- pubsub.go: an RPC that arrives, up to the router's part in it, and the messages that are pushed
-- through the validation pipeline and published.
pub mod Subscribers
pub mod Frames
pub mod Outcomes
pub mod Clean
pub mod Delivery
use go_libp2p_pubsub.Prelude.{
  ℕ, suc, Bool, true, false, not, ◌&&◌, ◌||◌, List, [], ◌∷◌, ◌++◌, Option, none, some, Map, lookup,
  lookup_or, insert, delete, has, length, member, ltb, ◌==◌, if◌then◌else◌, is_some,
}
use go_libp2p_pubsub.Message.{Message, get_from}
use go_libp2p_pubsub.Blacklist.{contains}
use go_libp2p_pubsub.Rpc.{Rpc}
use go_libp2p_pubsub.TimeCache.{add_id, has_id}
use go_libp2p_pubsub.SubscriptionFilter.{SubOpts, SubscriptionFilter}
use go_libp2p_pubsub.Validation.{
  Caches, Validators, ValidatorImpl, World, Fate, valid, duplicate, rejected, panicked, Pushed,
  forward, queue_full, queued, push_validation, validate, get_validators,
}
use go_libp2p_pubsub.Router.Env.{Params, Scores, Env}
use go_libp2p_pubsub.Router.Streams.{
  AcceptStatus, accept_none, accept_control, accept_all, accept_from,
}
use go_libp2p_pubsub.Router.HandleRpc.{Reply, handle_rpc}
use go_libp2p_pubsub.PubSub.{PubSub, PeerTopicState, seen_by_router}
use go_libp2p_pubsub.PubSub.Peers.{notify}

-- The options of `PubSub` that are read here. `sign_id` is 0 where we sign as nobody.
pub record Config : Type 0 where
  pub inspect : ℕ → Rpc → Bool
  pub sub_filter : Option SubscriptionFilter
  pub must_sign : Bool
  pub must_verify : Bool
  pub sign_id : ℕ
  pub self : ℕ

-- The body of the loop over the subscriptions.
unfoldable pub record_subscription : PubSub → ℕ → SubOpts → PubSub
record_subscription p from sub =
    let t = sub.topicid in
    let tmap = lookup_or [] t p.topics in
    let state : PeerTopicState = record {
      requests_partial = sub.requests_partial;
      supports_partial = sub.requests_partial || sub.supports_sending_partial;
    } in
    let joined = record p { topics = insert t (insert from state tmap) p.topics } in
    let tmap' = delete from tmap in
    let left = record p {
      topics = if length tmap' == 0 then delete t p.topics else insert t tmap' p.topics;
    } in
    if sub.subscribe
    then (if has from tmap then joined else notify joined t from true)
    else if has from tmap
    then notify left t from false
    else p

unfoldable pub record_subscriptions : PubSub → ℕ → List SubOpts → PubSub
unfolding record_subscription
record_subscriptions p from [] = p
record_subscriptions p from (sub ∷ subs) =
    record_subscriptions (record_subscription p from sub) from subs

-- `subscribedToMsg` or `canRelayMsg`.
abbrev pub wants_topic : PubSub → Message → Bool
wants_topic p msg = has msg.topic p.my_subs || ltb 0 (lookup_or 0 msg.topic p.my_relays)

-- `checkSigningPolicy`, false for an error.
unfoldable pub check_signing_policy : Config → Message → Bool
check_signing_policy config msg =
    if not config.must_verify
    then true
    else if config.must_sign
    then is_some msg.signature
    else not (is_some msg.signature)
      && not (config.sign_id == 0 && (is_some msg.seqno || is_some msg.from || is_some msg.key))

-- What `shouldPush` asks before it looks for the message among those seen.
unfoldable pub is_admissible : Config → PubSub → Message → Bool
unfolding check_signing_policy
is_admissible config p msg =
    not (contains p.blacklist msg.received_from)
    && not (contains p.blacklist (get_from msg))
    && check_signing_policy config msg
    && not (get_from msg == config.self && not (msg.received_from == config.self))

unfoldable pub should_push : Config → World → PubSub → Message → Bool × PubSub
unfolding is_admissible
should_push config w p msg =
    let (known, seen) = has_id w.now p.caches.seen (w.message_id msg) in
    if is_admissible config p msg
    then (not known, record p { caches = record p.caches { seen = seen } })
    else (false, p)

-- The loop that makes `toPush`.
unfoldable pub select_messages : Config → World → PubSub → ℕ → List Message → List Message × PubSub
unfolding should_push
select_messages config w p from [] = ([], p)
select_messages config w p from (pmsg ∷ msgs) =
    let msg = record pmsg { id = 0; received_from = from; is_local = false } in
    let (push, p1) = should_push config w p msg in
    let (chosen, p2) = select_messages config w p1 from msgs in
    if wants_topic p msg
    then (if push then msg ∷ chosen else chosen, p2)
    else select_messages config w p from msgs

-- `PubSub` with its validators, the messages in the validation queue, those that `sendMsg` holds, and
-- those that were delivered to the subscribers and given to the router, the latest first.
pub record Flow : Type 0 where
  pub p : PubSub
  pub val : Validators
  pub validation_queue : List (Message × List ValidatorImpl)
  pub send_msg : List Message
  pub delivered : List Message

unfoldable pub publish_message : World → Flow → Message → Flow
publish_message w f msg =
    let (fresh, cache) = add_id w.now f.p.caches.delivered (w.message_id msg) in
    let p = record f.p { caches = record f.p.caches { delivered = cache } } in
    if fresh then record f { p = p; delivered = msg ∷ f.delivered } else record f { p = p }

-- `queue_room` says whether the channel of the queue takes the message.
unfoldable pub push_msg : World → Bool → Flow → Message → Flow
unfolding publish_message
push_msg w queue_room f msg =
    let (fresh, cache) = add_id w.now f.p.caches.seen (w.message_id msg) in
    let marked = record f { p = record f.p { caches = record f.p.caches { seen = cache } } } in
    elim (push_validation queue_room f.val msg) [
      | forward ↦ if fresh then publish_message w marked msg else marked
      | queue_full ↦ f
      | queued vals ↦ record f { validation_queue = f.validation_queue ++ (msg, vals) ∷ [] }
    ]

-- The workers take messages from the queue meanwhile: `queue_room` says how it stands for the message
-- at each place of the list, the first of which has the index `i`.
unfoldable pub push_msgs : World → (ℕ → Bool) → ℕ → Flow → List Message → Flow
unfolding push_msg
push_msgs w queue_room i f [] = f
push_msgs w queue_room i f (msg ∷ msgs) =
    push_msgs w queue_room (suc i) (push_msg w (queue_room i) f msg) msgs

-- The subscriptions that are left by the filter, or `none` for its error.
abbrev pub filtered : Config → Rpc → Option (List SubOpts)
filtered config rpc = elim config.sub_filter [
  | none ↦ some rpc.subscriptions
  | some filter ↦
      if length rpc.subscriptions == 0
      then some []
      else filter.filter_incoming_subscriptions rpc.from rpc.subscriptions
]

-- A worker of the pipeline takes a message from the queue, `processLoop` takes one from `sendMsg`,
-- and a local message is validated by the goroutine that publishes it.
pub data FlowEvent : Type 0 where
  arrives : Rpc → FlowEvent
  validates sends : FlowEvent
  publishes : Message → FlowEvent

-- `validate`, for a worker or for the goroutine of a local message, and what it leads to: `onValid`
-- of a worker puts the message into `sendMsg`, and `Publish` does so unless there is an error, which
-- there is not for a duplicate. `none` is a panic.
unfoldable pub run_validation : World → Flow → List ValidatorImpl → Message → Bool → Option Flow
run_validation w f vals msg is_local =
    let (fate, caches) = validate w f.p.caches vals msg.received_from msg is_local in
    let f' = record f { p = record f.p { caches = caches } } in
    let sent = record f' { send_msg = f.send_msg ++ msg ∷ [] } in
    elim fate [
      | valid ↦ some sent
      | duplicate ↦ some (if is_local then sent else f')
      | rejected reason ↦ some f'
      | panicked ↦ none
    ]

-- `ValidateLocal`, and what `Publish` does with its answer.
unfoldable pub publish_local : Config → World → Flow → Message → Option Flow
unfolding run_validation
publish_local config w f msg =
    if check_signing_policy config msg
    then run_validation w f (get_validators f.val msg) msg true
    else some f

-- What the network and the score say at the moment of an event.
pub record Moment (s : Scores) : Type 0 where
  pub params : Params
  pub env : Env s
  pub world : World
  pub graylist_threshold : s.Score
  pub gate : AcceptStatus
  pub queue_room : ℕ → Bool

module _ (s : Scores) (config : Config) where
  -- `rt.HandleRPC`.
  unfoldable pub give_to_router : Moment s → Flow → Rpc → Option (Option Reply × Flow)
  give_to_router m f rpc =
      elim (handle_rpc s m.params (seen_by_router s f.p m.env) f.p.rt rpc.from rpc.control) [
        | none ↦ none
        | some (reply, rt) ↦ some (reply, record f { p = record f.p { rt = rt } })
      ]

  -- What follows the vetting of the peer. `Preprocess`, which sends IDONTWANTs, is left out.
  unfoldable pub handle_vetted : Moment s → Flow → Rpc → AcceptStatus → Option (Option Reply × Flow)
  unfolding give_to_router select_messages push_msgs
  handle_vetted m f rpc accept_none = some (none, f)
  handle_vetted m f rpc accept_control = give_to_router m f rpc
  handle_vetted m f rpc accept_all =
      let (to_push, p) = select_messages config m.world f.p rpc.from rpc.publish in
      give_to_router m (push_msgs m.world m.queue_room 0 (record f { p = p }) to_push) rpc

  unfoldable pub handle_incoming_rpc : Moment s → Flow → Rpc → Option (Option Reply × Flow)
  unfolding handle_vetted record_subscriptions
  handle_incoming_rpc m f rpc =
      if not (config.inspect rpc.from rpc) then some (none, f) else elim (filtered config rpc) [
        | none ↦ some (none, f)
        | some subs ↦
            handle_vetted m (record f { p = record_subscriptions f.p rpc.from subs }) rpc
              (accept_from s m.env m.graylist_threshold m.gate f.p.rt rpc.from)
      ]

  unfoldable pub flow_step : Moment s → Flow → FlowEvent → Option Flow
  unfolding handle_incoming_rpc run_validation publish_local publish_message
  flow_step m f (arrives rpc) = elim (handle_incoming_rpc m f rpc) [
    | none ↦ none
    | some (reply, f') ↦ some f'
  ]
  flow_step m f validates = elim f.validation_queue [
    | [] ↦ some f
    | (msg, vals) ∷ rest ↦
        run_validation m.world (record f { validation_queue = rest }) vals msg false
  ]
  flow_step m f sends = elim f.send_msg [
    | [] ↦ some f
    | msg ∷ rest ↦ some (publish_message m.world (record f { send_msg = rest }) msg)
  ]
  flow_step m f (publishes pmsg) =
      publish_local config m.world f (record pmsg { id = 0; received_from = config.self })

  unfoldable pub flow_run : Flow → List (Moment s × FlowEvent) → Option Flow
  unfolding flow_step
  flow_run f [] = some f
  flow_run f ((m, e) ∷ events) = elim (flow_step m f e) [
    | none ↦ none
    | some f' ↦ flow_run f' events
  ]
