-- ===== src/PubSub/Interest.antt =====
-- topic.go: `Join`, `Close`, `Subscribe` and `Relay` of a topic and their cancellation, as events that
-- `processLoop` handles one after another. The handle of a topic that is in `my_topics` is open.
mod Steps
pub mod Refinement
use go_libp2p_pubsub.Prelude.{
  ℕ, ◌≡◌, Bool, true, false, not, ◌&&◌, ◌||◌, List, [], ◌∷◌, Option, none, some, lookup, lookup_or,
  has, length, ◌==◌, if◌then◌else◌, keys,
}
use go_libp2p_pubsub.Router.Env.{Params, Scores, Env}
use go_libp2p_pubsub.PubSub.{
  PubSub, Topic, is_fanout_only, handle_add_topic, handle_remove_topic, handle_add_subscription,
  handle_remove_subscription, handle_add_relay, handle_remove_relay, announce_retry,
}
use go_libp2p_pubsub.PubSub.Announce.{all_open}

-- A topic is joined with its options, and `retry` is the end of a wait of `announceRetry`.
pub data Event : Type 0 where
  join_topic : ℕ → Topic → Event
  close_topic : ℕ → Event
  subscribe : ℕ → ℕ → Event
  cancel_subscription : ℕ → ℕ → Event
  relay : ℕ → Event
  cancel_relay : ℕ → Event
  retry : ℕ → ℕ → Bool → Event

module _ (s : Scores) (params : Params) where
  -- `Subscribe` and `Relay` fail at a topic that is closed, and `Relay` at one that is fanout-only.
  unfoldable pub step : Env s → PubSub → Event → Option PubSub
  step env p (join_topic t topic) = some (handle_add_topic p t topic).1
  step env p (close_topic t) = some (handle_remove_topic p t).1
  step env p (subscribe t sub) =
      if has t p.my_topics then handle_add_subscription s params env p t sub else some p
  step env p (cancel_subscription t sub) = handle_remove_subscription s params env p t sub
  step env p (relay t) =
      if has t p.my_topics && not (is_fanout_only p t)
      then handle_add_relay s params env p t
      else some p
  step env p (cancel_relay t) = handle_remove_relay s params env p t
  step env p (retry pid t sub) = announce_retry p pid t sub

  unfoldable pub run : PubSub → List (Env s × Event) → Option PubSub
  unfolding step
  run p [] = some p
  run p ((env, e) ∷ events) = elim (step env p e) [ none ↦ none | some p' ↦ run p' events ]

-- The topics that have a subscription or a relay.
abbrev pub is_interested : PubSub → ℕ → Bool
is_interested p t =
    not (length (lookup_or [] t p.my_subs) == 0) || not (lookup_or 0 t p.my_relays == 0)

-- A topic with a subscription or a relay has a handle, a fanout-only topic has no relay, no entry of
-- `my_subs` or `my_relays` is empty, and the router has a mesh for each topic of interest that is
-- not fanout-only, and for no other.
unfoldable pub IsKept : PubSub → ℕ → Type 0
IsKept p t =
    (is_interested p t ≡ true → has t p.my_topics ≡ true)
    × (is_fanout_only p t ≡ true → lookup_or 0 t p.my_relays ≡ 0)
    × (has t p.my_subs ≡ not (length (lookup_or [] t p.my_subs) == 0))
    × (has t p.my_relays ≡ not (lookup_or 0 t p.my_relays == 0))
    × (has t p.rt.mesh ≡ is_interested p t && not (is_fanout_only p t))

unfoldable pub IsConsistent : PubSub → Type 0
unfolding IsKept
IsConsistent p = (all_open p.peers ≡ true) × ((t : ℕ) → IsKept p t)
