-- ===== src/PubSub/Interest/Refinement.antt =====
-- Every run of events succeeds and follows the topics of interest.
use go_libp2p_pubsub.Prelude.{
  ℕ, ◌≡◌, refl, Bool, true, not, ◌&&◌, ◌||◌, List, [], ◌∷◌, some, map, lookup, Option-cases, has,
  has-member, keys, member, member-add, Bool-cases, inl, inr, arith,
}
use go_libp2p_pubsub.Router.Env.{Params, Scores, Env}
use go_libp2p_pubsub.SubscriptionFilter.{SubOpts}
use go_libp2p_pubsub.PubSub.{
  PubSub, is_fanout_only, announcement, hello_packet, hello_subs, hello_relays,
}
use go_libp2p_pubsub.PubSub.Interest.{
  Event, join_topic, close_topic, subscribe, cancel_subscription, relay, cancel_relay, retry, step,
  run, is_interested, IsKept, IsConsistent,
}
use go_libp2p_pubsub.PubSub.Interest.Steps.{
  Succeeds, add_subscription, remove_subscription, add_relay, remove_relay, add_topic, remove_topic,
  retry_announcement,
}

module _ (s : Scores) (params : Params) where
  step_lem :
      (env : Env s) (p : PubSub) (e : Event) → IsConsistent p → Succeeds (step s params env p e)
  unfolding step
  step_lem env p (join_topic t topic) ok = (_, refl, add_topic p t topic ok)
  step_lem env p (close_topic t) ok = (_, refl, remove_topic p t ok)
  step_lem env p (subscribe t sub) ok = elim (Bool-cases (has t p.my_topics)) [
    | inl known ↦ rw (known, step) (add_subscription s params env p t sub ok known)
    | inr unknown ↦ (p, rw (unknown, step) refl, ok)
  ]
  step_lem env p (cancel_subscription t sub) ok = remove_subscription s params env p t sub ok
  step_lem env p (relay t) ok = elim (Bool-cases (has t p.my_topics && not (is_fanout_only p t))) [
    | inl able ↦ rw (able, step) (add_relay s params env p t ok able)
    | inr unable ↦ (p, rw (unable, step) refl, ok)
  ]
  step_lem env p (cancel_relay t) ok = remove_relay s params env p t ok
  step_lem env p (retry pid t sub) ok = retry_announcement p pid t sub ok

  run_lem :
      (p : PubSub) (events : List (Env s × Event))
      → IsConsistent p
      → Succeeds (run s params p events)
  unfolding run
  run_lem p [] ok = (p, refl, ok)
  run_lem p ((env, e) ∷ events) ok =
      let (p1, eq1, ok1) = step_lem env p e ok in
      let (p2, eq2, ok2) = run_lem p1 events ok1 in (p2, rw (eq1, run) eq2, ok2)

-- The topics that are announced, with the order forgotten.
abbrev pub subscribed_in : List SubOpts → List ℕ
subscribed_in [] = []
subscribed_in (sub ∷ subs) = sub.topicid ∷ subscribed_in subs

member-hello_relays :
    (k : ℕ) (ts out : List ℕ) → member k (hello_relays ts out) ≡ member k ts || member k out
member-hello_relays k [] out = refl
member-hello_relays k (t ∷ ts) out =
    ground (arith, member-hello_relays k ts out, member-add t k (hello_relays ts out))

member-hello_subs :
    (p : PubSub) (k : ℕ) (ts out : List ℕ)
    → member k (hello_subs p ts out) ≡ (member k ts && not (is_fanout_only p k)) || member k out
member-hello_subs p k [] out = refl
member-hello_subs p k (t ∷ ts) out = elim (Bool-cases (is_fanout_only p t)) [
  | inl skip ↦ rw skip (ground (arith, member-hello_subs p k ts out, skip))
  | inr no_skip ↦
      rw no_skip (
        ground (arith, member-hello_subs p k ts out, member-add t k (hello_subs p ts out), no_skip))
]

topicid-announcement : (p : PubSub) (t : ℕ) (sub : Bool) → (announcement p t sub).topicid ≡ t
unfolding announcement
topicid-announcement p t sub = elim (Option-cases (lookup t p.my_topics)) [
  | inl miss ↦ rw (miss, announcement) refl
  | inr (topic, hit) ↦ rw (hit, announcement) refl
]

subscribed_in-map :
    (p : PubSub) (ts : List ℕ) → subscribed_in (map (λ t. announcement p t true) ts) ≡ ts
subscribed_in-map p [] = refl
subscribed_in-map p (t ∷ ts) = rw (topicid-announcement p t true, subscribed_in-map p ts) refl

-- In a consistent state a new peer is told of the topics that we have a mesh for.
hello_packet-mesh :
    (p : PubSub) (t : ℕ)
    → IsConsistent p
    → member t (subscribed_in (hello_packet p).subscriptions) ≡ has t p.rt.mesh
unfolding hello_packet IsConsistent IsKept
hello_packet-mesh p t (_, kept) =
    let subs = hello_subs p (keys p.my_subs) [] in
    rw (subscribed_in-map p (hello_relays (keys p.my_relays) subs)) (
      ground (
        arith,
        kept t,
        member-hello_relays t (keys p.my_relays) subs,
        member-hello_subs p t (keys p.my_subs) [],
        has-member t p.my_subs,
        has-member t p.my_relays,
      ))

module _ (s : Scores) (params : Params) where
  -- From a consistent state, whatever topics are joined and closed, subscribed to, relayed and cancelled,
  -- and whatever announcements are tried again, no handler panics or waits, and in the end the router
  -- has a mesh for exactly the topics that have a subscription or a relay and are not fanout-only; and
  -- a new peer is told of the same topics.
  pub run-refines :
      (p : PubSub) (events : List (Env s × Event))
      → IsConsistent p
      → (p' : PubSub) × (run s params p events ≡ some p')
        × ((t : ℕ)
            → (has t p'.rt.mesh ≡ is_interested p' t && not (is_fanout_only p' t))
              × (member t (subscribed_in (hello_packet p').subscriptions) ≡ has t p'.rt.mesh))
  unfolding IsConsistent IsKept
  run-refines p events ok =
      let (p', eq, ok') = run_lem s params p events ok in
      (p', eq, λ t. ((ok'.1 t).4, hello_packet-mesh p' t ok'))
