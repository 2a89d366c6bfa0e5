-- ===== src/SubscriptionFilter/Tests.antt =====
-- The theorems about the filters at concrete inputs, and runs of the code.
use go_libp2p_pubsub.Prelude.{
  ℕ, ◌≡◌, ◌≤◌, ◌<◌, refl, ◌⊎◌, Bool, true, false, List, [], ◌∷◌, none, some, length, member,
  if◌then◌else◌, ltb,
}
use go_libp2p_pubsub.SubscriptionFilter.{
  SubOpts, filter_subscriptions, new_allowlist_subscription_filter, wrap_limit_subscription_filter,
}
use go_libp2p_pubsub.SubscriptionFilter.Accepted.{
  settled, of_topic, at_most_one, filter_subscriptions_lem, limited_allowlist_lem,
}

abbrev says : ℕ → Bool → SubOpts
says topic subscribe = record {
  subscribe = subscribe;
  topicid = topic;
  requests_partial = false;
  supports_sending_partial = false;
}

-- Topic 1 is subscribed to and left again, topic 2 subscribed to twice, and topic 9 not allowed.
abbrev mixed : List SubOpts
mixed = says 1 true ∷ says 2 true ∷ says 1 false ∷ says 9 true ∷ says 2 true ∷ []

only_two_is_left : filter_subscriptions mixed (λ t. ltb t 5) ≡ says 2 true ∷ []
unfolding filter_subscriptions
only_two_is_left = refl

filter_subscriptions_lem_example :
    of_topic 2 (filter_subscriptions mixed (λ t. ltb t 5))
    ≡ (if ltb 2 5 then at_most_one (settled none (of_topic 2 mixed)) else [])
filter_subscriptions_lem_example = filter_subscriptions_lem mixed (λ t. ltb t 5) 2

limited_allowlist_lem_example :
    (length mixed ≤ 5)
      × ((accepted : List SubOpts) × ((wrap_limit_subscription_filter
                (new_allowlist_subscription_filter (1 ∷ 2 ∷ []))
                5).filter_incoming_subscriptions
              7 mixed
            ≡ some accepted)
          × (of_topic 1 accepted ≡ (
              if member 1 (1 ∷ 2 ∷ []) then at_most_one (settled none (of_topic 1 mixed)) else [])))
    ⊎ (5 < length mixed)
      × ((wrap_limit_subscription_filter
              (new_allowlist_subscription_filter (1 ∷ 2 ∷ []))
              5).filter_incoming_subscriptions
            7 mixed
          ≡ none)
limited_allowlist_lem_example = limited_allowlist_lem (1 ∷ 2 ∷ []) 5 7 mixed 1
