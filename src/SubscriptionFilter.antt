-- ===== src/SubscriptionFilter.antt =====
-- subscription_filter.go: which subscriptions of an RPC are of interest. Topics are numbers; the
-- order of the result, which is that of a Go map, is the order of acceptance.
pub mod Accepted
pub mod Tests
use go_libp2p_pubsub.Prelude.{
  ℕ, Bool, true, false, not, ◌&&◌, ◌||◌, List, [], ◌∷◌, Option, none, some, Map, lookup, insert,
  delete, length, member, add, ltb, if◌then◌else◌,
}

-- `RPC_SubOpts`.
pub record SubOpts : Type 0 where
  pub subscribe : Bool
  pub topicid : ℕ
  pub requests_partial : Bool
  pub supports_sending_partial : Bool

-- `sub.GetSubscribe() != otherSub.GetSubscribe()`.
abbrev pub differs : SubOpts → SubOpts → Bool
differs sub other_sub = if sub.subscribe then not other_sub.subscribe else other_sub.subscribe

-- The loop's body after the filter: a second subscription that says otherwise cancels the first.
unfoldable pub accept_sub : SubOpts → Map SubOpts → Map SubOpts
accept_sub sub accept = elim (lookup sub.topicid accept) [
  | none ↦ insert sub.topicid sub accept
  | some other_sub ↦ if differs sub other_sub then delete sub.topicid accept else accept
]

unfoldable pub accept_subs : (ℕ → Bool) → List SubOpts → Map SubOpts → Map SubOpts
unfolding accept_sub
accept_subs filter [] accept = accept
accept_subs filter (sub ∷ subs) accept =
    accept_subs filter subs (if filter sub.topicid then accept_sub sub accept else accept)

abbrev pub values : Map SubOpts → List SubOpts
values [] = []
values ((topic, sub) ∷ accept) = sub ∷ values accept

unfoldable pub filter_subscriptions : List SubOpts → (ℕ → Bool) → List SubOpts
unfolding accept_subs
filter_subscriptions subs filter = values (accept_subs filter subs [])

-- The interface; `none` is `ErrTooManySubscriptions`.
pub record SubscriptionFilter : Type 0 where
  pub can_subscribe : ℕ → Bool
  pub filter_incoming_subscriptions : ℕ → List SubOpts → Option (List SubOpts)

allow_all : List ℕ → List ℕ → List ℕ
allow_all [] allow = allow
allow_all (topic ∷ topics) allow = allow_all topics (add topic allow)

unfoldable pub new_allowlist_subscription_filter : List ℕ → SubscriptionFilter
unfolding allow_all filter_subscriptions
new_allowlist_subscription_filter topics =
    let allow = allow_all topics [] in
    record {
      can_subscribe = (λ topic. member topic allow);
      filter_incoming_subscriptions =
          (λ from subs. some (filter_subscriptions subs (λ topic. member topic allow)));
    }

-- The regular expression is given by what `MatchString` says of each topic.
unfoldable pub new_regexp_subscription_filter : (ℕ → Bool) → SubscriptionFilter
unfolding filter_subscriptions
new_regexp_subscription_filter match_string = record {
  can_subscribe = match_string;
  filter_incoming_subscriptions = (λ from subs. some (filter_subscriptions subs match_string));
}

unfoldable pub wrap_limit_subscription_filter : SubscriptionFilter → ℕ → SubscriptionFilter
wrap_limit_subscription_filter filter limit = record {
  can_subscribe = filter.can_subscribe;
  filter_incoming_subscriptions = (λ from subs.
      if ltb limit (length subs) then none else filter.filter_incoming_subscriptions from subs);
}
