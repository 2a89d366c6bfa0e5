-- ===== src/SubscriptionFilter/Accepted.antt =====
-- What comes through a filter.
use go_libp2p_pubsub.Prelude.{
  ℕ, ◌≤◌, ◌<◌, ◌≡◌, refl, ap, ◌∙◌, inl, inr, ◌⊎◌, Bool, true, false, not, ◌&&◌, ◌||◌, List, [], ◌∷◌,
  Option, none, some, Map, lookup, insert, delete, lookup-insert, lookup-delete, length, member,
  member-add, add, ltb, keep, if◌then◌else◌, Bool-cases, Option-cases, ◌==◌, ==_iff, arith, has,
}
use go_libp2p_pubsub.SubscriptionFilter.{
  SubOpts, differs, accept_sub, accept_subs, values, filter_subscriptions, allow_all,
  new_allowlist_subscription_filter, wrap_limit_subscription_filter,
}

-- What becomes of one topic: the last word after each subscription of it.
abbrev pub settle : Option SubOpts → SubOpts → Option SubOpts
settle none sub = some sub
settle (some other_sub) sub = if differs sub other_sub then none else some other_sub

abbrev pub settled : Option SubOpts → List SubOpts → Option SubOpts
settled old [] = old
settled old (sub ∷ subs) = settled (settle old sub) subs

abbrev pub of_topic : ℕ → List SubOpts → List SubOpts
of_topic t = keep (λ sub. sub.topicid == t)

lookup-accept_sub :
    (sub : SubOpts) (accept : Map SubOpts) (t : ℕ)
    → lookup t (accept_sub sub accept)
      ≡ (if sub.topicid == t then settle (lookup t accept) sub else lookup t accept)
unfolding accept_sub
lookup-accept_sub sub accept t = elim (Option-cases (lookup sub.topicid accept)) [
  | inl new ↦ rw (new, accept_sub) (ground (arith, lookup-insert sub.topicid t sub accept))
  | inr (other_sub, old) ↦ elim (Bool-cases (differs sub other_sub)) [
    | inl cancels ↦
        rw (old, accept_sub)
          (rw cancels (ground (arith, cancels, lookup-delete sub.topicid t accept)))
    | inr agrees ↦ rw (old, accept_sub) (rw agrees (ground (arith, agrees)))
  ]
]

filtered_step :
    (filter : ℕ → Bool) (sub : SubOpts) (accept : Map SubOpts) (t : ℕ)
    → lookup t (if filter sub.topicid then accept_sub sub accept else accept)
      ≡ (if filter t && sub.topicid == t then settle (lookup t accept) sub else lookup t accept)
filtered_step filter sub accept t = elim (Bool-cases (sub.topicid == t)) [
  | inl same ↦
      let e : sub.topicid ≡ t = (==_iff sub.topicid t).0 same in
      ground (arith, lookup-accept_sub sub accept t, ap filter e)
  | inr other ↦ ground (arith, lookup-accept_sub sub accept t)
]

-- The loop decides every topic by itself: what it holds of a topic is what the subscriptions of that
-- topic come to, one after another, if the filter allows the topic, and else what it held before.
pub lookup-accept_subs :
    (filter : ℕ → Bool) (subs : List SubOpts) (accept : Map SubOpts) (t : ℕ)
    → lookup t (accept_subs filter subs accept)
      ≡ (if filter t then settled (lookup t accept) (of_topic t subs) else lookup t accept)
unfolding accept_subs
lookup-accept_subs filter [] accept t = ground arith
lookup-accept_subs filter (sub ∷ subs) accept t =
    let accept1 = if filter sub.topicid then accept_sub sub accept else accept in
    lookup-accept_subs filter subs accept1 t ∙ ground (arith, filtered_step filter sub accept t)

-- Every subscription stands under its own topic, and no topic twice.
abbrev Tidy : Map SubOpts → Type 0
Tidy [] = Unit {0}
Tidy ((k, sub) ∷ m) = (sub.topicid ≡ k) × (has k m ≡ false) × Tidy m

Tidy-insert : (sub : SubOpts) (m : Map SubOpts) → Tidy m → Tidy (insert sub.topicid sub m)
Tidy-insert sub [] h = (refl, refl, tt)
Tidy-insert sub ((k, other_sub) ∷ m) (e, u, h) =
    ground (arith, Tidy-insert sub m h, lookup-insert sub.topicid k sub m)

Tidy-delete : (k : ℕ) (m : Map SubOpts) → Tidy m → Tidy (delete k m)
Tidy-delete k [] h = tt
Tidy-delete k ((j, sub) ∷ m) (e, u, h) = ground (arith, Tidy-delete k m h, lookup-delete k j m)

Tidy-accept_sub : (sub : SubOpts) (m : Map SubOpts) → Tidy m → Tidy (accept_sub sub m)
unfolding accept_sub
Tidy-accept_sub sub m h = elim (Option-cases (lookup sub.topicid m)) [
  | inl new ↦ rw (new, accept_sub) (Tidy-insert sub m h)
  | inr (other_sub, old) ↦ elim (Bool-cases (differs sub other_sub)) [
    | inl cancels ↦ rw (old, accept_sub) (rw cancels (Tidy-delete sub.topicid m h))
    | inr agrees ↦ rw (old, accept_sub) (rw agrees h)
  ]
]

Tidy-accept_subs :
    (filter : ℕ → Bool) (subs : List SubOpts) (m : Map SubOpts)
    → Tidy m
    → Tidy (accept_subs filter subs m)
unfolding accept_subs
Tidy-accept_subs filter [] m h = h
Tidy-accept_subs filter (sub ∷ subs) m h =
    Tidy-accept_subs filter subs (if filter sub.topicid then accept_sub sub m else m)
      (elim (Bool-cases (filter sub.topicid)) [
        | inl allowed ↦ rw allowed (Tidy-accept_sub sub m h)
        | inr refused ↦ rw refused h
      ])

abbrev pub at_most_one : Option SubOpts → List SubOpts
at_most_one none = []
at_most_one (some sub) = sub ∷ []

of_topic-values :
    (t : ℕ) (m : Map SubOpts) → Tidy m → of_topic t (values m) ≡ at_most_one (lookup t m)
of_topic-values t [] h = refl
of_topic-values t ((k, sub) ∷ m) (e, u, h) = elim (Option-cases (lookup t m)) [
  | inl miss ↦ ground (arith, miss, of_topic-values t m h)
  | inr (other_sub, hit) ↦ ground (arith, hit, of_topic-values t m h)
]

-- `FilterSubscriptions` decides every topic by itself, whatever other topics an RPC mixes in: of a
-- topic that the filter refuses nothing comes through, and of one that it allows at most one
-- subscription, the first since the last that was cancelled by a later one of the opposite sense.
pub filter_subscriptions_lem :
    (subs : List SubOpts) (filter : ℕ → Bool) (t : ℕ)
    → of_topic t (filter_subscriptions subs filter)
      ≡ (if filter t then at_most_one (settled none (of_topic t subs)) else [])
unfolding filter_subscriptions
filter_subscriptions_lem subs filter t =
    of_topic-values t (accept_subs filter subs []) (Tidy-accept_subs filter subs [] tt)
    ∙ ground (arith, lookup-accept_subs filter subs [] t)

all_agree : Bool → List SubOpts → Bool
all_agree b [] = true
all_agree b (sub ∷ subs) = (if sub.subscribe then b else not b) && all_agree b subs

-- Subscriptions of one topic that agree settle on the first.
settled-all_agree :
    (sub : SubOpts) (subs : List SubOpts)
    → all_agree sub.subscribe subs ≡ true
    → settled (some sub) subs ≡ some sub
unfolding all_agree
settled-all_agree sub [] h = refl
settled-all_agree sub (next ∷ subs) h = ground (arith, settled-all_agree sub subs)

member-allow_all :
    (topics allow : List ℕ) (t : ℕ)
    → member t (allow_all topics allow) ≡ member t topics || member t allow
unfolding allow_all
member-allow_all [] allow t = refl
member-allow_all (topic ∷ topics) allow t =
    ground (arith, member-allow_all topics (add topic allow) t, member-add topic t allow)

-- A limited allow list, as built by the constructors: it gives an error exactly if the RPC has more
-- subscriptions than the limit, and otherwise, topic by topic, what the listed topics' subscriptions
-- come to.
pub limited_allowlist_lem :
    (topics : List ℕ) (limit from : ℕ) (subs : List SubOpts) (t : ℕ)
    → (length subs ≤ limit)
        × ((accepted : List SubOpts) × ((wrap_limit_subscription_filter
                  (new_allowlist_subscription_filter topics)
                  limit).filter_incoming_subscriptions
                from subs
              ≡ some accepted)
            × (of_topic t accepted
                ≡ (if member t topics then at_most_one (settled none (of_topic t subs)) else [])))
      ⊎ (limit < length subs)
        × ((wrap_limit_subscription_filter
                (new_allowlist_subscription_filter topics)
                limit).filter_incoming_subscriptions
              from subs
            ≡ none)
unfolding wrap_limit_subscription_filter new_allowlist_subscription_filter
limited_allowlist_lem topics limit from subs t = elim (Bool-cases (ltb limit (length subs))) [
  | inl many ↦ inr (ground arith, ground arith)
  | inr few ↦
      let allow = allow_all topics [] in
      inl (
        ground arith,
        (
          filter_subscriptions subs (λ topic. member topic allow),
          ground arith,
          filter_subscriptions_lem subs (λ topic. member topic allow) t
              ∙ ground (arith, member-allow_all topics [] t),
        ),
      )
]
