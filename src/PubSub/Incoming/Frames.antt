-- ===== src/PubSub/Incoming/Frames.antt =====
-- What the handling of subscriptions and the caches leave as it was.
use go_libp2p_pubsub.Prelude.{
  ℕ, ◌+◌, ◌≡◌, refl, ◌∙◌, Bool, true, false, not, ◌||◌, List, [], ◌∷◌, lookup_or, insert,
  lookup-insert, delete, has, length, Bool-cases, inl, inr, arith, ◌==◌, if◌then◌else◌, has_same,
}
use go_libp2p_pubsub.TimeCache.{TimeCache, Kind, first_seen_cache, last_seen_cache, add_to, find_in}
use go_libp2p_pubsub.SubscriptionFilter.{SubOpts}
use go_libp2p_pubsub.PubSub.{PubSub, PeerTopicState}
use go_libp2p_pubsub.PubSub.Peers.{notify}
use go_libp2p_pubsub.PubSub.Incoming.{record_subscription, record_subscriptions}

-- Looking an id up keeps the ids of a cache, and adding one adds only that.
pub has-find_in :
    (kind : Kind) (now : ℕ) (tc : TimeCache) (s k : ℕ)
    → has k (find_in kind now tc s).1.m ≡ has k tc.m
unfolding find_in
has-find_in first_seen_cache now tc s k = refl
has-find_in last_seen_cache now tc s k =
    ground (arith, lookup-insert s k (now + tc.ttl) tc.m, has_same s k tc.m)

pub has-add_to :
    (kind : Kind) (now : ℕ) (tc : TimeCache) (s k : ℕ)
    → (has k (add_to kind now tc s).1.m ≡ has k tc.m || s == k)
      × ((add_to kind now tc s).0 ≡ not (has s tc.m))
unfolding add_to
has-add_to first_seen_cache now tc s k =
    ground (arith, lookup-insert s k (now + tc.ttl) tc.m, has_same s k tc.m)
has-add_to last_seen_cache now tc s k =
    ground (arith, lookup-insert s k (now + tc.ttl) tc.m, has_same s k tc.m)

-- Nothing that a delivery is checked against has changed.
unfoldable pub Same : PubSub → PubSub → Type 0
Same p q =
    (q.blacklist ≡ p.blacklist)
    × (q.my_subs ≡ p.my_subs)
    × (q.my_relays ≡ p.my_relays)
    × ((k : ℕ) → has k q.caches.delivered.m ≡ has k p.caches.delivered.m)

pub Same-refl : (p : PubSub) → Same p p
unfolding Same
Same-refl p = (refl, refl, refl, λ k. refl)

pub Same-trans : (p q r : PubSub) → Same p q → Same q r → Same p r
unfolding Same
Same-trans p q r (a, b, c, d) (a', b', c', d') = (a' ∙ a, b' ∙ b, c' ∙ c, λ k. d' k ∙ d k)

Same-notify : (p q : PubSub) (t pid : ℕ) (joins : Bool) → Same p q → Same p (notify q t pid joins)
unfolding Same
Same-notify p q t pid joins same = elim (Bool-cases (has t q.my_topics)) [
  | inl known ↦ rw known same
  | inr unknown ↦ rw unknown same
]

record_subscription-Same :
    (p : PubSub) (from : ℕ) (sub : SubOpts) → Same p (record_subscription p from sub)
unfolding record_subscription Same
record_subscription-Same p from sub =
    let t = sub.topicid in
    let tmap = lookup_or [] t p.topics in
    let state : PeerTopicState = record {
      requests_partial = sub.requests_partial;
      supports_partial = sub.requests_partial || sub.supports_sending_partial;
    } in
    let joined = record p { topics = insert t (insert from state tmap) p.topics } in
    let left = record p {
      topics =
          if length (delete from tmap) == 0
          then delete t p.topics
          else insert t (delete from tmap) p.topics;
    } in
    let same : Same p p = (refl, refl, refl, λ k. refl) in
    let inside = has from tmap in
    elim (Bool-cases sub.subscribe) [
      | inl joins ↦ elim (Bool-cases inside) [
        | inl again ↦ rw (joins, record_subscription) (rw again same)
        | inr first ↦
            rw (joins, record_subscription) (rw first (Same-notify p joined t from true same))
      ]
      | inr leaves ↦ elim (Bool-cases inside) [
        | inl there ↦
            rw (leaves, record_subscription) (rw there (Same-notify p left t from false same))
        | inr absent ↦ rw (leaves, record_subscription) (rw absent same)
      ]
    ]

pub record_subscriptions-Same :
    (p : PubSub) (from : ℕ) (subs : List SubOpts) → Same p (record_subscriptions p from subs)
unfolding record_subscriptions Same
record_subscriptions-Same p from [] = (refl, refl, refl, λ k. refl)
record_subscriptions-Same p from (sub ∷ subs) =
    let p1 = record_subscription p from sub in
    Same-trans p p1 (record_subscriptions p1 from subs) (record_subscription-Same p from sub)
      (record_subscriptions-Same p1 from subs)
