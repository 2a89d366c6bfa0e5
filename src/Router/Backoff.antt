-- ===== src/Router/Backoff.antt =====
-- gossipsub.go: the prune backoff, `addBackoff`, `doAddBackoff` and `clearBackoff`.
use Prim.Native.Nat.{max}
use go_libp2p_pubsub.Prelude.{
  ℕ, ◌+◌, ◌-◌, ◌^◌, ◌*◌, ◌%◌, ◌≡◌, refl, Bool, not, ◌&&◌, [], ◌∷◌, Option, none, some, Map, lookup,
  lookup_or, lookup-insert, lookup-delete, insert, delete, keep_entries, lookup-keep_entries,
  filter_found, ltb, if◌then◌else◌, ◌==◌, get_or_else, arith,
}
use go_libp2p_pubsub.Router.Env.{Params}

-- `GossipSubHeartbeatInterval`.
abbrev pub heartbeat_interval : ℕ
heartbeat_interval = 1_000_000_000

-- `t.Add(d)` of a duration, a signed 64-bit number in two's complement; times are counted from Go's
-- zero time.
unfoldable pub time_add : ℕ → ℕ → ℕ
time_add t d = if ltb d (2 ^ 63) then t + d else t - (2 ^ 64 - d)

-- A missing time is Go's zero time, which is before every other.
abbrev later_of : ℕ → Option ℕ → ℕ
later_of expire none = expire
later_of expire (some old) = if ltb old expire then expire else old

unfoldable pub do_add_backoff : ℕ → Map (Map ℕ) → ℕ → ℕ → ℕ → Map (Map ℕ)
do_add_backoff now backoffs p topic interval =
    let backoff = lookup_or [] topic backoffs in
    insert topic (insert p (later_of (time_add now interval) (lookup p backoff)) backoff) backoffs

unfoldable pub add_backoff : Params → ℕ → Map (Map ℕ) → ℕ → ℕ → Bool → Map (Map ℕ)
unfolding do_add_backoff
add_backoff params now backoffs p topic is_unsubscribe =
    do_add_backoff now backoffs p topic
      (if is_unsubscribe then params.unsubscribe_backoff else params.prune_backoff)

-- An expired entry is kept for two more heartbeats.
clear_topic : ℕ → Map ℕ → Map ℕ
clear_topic now = keep_entries (λ p expire. not (ltb (expire + 2 * heartbeat_interval) now))

keep_topic : ℕ → Map ℕ → Map (Map ℕ) → Map (Map ℕ)
keep_topic topic [] rest = delete topic rest
keep_topic topic (e ∷ es) rest = (topic, e ∷ es) ∷ rest

clear_topics : ℕ → Map (Map ℕ) → Map (Map ℕ)
unfolding clear_topic keep_topic
clear_topics now [] = []
clear_topics now ((topic, backoff) ∷ rest) =
    keep_topic topic (clear_topic now backoff) (clear_topics now rest)

unfoldable pub clear_backoff : ℕ → ℕ → Map (Map ℕ) → Map (Map ℕ)
unfolding clear_topics
clear_backoff heartbeat_ticks now backoffs =
    if heartbeat_ticks % 15 == 0 then clear_topics now backoffs else backoffs

-- Until when a peer is backed off from a topic.
abbrev pub until : Map (Map ℕ) → ℕ → ℕ → Option ℕ
until backoffs topic p = lookup p (lookup_or [] topic backoffs)

-- A backoff is never cut short: it runs to the later of its old end and the new one, and no other
-- peer's or topic's changes.
pub until-do_add_backoff :
    (now : ℕ) (backoffs : Map (Map ℕ)) (p topic interval t q : ℕ)
    → until (do_add_backoff now backoffs p topic interval) t q ≡ (
        if (topic == t) && (p == q)
        then some (max (time_add now interval) (get_or_else (until backoffs topic p) 0))
        else until backoffs t q)
unfolding do_add_backoff
until-do_add_backoff now backoffs p topic interval t q =
    let backoff = lookup_or [] topic backoffs in
    ground (
      arith,
      lookup-insert topic t (insert p (later_of (time_add now interval) (lookup p backoff)) backoff)
          backoffs,
      lookup-insert p q (later_of (time_add now interval) (lookup p backoff)) backoff,
    )

lookup_or-keep_topic :
    (topic t : ℕ) (b : Map ℕ) (rest : Map (Map ℕ))
    → lookup_or [] t (keep_topic topic b rest) ≡ (if topic == t then b else lookup_or [] t rest)
unfolding keep_topic
lookup_or-keep_topic topic t [] rest = ground (arith, lookup-delete topic t rest)
lookup_or-keep_topic topic t (e ∷ es) rest = ground arith

lookup_or-clear_topics :
    (now t : ℕ) (m : Map (Map ℕ))
    → lookup_or [] t (clear_topics now m) ≡ clear_topic now (lookup_or [] t m)
unfolding clear_topics clear_topic
lookup_or-clear_topics now t [] = refl
lookup_or-clear_topics now t ((topic, b) ∷ rest) = ground (
  arith,
  lookup_or-keep_topic topic t (clear_topic now b) (clear_topics now rest),
  lookup_or-clear_topics now t rest,
)

-- Clearing never lifts a backoff that is still running: what it removes, in every fifteenth
-- heartbeat, is exactly what ended more than two heartbeat intervals ago.
pub until-clear_backoff :
    (ticks now t q : ℕ) (backoffs : Map (Map ℕ))
    → until (clear_backoff ticks now backoffs) t q ≡ (
        if ticks % 15 == 0
        then filter_found
            (λ expire. not (ltb (expire + 2 * heartbeat_interval) now))
            (until backoffs t q)
        else until backoffs t q)
unfolding clear_backoff clear_topic
until-clear_backoff ticks now t q backoffs = ground (
  arith,
  lookup_or-clear_topics now t backoffs,
  lookup-keep_entries (λ p expire. not (ltb (expire + 2 * heartbeat_interval) now)) q
      (lookup_or [] t backoffs),
)
