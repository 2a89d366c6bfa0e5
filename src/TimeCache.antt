-- ===== src/TimeCache.antt =====
-- timecache/: the caches of seen message ids, with an expiry for each id.
-- `FirstSeenCache` fixes the expiry when an id is added; `LastSeenCache` renews it whenever the id
-- is added or found. A background goroutine sweeps expired ids out. Each call takes the time that
-- its `time.Now()` returns; ids are numbers, since the code only compares them.
pub mod Window
pub mod Tests
use go_libp2p_pubsub.Prelude.{
  ℕ, ◌+◌, Bool, true, false, not, [], Map, has, insert, keep_entries, ltb, if◌then◌else◌,
}

-- A `Strategy` is a byte; the values that have no name are `unnamed`.
pub data Strategy : Type 0 where
  first_seen last_seen : Strategy
  unnamed : ℕ → Strategy

-- Which of the two implementations of the interface a cache is.
pub data Kind : Type 0 where
  first_seen_cache last_seen_cache : Kind

pub record TimeCache : Type 0 where
  pub kind : Kind
  pub m : Map ℕ
  pub ttl : ℕ

unfoldable pub new_first_seen_cache : ℕ → TimeCache
new_first_seen_cache ttl = record { kind = first_seen_cache; m = []; ttl = ttl }

unfoldable pub new_last_seen_cache : ℕ → TimeCache
new_last_seen_cache ttl = record { kind = last_seen_cache; m = []; ttl = ttl }

unfoldable pub new_time_cache_with_strategy : Strategy → ℕ → TimeCache
unfolding new_first_seen_cache new_last_seen_cache
new_time_cache_with_strategy first_seen ttl = new_first_seen_cache ttl
new_time_cache_with_strategy last_seen ttl = new_last_seen_cache ttl
new_time_cache_with_strategy (unnamed n) ttl = new_first_seen_cache ttl

-- `FirstSeenCache`.
unfoldable pub first_has : TimeCache → ℕ → Bool
first_has tc s = has s tc.m

unfoldable pub first_add : ℕ → TimeCache → ℕ → Bool × TimeCache
first_add now tc s =
    if has s tc.m then (false, tc) else (true, record tc { m = insert s (now + tc.ttl) tc.m })

-- `LastSeenCache`.
unfoldable pub last_add : ℕ → TimeCache → ℕ → Bool × TimeCache
last_add now tc s = (not (has s tc.m), record tc { m = insert s (now + tc.ttl) tc.m })

unfoldable pub last_has : ℕ → TimeCache → ℕ → Bool × TimeCache
last_has now tc s =
    if has s tc.m then (true, record tc { m = insert s (now + tc.ttl) tc.m }) else (false, tc)

-- Calls through the interface.
unfoldable pub add_to : Kind → ℕ → TimeCache → ℕ → Bool × TimeCache
unfolding first_add last_add
add_to first_seen_cache now tc s = first_add now tc s
add_to last_seen_cache now tc s = last_add now tc s

unfoldable pub find_in : Kind → ℕ → TimeCache → ℕ → Bool × TimeCache
unfolding first_has last_has
find_in first_seen_cache now tc s = (first_has tc s, tc)
find_in last_seen_cache now tc s = last_has now tc s

unfoldable pub add_id : ℕ → TimeCache → ℕ → Bool × TimeCache
unfolding add_to
add_id now tc s = add_to tc.kind now tc s

unfoldable pub has_id : ℕ → TimeCache → ℕ → Bool × TimeCache
unfolding find_in
has_id now tc s = find_in tc.kind now tc s

-- `sweep`: `expiry.Before(now)` ids go.
unfoldable pub sweep : ℕ → TimeCache → TimeCache
sweep now tc = record tc { m = keep_entries (λ k expiry. not (ltb expiry now)) tc.m }
