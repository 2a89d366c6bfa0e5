-- ===== src/Blacklist.antt =====
-- blacklist.go: the blacklists. The interface is a data type with a constructor for each of its two
-- implementations; one of the user's own is left out. Peers are numbers.
use go_libp2p_pubsub.Prelude.{
  ℕ, ◌+◌, ◌≡◌, refl, Bool, true, false, not, ◌||◌, ◌&&◌, List, [], ◌==◌, member, add, member-add,
  has, has_same, lookup_or, lookup-insert, lookup-keep_entries, leb, ltb, inl, inr, Bool-cases,
  if◌then◌else◌, arith,
}
use go_libp2p_pubsub.TimeCache.{
  TimeCache, first_seen, new_time_cache_with_strategy, first_has, first_add, sweep,
}

-- `MapBlacklist` and `TimeCachedBlacklist`, whose cache is a first-seen one.
pub data Blacklist : Type 0 where
  map_blacklist : List ℕ → Blacklist
  time_cached_blacklist : TimeCache → Blacklist

unfoldable pub new_map_blacklist : Blacklist
new_map_blacklist = map_blacklist []

unfoldable pub new_time_cached_blacklist : ℕ → Blacklist
unfolding new_time_cache_with_strategy
new_time_cached_blacklist expiry =
    time_cached_blacklist (new_time_cache_with_strategy first_seen expiry)

-- `Add`, at a time.
unfoldable pub add_peer : ℕ → Blacklist → ℕ → Bool × Blacklist
unfolding first_has first_add
add_peer now (map_blacklist b) p = (true, map_blacklist (add p b))
add_peer now (time_cached_blacklist tc) p =
    if first_has tc p
    then (false, time_cached_blacklist tc)
    else (true, time_cached_blacklist (first_add now tc p).1)

-- `Contains`.
unfoldable pub contains : Blacklist → ℕ → Bool
unfolding first_has
contains (map_blacklist b) p = member p b
contains (time_cached_blacklist tc) p = first_has tc p

-- The time cache's goroutine sweeps.
unfoldable pub sweep_blacklist : ℕ → Blacklist → Blacklist
unfolding sweep
sweep_blacklist now (map_blacklist b) = map_blacklist b
sweep_blacklist now (time_cached_blacklist tc) = time_cached_blacklist (sweep now tc)

-- Whether a sweep leaves a listed peer: the entry of a map stays, that of a time cache until it
-- expires.
abbrev pub survives : ℕ → Blacklist → ℕ → Bool
survives now (map_blacklist b) p = true
survives now (time_cached_blacklist tc) p = leb now (lookup_or 0 p tc.m)

pub contains-add_peer :
    (now : ℕ) (b : Blacklist) (p k : ℕ) → contains (add_peer now b p).1 k ≡ contains b k || p == k
unfolding contains add_peer first_has first_add
contains-add_peer now (map_blacklist b) p k = ground (arith, member-add p k b)
contains-add_peer now (time_cached_blacklist tc) p k = elim (Bool-cases (has p tc.m)) [
  | inl listed ↦ rw (listed, add_peer) (ground (arith, has_same p k tc.m))
  | inr fresh ↦ rw (fresh, add_peer) (ground (arith, lookup-insert p k (now + tc.ttl) tc.m))
]

-- Adding a peer does not change when another entry, or its own that is there, expires.
pub survives-add_peer :
    (now later : ℕ) (b : Blacklist) (p k : ℕ)
    → contains b k ≡ true
    → survives later (add_peer now b p).1 k ≡ survives later b k
unfolding contains add_peer first_has first_add
survives-add_peer now later (map_blacklist b) p k h = refl
survives-add_peer now later (time_cached_blacklist tc) p k h = elim (Bool-cases (has p tc.m)) [
  | inl listed ↦ rw (listed, add_peer) refl
  | inr fresh ↦
      rw (fresh, add_peer)
        (ground (arith, h, fresh, has_same p k tc.m, lookup-insert p k (now + tc.ttl) tc.m))
]

pub contains-sweep_blacklist :
    (now : ℕ) (b : Blacklist) (k : ℕ)
    → contains (sweep_blacklist now b) k ≡ contains b k && survives now b k
unfolding contains sweep_blacklist first_has sweep
contains-sweep_blacklist now (map_blacklist b) k = ground arith
contains-sweep_blacklist now (time_cached_blacklist tc) k =
    ground (arith, lookup-keep_entries (λ j expiry. not (ltb expiry now)) k tc.m)

pub survives-sweep_blacklist :
    (now later : ℕ) (b : Blacklist) (k : ℕ)
    → contains b k ≡ true
    → survives now b k ≡ true
    → survives later (sweep_blacklist now b) k ≡ survives later b k
unfolding contains sweep_blacklist first_has sweep
survives-sweep_blacklist now later (map_blacklist b) k h s = refl
survives-sweep_blacklist now later (time_cached_blacklist tc) k h s =
    ground (arith, h, s, lookup-keep_entries (λ j expiry. not (ltb expiry now)) k tc.m)
