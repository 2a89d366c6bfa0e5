-- ===== src/Backoff.antt =====
-- backoff.go: the delay before a dead peer is tried again, and when it is given up.
-- Times and durations are numbers of nanoseconds. `asked` is the time that `time.Since` reads and
-- `now` the one that is stored; `jitter` is what `rand.Intn(MaxBackoffJitterCoff)` returns.
pub mod Bounds
pub mod Attempts
pub mod Tests
use go_libp2p_pubsub.Prelude.{
  ℕ, Bool, ◌+◌, ◌*◌, ◌%◌, ◌^◌, Option, none, some, [], Map, lookup, insert, keep_entries, ltb, leb,
  not, ◌||◌, if◌then◌else◌,
}

abbrev pub millisecond : ℕ
millisecond = 1_000_000

abbrev pub second : ℕ
second = 1_000_000_000

abbrev pub min_backoff_delay : ℕ
min_backoff_delay = 100 * millisecond

abbrev pub max_backoff_delay : ℕ
max_backoff_delay = 10 * second

abbrev pub time_to_live : ℕ
time_to_live = 600 * second

abbrev pub backoff_multiplier : ℕ
backoff_multiplier = 2

abbrev pub max_backoff_jitter_coff : ℕ
max_backoff_jitter_coff = 100

abbrev pub max_backoff_attempts : ℕ
max_backoff_attempts = 4

pub record BackoffHistory : Type 0 where
  pub duration : ℕ
  pub last_tried : ℕ
  pub attempts : ℕ

pub record Backoff : Type 0 where
  pub info : Map BackoffHistory
  pub ct : ℕ
  pub ci : ℕ
  pub max_attempts : ℕ

unfoldable pub new_backoff : ℕ → ℕ → ℕ → Backoff
new_backoff size_threshold cleanup_interval max_attempts = record {
  info = [];
  ct = size_threshold;
  ci = cleanup_interval;
  max_attempts = max_attempts;
}

-- `time.Since(h.lastTried) > TimeToLive`; a difference of times can be negative.
unfoldable pub is_stale : ℕ → BackoffHistory → Bool
is_stale asked h = ltb (h.last_tried + time_to_live) asked

-- `2 * duration + jitter ms` as an `int64`, held to the maximum also where it wraps round.
unfoldable pub grow : ℕ → ℕ → ℕ
grow duration jitter =
    let d = (backoff_multiplier * duration + jitter * millisecond) % 2 ^ 64 in
    if ltb max_backoff_delay d || leb (2 ^ 63) d then max_backoff_delay else d

-- The `switch`: the history to count the attempt on, or the error.
unfoldable pub next_history : ℕ → ℕ → ℕ → Option BackoffHistory → Option BackoffHistory
unfolding is_stale grow
next_history asked jitter max_attempts none =
    some (record { duration = 0; last_tried = 0; attempts = 0 })
next_history asked jitter max_attempts (some h) =
    if is_stale asked h
    then some (record { duration = 0; last_tried = 0; attempts = 0 })
    else if leb max_attempts h.attempts
    then none
    else if ltb h.duration min_backoff_delay
    then some (record h { duration = min_backoff_delay })
    else if ltb h.duration max_backoff_delay
    then some (record h { duration = grow h.duration jitter })
    else some h

-- The delay, or `none` where the attempts are used up.
unfoldable pub update_and_get : ℕ → ℕ → ℕ → Backoff → ℕ → Option ℕ × Backoff
unfolding next_history
update_and_get asked now jitter b id =
    elim (next_history asked jitter b.max_attempts (lookup id b.info)) [
      | none ↦ (none, b)
      | some h ↦ (
        some h.duration,
        record b {
          info = insert id (record h { last_tried = now; attempts = h.attempts + 1 }) b.info;
        },
      )
    ]

unfoldable pub cleanup : ℕ → Backoff → Backoff
unfolding is_stale
cleanup now b = record b { info = keep_entries (λ id h. not (is_stale now h)) b.info }
