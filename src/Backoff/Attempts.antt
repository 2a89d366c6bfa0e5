-- ===== src/Backoff/Attempts.antt =====
-- How often a peer is tried before it is given up.
use Prim.Native.Nat.{min}
use go_libp2p_pubsub.Prelude.{
  ℕ, ◌+◌, ◌-◌, ◌≤◌, ◌<◌, ◌≡◌, refl, inl, inr, ◌⊎◌, List, [], ◌∷◌, none, some, Option-cases, lookup,
  lookup-insert, insert, length, if◌then◌else◌, is_some, arith,
}
use go_libp2p_pubsub.Backoff.{Backoff, BackoffHistory, time_to_live, next_history, update_and_get}

-- One peer is tried again and again: how many of the calls give a delay.
unfoldable pub granted : List (ℕ × ℕ × ℕ) → Backoff → ℕ → ℕ
granted [] b id = 0
granted ((asked, now, jitter) ∷ calls) b id =
    let (r, b') = update_and_get asked now jitter b id in
    (if is_some r then 1 else 0) + granted calls b' id

-- All calls are made between a start and the time to live after it.
abbrev pub Within : ℕ → List (ℕ × ℕ × ℕ) → Type 0
Within start [] = Unit {0}
Within start ((asked, now, jitter) ∷ calls) =
    (start ≤ now) × (asked ≤ start + time_to_live) × Within start calls

-- One call within the time to live of the last.
update_burst :
    (asked now jitter id : ℕ) (b : Backoff) (h : BackoffHistory)
    → lookup id b.info ≡ some h
    → asked ≤ h.last_tried + time_to_live
    → ((b.max_attempts ≤ h.attempts) × (update_and_get asked now jitter b id ≡ (none, b)))
      ⊎ ((h.attempts < b.max_attempts)
          × ((d : ℕ) × (b' : Backoff) × (g : BackoffHistory) × (update_and_get asked now jitter b id
                ≡ (some d, b'))
              × (lookup id b'.info ≡ some g)
              × (g.attempts ≡ h.attempts + 1)
              × (g.last_tried ≡ now)
              × (b'.max_attempts ≡ b.max_attempts)))
unfolding update_and_get
update_burst asked now jitter id b h l fresh =
    elim (Option-cases (next_history asked jitter b.max_attempts (lookup id b.info))) [
      | inl refused ↦ inl (unfold next_history in ground arith, rw (refused, update_and_get))
      | inr (g, e) ↦ inr (
        unfold next_history in ground arith,
        (
          g.duration,
          record b {
            info = insert id (record g { last_tried = now; attempts = g.attempts + 1 }) b.info;
          },
          record g { last_tried = now; attempts = g.attempts + 1 },
          rw (e, update_and_get),
          ground (
            arith,
            lookup-insert id id (record g { last_tried = now; attempts = g.attempts + 1 }) b.info,
          ),
          unfold next_history in ground arith,
          refl,
          refl,
        ),
      )
    ]

granted_from :
    (calls : List (ℕ × ℕ × ℕ)) (b : Backoff) (id start : ℕ) (h : BackoffHistory)
    → Within start calls
    → lookup id b.info ≡ some h
    → start ≤ h.last_tried
    → granted calls b id ≡ min (length calls) (b.max_attempts - h.attempts)
unfolding granted
granted_from [] b id start h w l s = omega arith
granted_from ((asked, now, jitter) ∷ calls) b id start h w l s =
    elim (update_burst asked now jitter id b h l (omega arith)) [
      | inl (spent, e) ↦ rw (e, granted) (omega (arith, granted_from calls b id start h w.2 l s))
      | inr (below, (d, b', g, e, l', a, t, m)) ↦
          rw (e, granted) (omega (arith, granted_from calls b' id start g w.2 l' (omega arith), m))
    ]

-- The history that a first call leaves.
abbrev first_history : ℕ → BackoffHistory
first_history now = record { duration = 0; last_tried = now; attempts = 1 }

update_first :
    (asked now jitter id : ℕ) (b : Backoff)
    → lookup id b.info ≡ none
    → update_and_get asked now jitter b id
      ≡ (some 0, record b { info = insert id (first_history now) b.info })
unfolding update_and_get next_history
update_first asked now jitter id b l = ground arith

-- Where `max_attempts` is positive, a peer that is not on record is granted exactly `max_attempts`
-- delays, or as many as it is tried if that is fewer, in calls that are all made between a start and
-- the time to live after it; the rest of the calls return the error.
pub granted-exact :
    (calls : List (ℕ × ℕ × ℕ)) (b : Backoff) (id start : ℕ)
    → 0 < b.max_attempts
    → lookup id b.info ≡ none
    → Within start calls
    → granted calls b id ≡ min (length calls) b.max_attempts
unfolding granted
granted-exact [] b id start p l w = omega arith
granted-exact ((asked, now, jitter) ∷ calls) b id start p l w =
    let b1 : Backoff = record b { info = insert id (first_history now) b.info } in
    rw (update_first asked now jitter id b l, granted)
      (omega (
        arith,
        granted_from calls b1 id start (first_history now) w.2
            (ground (arith, lookup-insert id id (first_history now) b.info)) w.0,
      ))
