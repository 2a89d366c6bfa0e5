-- ===== src/Backoff/Bounds.antt =====
-- The delays and the number of attempts.
use Prim.Native.Nat.{min}
use go_libp2p_pubsub.Prelude.{
  ℕ, ◌+◌, ◌*◌, ◌≤◌, ◌<◌, ◌≡◌, refl, inl, inr, ◌⊎◌, List, [], ◌∷◌, Option, none, some, Option-cases,
  lookup, lookup-insert, lookup-keep_entries, not, arith,
}
use go_libp2p_pubsub.Backoff.{
  Backoff, BackoffHistory, max_backoff_delay, min_backoff_delay, time_to_live, millisecond,
  is_stale, grow, next_history, update_and_get, cleanup, max_backoff_jitter_coff, new_backoff,
}

-- From a delay below the maximum the next one doubles, up to the maximum, and the jitter adds less
-- than 100 ms; it never wraps round.
grow_bounds :
    (d jitter : ℕ)
    → d < max_backoff_delay
    → jitter < max_backoff_jitter_coff
    → (min (2 * d) max_backoff_delay ≤ grow d jitter)
      × (grow d jitter ≤ max_backoff_delay)
      × (grow d jitter < 2 * d + max_backoff_jitter_coff * millisecond)
unfolding grow
grow_bounds d jitter h j = ground arith

-- What holds of every history.
abbrev pub IsFair : ℕ → BackoffHistory → Type 0
IsFair max_attempts h =
    (h.duration ≤ max_backoff_delay)
    × ((h.duration ≡ 0) ⊎ (min_backoff_delay ≤ h.duration))
    × (0 < h.attempts)
    × ((h.attempts ≤ max_attempts) ⊎ (h.attempts ≡ 1))

pub record Inv (b : Backoff) : Type 0 where
  pub fair : (id : ℕ) (h : BackoffHistory) → lookup id b.info ≡ some h → IsFair b.max_attempts h

next_history-bounds :
    (asked jitter max_attempts : ℕ) (o : Option BackoffHistory) (h : BackoffHistory)
    → jitter < max_backoff_jitter_coff
    → ((g : BackoffHistory) → o ≡ some g → IsFair max_attempts g)
    → next_history asked jitter max_attempts o ≡ some h
    → (h.duration ≤ max_backoff_delay)
      × ((h.duration ≡ 0) ⊎ (min_backoff_delay ≤ h.duration))
      × ((h.attempts < max_attempts) ⊎ (h.attempts ≡ 0))
unfolding next_history
next_history-bounds asked jitter n none h j v e = ground arith
next_history-bounds asked jitter n (some g) h j v e =
    ground (arith, v g refl, grow_bounds g.duration jitter)

update_and_get-Inv :
    (asked now jitter id : ℕ) (b : Backoff)
    → jitter < max_backoff_jitter_coff
    → Inv b
    → Inv (update_and_get asked now jitter b id).1
unfolding update_and_get
update_and_get-Inv asked now jitter id b j v =
    elim (Option-cases (next_history asked jitter b.max_attempts (lookup id b.info))) [
      | inl refused ↦ rw (refused, update_and_get) v
      | inr (h, e) ↦
          rw (e, update_and_get)
            (record {
              fair = λ k g p. ground (
                arith,
                next_history-bounds asked jitter b.max_attempts (lookup id b.info) h j (v.fair id)
                    e,
                lookup-insert id k (record h { last_tried = now; attempts = h.attempts + 1 })
                    b.info,
                v.fair k g,
              );
            })
    ]

cleanup-Inv : (now : ℕ) (b : Backoff) → Inv b → Inv (cleanup now b)
unfolding cleanup
cleanup-Inv now b v = record {
  fair = λ k g p.
      ground (arith, lookup-keep_entries (λ i h. not (is_stale now h)) k b.info, v.fair k g);
}

-- A call of `updateAndGet`, or a round of the cleaner.
pub data Op : Type 0 where
  tries : (asked now jitter id : ℕ) → jitter < max_backoff_jitter_coff → Op
  cleans : ℕ → Op

unfoldable pub step : Backoff → Op → Backoff
step b (tries asked now jitter id _) = (update_and_get asked now jitter b id).1
step b (cleans now) = cleanup now b

unfoldable pub run : Backoff → List Op → Backoff
run b [] = b
run b (op ∷ ops) = run (step b op) ops

run-Inv : (ops : List Op) (b : Backoff) → Inv b → Inv (run b ops)
unfolding run step
run-Inv [] b v = v
run-Inv (tries asked now jitter id j ∷ ops) b v =
    run-Inv ops _ (update_and_get-Inv asked now jitter id b j v)
run-Inv (cleans now ∷ ops) b v = run-Inv ops _ (cleanup-Inv now b v)

-- After any calls and cleanings, with any times and jitter, whatever a further call returns is a
-- delay of at most ten seconds.
pub delay-bounded :
    (size interval max_attempts : ℕ) (ops : List Op) (asked now jitter id : ℕ) {d : ℕ}
    → jitter < max_backoff_jitter_coff
    → (update_and_get asked now jitter (run (new_backoff size interval max_attempts) ops) id).0
      ≡ some d
    → d ≤ max_backoff_delay
unfolding update_and_get new_backoff
delay-bounded size interval max_attempts ops asked now jitter id j e =
    let b = run (new_backoff size interval max_attempts) ops in
    let v =
      run-Inv ops (new_backoff size interval max_attempts)
        (record { fair = λ k g p. ground arith }) in
    elim (Option-cases (next_history asked jitter b.max_attempts (lookup id b.info))) [
      | inl refused ↦ absurd (ground arith)
      | inr (h, hit) ↦ ground (
        arith,
        next_history-bounds asked jitter b.max_attempts (lookup id b.info) h j (v.fair id) hit,
      )
    ]

-- The delays of one peer grow: where every history is fair, a call within the time to live of the last one returns no less
-- than that one's delay, at least 100 ms, and at least the double of it up to ten seconds.
pub delay-grows :
    (asked now jitter id : ℕ) (b : Backoff) (h : BackoffHistory) {d : ℕ}
    → jitter < max_backoff_jitter_coff
    → Inv b
    → lookup id b.info ≡ some h
    → asked ≤ h.last_tried + time_to_live
    → (update_and_get asked now jitter b id).0 ≡ some d
    → (h.duration ≤ d) × (min_backoff_delay ≤ d) × (min (2 * h.duration) max_backoff_delay ≤ d)
unfolding update_and_get next_history
delay-grows asked now jitter id b h j v l fresh e =
    ground (arith, v.fair id h l, grow_bounds h.duration jitter)
