-- ===== src/TimeCache/Window.antt =====
-- For how long an id counts as seen.
use go_libp2p_pubsub.Prelude.{
  ℕ, ◌+◌, ◌≤◌, ◌<◌, ◌≡◌, inl, inr, ◌⊎◌, true, false, List, [], ◌∷◌, some, has, is_some, lookup,
  lookup-insert, lookup-keep_entries, ltb, not, ◌&&◌, ◌==◌, Bool-cases, arith,
}
use go_libp2p_pubsub.TimeCache.{TimeCache, first_seen_cache, last_seen_cache, add_id, has_id, sweep}

-- A call with the time at which it is made.
pub data Op : Type 0 where
  adds finds : ℕ → ℕ → Op
  sweeps : ℕ → Op

unfoldable pub step : TimeCache → Op → TimeCache
step tc (adds now s) = (add_id now tc s).1
step tc (finds now s) = (has_id now tc s).1
step tc (sweeps now) = sweep now tc

unfoldable pub run : TimeCache → List Op → TimeCache
run tc [] = tc
run tc (op ∷ ops) = run (step tc op) ops

-- Every sweep comes at or before a time.
abbrev pub SweptBy : ℕ → List Op → Type 0
SweptBy limit [] = Unit {0}
SweptBy limit (sweeps now ∷ ops) = (now ≤ limit) × SweptBy limit ops
SweptBy limit (adds now s ∷ ops) = SweptBy limit ops
SweptBy limit (finds now s ∷ ops) = SweptBy limit ops

-- Every call comes at or after a time.
abbrev pub Since : ℕ → List Op → Type 0
Since start [] = Unit {0}
Since start (sweeps now ∷ ops) = Since start ops
Since start (adds now s ∷ ops) = (start ≤ now) × Since start ops
Since start (finds now s ∷ ops) = (start ≤ now) × Since start ops

SweptBy-head : (n : ℕ) (op : Op) (ops : List Op) → SweptBy n (op ∷ ops) → SweptBy n (op ∷ [])
SweptBy-head n (adds now k) ops h = tt
SweptBy-head n (finds now k) ops h = tt
SweptBy-head n (sweeps now) ops h = (h.0, tt)

SweptBy-tail : (n : ℕ) (op : Op) (ops : List Op) → SweptBy n (op ∷ ops) → SweptBy n ops
SweptBy-tail n (adds now k) ops h = h
SweptBy-tail n (finds now k) ops h = h
SweptBy-tail n (sweeps now) ops h = h.1

Since-head : (n : ℕ) (op : Op) (ops : List Op) → Since n (op ∷ ops) → Since n (op ∷ [])
Since-head n (adds now k) ops h = (h.0, tt)
Since-head n (finds now k) ops h = (h.0, tt)
Since-head n (sweeps now) ops h = tt

Since-tail : (n : ℕ) (op : Op) (ops : List Op) → Since n (op ∷ ops) → Since n ops
Since-tail n (adds now k) ops h = h.1
Since-tail n (finds now k) ops h = h.1
Since-tail n (sweeps now) ops h = h

step_first :
    (tc : TimeCache) (op : Op) (s e : ℕ)
    → tc.kind ≡ first_seen_cache
    → lookup s tc.m ≡ some e
    → SweptBy e (op ∷ [])
    → let tc' = step tc op in
      (tc'.kind ≡ first_seen_cache) × (tc'.ttl ≡ tc.ttl) × (lookup s tc'.m ≡ some e)
unfolding step add_id has_id sweep
step_first tc (adds now k) s e kd h w = ground (arith, lookup-insert k s (now + tc.ttl) tc.m)
step_first tc (finds now k) s e kd h w = ground arith
step_first tc (sweeps now) s e kd h w =
    ground (arith, lookup-keep_entries (λ k expiry. not (ltb expiry now)) s tc.m)

step_last :
    (tc : TimeCache) (op : Op) (s start e : ℕ)
    → tc.kind ≡ last_seen_cache
    → lookup s tc.m ≡ some e
    → start + tc.ttl ≤ e
    → SweptBy (start + tc.ttl) (op ∷ [])
    → Since start (op ∷ [])
    → let tc' = step tc op in
      (tc'.kind ≡ last_seen_cache)
      × (tc'.ttl ≡ tc.ttl)
      × ((e' : ℕ) × (lookup s tc'.m ≡ some e') × (start + tc.ttl ≤ e'))
unfolding step add_id has_id sweep
step_last tc (adds now k) s start e kd h b w c = elim (Bool-cases (k == s)) [
  | inl same ↦ (
    ground arith,
    ground arith,
    (now + tc.ttl, ground (arith, lookup-insert k s (now + tc.ttl) tc.m), omega arith),
  )
  | inr other ↦
      (ground arith, ground arith, (e, ground (arith, lookup-insert k s (now + tc.ttl) tc.m), b))
]
step_last tc (finds now k) s start e kd h b w c =
    elim (Bool-cases (k == s && is_some (lookup k tc.m))) [
      | inl same ↦ (
        ground arith,
        ground arith,
        (now + tc.ttl, ground (arith, lookup-insert k s (now + tc.ttl) tc.m), omega arith),
      )
      | inr other ↦ (
        ground arith,
        ground arith,
        (e, ground (arith, lookup-insert k s (now + tc.ttl) tc.m), b),
      )
    ]
step_last tc (sweeps now) s start e kd h b w c = (
  ground arith,
  ground arith,
  (e, ground (arith, lookup-keep_entries (λ k expiry. not (ltb expiry now)) s tc.m), b),
)

run_first :
    (ops : List Op) (tc : TimeCache) (s e : ℕ)
    → tc.kind ≡ first_seen_cache
    → lookup s tc.m ≡ some e
    → SweptBy e ops
    → ((run tc ops).kind ≡ first_seen_cache) × (lookup s (run tc ops).m ≡ some e)
unfolding run
run_first [] tc s e k h w = (k, h)
run_first (op ∷ ops) tc s e k h w =
    let (k1, t1, h1) = step_first tc op s e k h (SweptBy-head e op ops w) in
    run_first ops (step tc op) s e k1 h1 (SweptBy-tail e op ops w)

run_last :
    (ops : List Op) (tc : TimeCache) (s start e : ℕ)
    → tc.kind ≡ last_seen_cache
    → lookup s tc.m ≡ some e
    → start + tc.ttl ≤ e
    → SweptBy (start + tc.ttl) ops
    → Since start ops
    → ((run tc ops).kind ≡ last_seen_cache) × (has s (run tc ops).m ≡ true)
unfolding run
run_last [] tc s start e k h b w c = (k, ground arith)
run_last (op ∷ ops) tc s start e k h b w c =
    let (k1, t1, (e1, h1, b1)) =
      step_last tc op s start e k h b (SweptBy-head (start + tc.ttl) op ops w)
        (Since-head start op ops c) in
    run_last ops (step tc op) s start e1 k1 h1 (rw t1 b1)
      (rw t1 (SweptBy-tail (start + tc.ttl) op ops w)) (Since-tail start op ops c)

-- A first-seen cache that takes an id at `now` reports it as seen, and refuses it again, after any
-- calls and sweeps whose sweeps come no later than `now + ttl`; and the next sweep after that time
-- forgets it, however often it was added or looked up meanwhile.
pub first_seen-window :
    (tc : TimeCache) (ops : List Op) (s now later end : ℕ)
    → tc.kind ≡ first_seen_cache
    → (add_id now tc s).0 ≡ true
    → SweptBy (now + tc.ttl) ops
    → now + tc.ttl < end
    → let after = run (add_id now tc s).1 ops in
      ((add_id later after s).0 ≡ false)
      × ((has_id later after s).0 ≡ true)
      × ((has_id later (sweep end after) s).0 ≡ false)
unfolding add_id has_id sweep
first_seen-window tc ops s now later end k a w l =
    let added : lookup s (add_id now tc s).1.m ≡ some (now + tc.ttl) =
      ground (arith, lookup-insert s s (now + tc.ttl) tc.m) in
    let (k', h') = run_first ops (add_id now tc s).1 s (now + tc.ttl) (ground arith) added w in
    let after = run (add_id now tc s).1 ops in
    (
      ground arith,
      ground arith,
      ground (arith, lookup-keep_entries (λ j expiry. not (ltb expiry end)) s after.m),
    )

-- A last-seen cache that was given an id at `now`, or that found it then, reports it as seen, and
-- refuses it again, after any calls made from `now` on whose sweeps come no later than `now + ttl`.
pub last_seen-window :
    (tc touched : TimeCache) (ops : List Op) (s now later : ℕ)
    → tc.kind ≡ last_seen_cache
    → (touched ≡ (add_id now tc s).1) ⊎ (has_id now tc s ≡ (true, touched))
    → SweptBy (now + tc.ttl) ops
    → Since now ops
    → ((add_id later (run touched ops) s).0 ≡ false) × ((has_id later (run touched ops) s).0 ≡ true)
unfolding add_id has_id
last_seen-window tc touched ops s now later k e w c =
    let facts : (touched.kind ≡ last_seen_cache)
        × (touched.ttl ≡ tc.ttl)
        × (lookup s touched.m ≡ some (now + tc.ttl)) =
      ground (arith, lookup-insert s s (now + tc.ttl) tc.m) in
    let (k', h') =
      run_last ops touched s now (now + tc.ttl) facts.0 facts.2 (omega (arith, facts.1))
        (rw (facts.1) w) c in
    (ground arith, ground arith)
