-- ===== src/Validation/Verdicts.antt =====
-- How the results of several validators combine: in whatever order they arrive.
use go_libp2p_pubsub.Prelude.{
  ℕ, ◌≡◌, refl, ◌∙◌, sym, Bool, true, false, List, [], ◌∷◌, map, count_of, ltb, if◌then◌else◌, ◌≢◌,
  arith,
}
use go_libp2p_pubsub.Message.{Message}
use go_libp2p_pubsub.Validation.{
  ValidationResult, accept, reject, ignore, throttled, other, ValidatorImpl, World, collect,
  validate_msg, validate_single_topic, validate_topic,
}

abbrev pub is_accept : ValidationResult → Bool
is_accept accept = true
is_accept _ = false

abbrev pub is_reject : ValidationResult → Bool
is_reject reject = true
is_reject _ = false

abbrev pub is_throttled : ValidationResult → Bool
is_throttled throttled = true
is_throttled _ = false

abbrev pub is_ignore : ValidationResult → Bool
is_ignore ignore = true
is_ignore _ = false

abbrev pub some_are : (ValidationResult → Bool) → List ValidationResult → Bool
some_are p rs = ltb 0 (count_of p rs)

-- A rejection outweighs a throttled validator, that one a result to ignore, and that one acceptance.
abbrev pub worst : List ValidationResult → ValidationResult
worst rs =
    if some_are is_reject rs
    then reject
    else if some_are is_throttled rs
    then throttled
    else if some_are is_ignore rs
    then ignore
    else accept

collect-throttled :
    (rs : List ValidationResult)
    → collect throttled rs ≡ (if some_are is_reject rs then reject else throttled)
unfolding collect
collect-throttled [] = refl
collect-throttled (accept ∷ rs) = ground (arith, collect-throttled rs)
collect-throttled (reject ∷ rs) = ground arith
collect-throttled (ignore ∷ rs) = ground (arith, collect-throttled rs)
collect-throttled (throttled ∷ rs) = ground (arith, collect-throttled rs)
collect-throttled (other n ∷ rs) = ground (arith, collect-throttled rs)

collect-ignore :
    (rs : List ValidationResult)
    → collect ignore rs ≡ (
        if some_are is_reject rs
        then reject
        else if some_are is_throttled rs
        then throttled
        else ignore)
unfolding collect
collect-ignore [] = refl
collect-ignore (accept ∷ rs) = ground (arith, collect-ignore rs)
collect-ignore (reject ∷ rs) = ground arith
collect-ignore (ignore ∷ rs) = ground (arith, collect-ignore rs)
collect-ignore (throttled ∷ rs) = ground (arith, collect-throttled rs)
collect-ignore (other n ∷ rs) = ground (arith, collect-ignore rs)

collect-accept : (rs : List ValidationResult) → collect accept rs ≡ worst rs
unfolding collect
collect-accept [] = refl
collect-accept (accept ∷ rs) = ground (arith, collect-accept rs)
collect-accept (reject ∷ rs) = ground arith
collect-accept (ignore ∷ rs) = ground (arith, collect-ignore rs)
collect-accept (throttled ∷ rs) = ground (arith, collect-throttled rs)
collect-accept (other n ∷ rs) = ground (arith, collect-accept rs)

-- What a validator says, with its own limit of goroutines.
abbrev pub results : World → List ValidatorImpl → ℕ → Message → List ValidationResult
results w vals src msg = map (λ val. validate_single_topic w val src msg) vals

-- Every result arrives, once.
abbrev pub IsArrival : (List ValidationResult → List ValidationResult) → Type 0
IsArrival arrival =
    (rs : List ValidationResult) (p : ValidationResult → Bool)
    → count_of p (arrival rs) ≡ count_of p rs

pub validate_single_topic-named :
    (w : World) (val : ValidatorImpl) (src n : ℕ) (msg : Message)
    → validate_single_topic w val src msg ≢ other n
unfolding validate_single_topic validate_msg
validate_single_topic-named w val src n msg h = absurd (ground arith)

worst-one : (r : ValidationResult) → ((n : ℕ) → r ≢ other n) → worst (r ∷ []) ≡ r
worst-one accept h = refl
worst-one reject h = refl
worst-one ignore h = refl
worst-one throttled h = refl
worst-one (other n) h = absurd (h n refl)

worst-arrival :
    (arrival : List ValidationResult → List ValidationResult) (rs : List ValidationResult)
    → IsArrival arrival
    → worst (arrival rs) ≡ worst rs
worst-arrival arrival rs a = ground (arith, a rs is_reject, a rs is_throttled, a rs is_ignore)

-- The result for several validators is the worst of their results, in whatever order these arrive:
-- the code that stops at the first rejection agrees with the plain reading of all of them.
pub validate_topic-worst :
    (w : World) (vals : List ValidatorImpl) (src : ℕ) (msg : Message)
    → IsArrival w.arrival
    → validate_topic w vals src msg ≡ worst (results w vals src msg)
unfolding validate_topic
validate_topic-worst w [] src msg a = collect-accept (w.arrival []) ∙ worst-arrival w.arrival [] a
validate_topic-worst w (val ∷ []) src msg a = sym (
    worst-one (validate_single_topic w val src msg)
      (λ n. validate_single_topic-named w val src n msg))
validate_topic-worst w (val ∷ next ∷ vals) src msg a =
    let rs = results w (val ∷ next ∷ vals) src msg in
    collect-accept (w.arrival rs) ∙ worst-arrival w.arrival rs a
