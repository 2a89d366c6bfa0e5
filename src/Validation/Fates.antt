-- ===== src/Validation/Fates.antt =====
-- When a message passes the pipeline.
use go_libp2p_pubsub.Prelude.{
  ℕ, ◌≡◌, ◌≢◌, refl, Bool, true, false, not, ◌&&◌, ◌||◌, List, [], ◌∷◌, is_some, keep, arith,
}
use go_libp2p_pubsub.Message.{Message}
use go_libp2p_pubsub.TimeCache.{add_id, has_id}
use go_libp2p_pubsub.Validation.{
  ValidationResult, accept, ignore, throttled, other, ValidatorImpl, World, Caches, validate_msg,
  run_inline, validate_single_topic, validate_topic, Fate, valid, panicked, do_validate_topic,
  apply_validators, validate,
}
use go_libp2p_pubsub.Validation.Verdicts.{
  is_accept, worst, results, IsArrival, validate_topic-worst,
}

abbrev pub every {ℓ} : {A : Type ℓ} → (A → Bool) → List A → Bool
every p [] = true
every p (x ∷ xs) = p x && every p xs

every-keep {ℓ} :
    {A : Type ℓ} (p q : A → Bool) (xs : List A)
    → every p xs ≡ every p (keep q xs) && every p (keep (λ x. not (q x)) xs)
every-keep p q [] = refl
every-keep p q (x ∷ xs) = ground (arith, every-keep p q xs)

abbrev pub is_valid : Fate → Bool
is_valid valid = true
is_valid _ = false

abbrev pub accepts : ℕ → Message → ValidatorImpl → Bool
accepts src msg val = is_accept (validate_msg val src msg)

run_inline-ignore :
    (vals : List ValidatorImpl) (src : ℕ) (msg : Message)
    → is_accept (run_inline vals src msg ignore) ≡ false
unfolding run_inline
run_inline-ignore [] src msg = refl
run_inline-ignore (val ∷ vals) src msg = ground (arith, run_inline-ignore vals src msg)

run_inline-accept :
    (vals : List ValidatorImpl) (src : ℕ) (msg : Message)
    → is_accept (run_inline vals src msg accept) ≡ every (accepts src msg) vals
unfolding run_inline
run_inline-accept [] src msg = refl
run_inline-accept (val ∷ vals) src msg =
    ground (arith, run_inline-accept vals src msg, run_inline-ignore vals src msg)

abbrev is_public : ValidationResult → Bool
is_public throttled = false
is_public (other n) = false
is_public _ = true

-- The loop ends in one of the three public results.
run_inline-public :
    (vals : List ValidatorImpl) (src : ℕ) (msg : Message) (r : ValidationResult)
    → is_public r ≡ true
    → is_public (run_inline vals src msg r) ≡ true
unfolding run_inline
run_inline-public [] src msg r h = h
run_inline-public (val ∷ vals) src msg r h =
    ground (arith, run_inline-public vals src msg r, run_inline-public vals src msg ignore)

worst-accept :
    (w : World) (vals : List ValidatorImpl) (src : ℕ) (msg : Message)
    → is_accept (worst (results w vals src msg))
      ≡ every (λ (val : ValidatorImpl). w.has_room val.channel && accepts src msg val) vals
unfolding validate_single_topic validate_msg
worst-accept w [] src msg = refl
worst-accept w (val ∷ vals) src msg = ground (arith, worst-accept w vals src msg)

do_validate_topic-valid :
    (w : World) (vals : List ValidatorImpl) (src : ℕ) (msg : Message) (r : ValidationResult)
    → is_valid (do_validate_topic w vals src msg r)
      ≡ is_accept (validate_topic w vals src msg) && is_accept r
unfolding do_validate_topic
do_validate_topic-valid w vals src msg r = ground arith

-- A validator that is run in its own goroutine, and one that is not.
abbrev pub is_async : Bool → ValidatorImpl → Bool
is_async is_local val = not (val.validate_inline || is_local)

abbrev pub is_sync : Bool → ValidatorImpl → Bool
is_sync is_local val = val.validate_inline || is_local

-- What has to have room: the common channel, if there are validators to run later, and theirs.
abbrev pub room_for : World → List ValidatorImpl → Bool
room_for w [] = true
room_for w (val ∷ vals) =
    w.has_common_room && every (λ (v : ValidatorImpl). w.has_room v.channel) (val ∷ vals)

every-and {ℓ} :
    {A : Type ℓ} (p q : A → Bool) (xs : List A)
    → every (λ x. p x && q x) xs ≡ every p xs && every q xs
every-and p q [] = refl
every-and p q (x ∷ xs) = ground (arith, every-and p q xs)

apply_validators-valid :
    (w : World) (vals : List ValidatorImpl) (src : ℕ) (msg : Message) (is_local : Bool)
    → IsArrival w.arrival
    → is_valid (apply_validators w vals src msg is_local)
      ≡ every (accepts src msg) vals && room_for w (keep (is_async is_local) vals)
unfolding apply_validators
apply_validators-valid w vals src msg is_local a =
    let sync = keep (is_sync is_local) vals in
    let async = keep (is_async is_local) vals in
    let result = run_inline sync src msg accept in
    ground (
      arith,
      every-keep (accepts src msg) (is_sync is_local) vals,
      run_inline-accept sync src msg,
      run_inline-public sync src msg accept refl,
      do_validate_topic-valid w async src msg result,
      validate_topic-worst w async src msg a,
      worst-accept w async src msg,
      every-and (λ (val : ValidatorImpl). w.has_room val.channel) (accepts src msg) async,
    )

abbrev pub signature_ok : World → Message → Bool
signature_ok w msg = not (is_some msg.signature) || w.verify_message_signature msg

-- A message that was not seen before, or a local one, and that was not delivered.
abbrev pub is_fresh : World → Caches → Message → Bool → Bool
is_fresh w caches msg is_local =
    ((add_id w.now caches.seen (w.message_id msg)).0 || is_local)
    && not (has_id w.now caches.delivered (w.message_id msg)).0

-- The pipeline lets a message through exactly if its signature is right where it has one, it is
-- fresh, every validator accepts it, run inline or later, and none of those that run later is
-- throttled.
pub validate-valid :
    (w : World) (caches : Caches) (vals : List ValidatorImpl) (src : ℕ) (msg : Message)
    (is_local : Bool)
    → IsArrival w.arrival
    → is_valid (validate w caches vals src msg is_local).0
      ≡ signature_ok w msg
        && is_fresh w caches msg is_local
        && every (accepts src msg) vals
        && room_for w (keep (is_async is_local) vals)
unfolding validate
validate-valid w caches vals src msg is_local a =
    ground (arith, apply_validators-valid w vals src msg is_local a)

abbrev panics : Fate → Bool
panics panicked = true
panics _ = false

do_validate_topic-panics :
    (w : World) (vals : List ValidatorImpl) (src : ℕ) (msg : Message) (r : ValidationResult)
    → IsArrival w.arrival
    → is_public r ≡ true
    → panics (do_validate_topic w vals src msg r) ≡ false
unfolding do_validate_topic
do_validate_topic-panics w vals src msg r a h =
    ground (arith, validate_topic-worst w vals src msg a)

-- No result of the validators, whatever numbers they return, makes the pipeline panic.
pub validate-panics :
    (w : World) (caches : Caches) (vals : List ValidatorImpl) (src : ℕ) (msg : Message)
    (is_local : Bool)
    → IsArrival w.arrival
    → (validate w caches vals src msg is_local).0 ≢ panicked
unfolding validate apply_validators
validate-panics w caches vals src msg is_local a h =
    let sync = keep (is_sync is_local) vals in
    let async = keep (is_async is_local) vals in
    let result = run_inline sync src msg accept in
    absurd (
      ground (
        arith,
        run_inline-public sync src msg accept refl,
        do_validate_topic-panics w async src msg result a,
      ))
