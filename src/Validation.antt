-- ===== src/Validation.antt =====
-- validation.go: the validation pipeline. What runs at the same time is given from outside: whether
-- a channel that limits goroutines has room, and in which order the results of validators arrive.
pub mod Verdicts
pub mod Fates
pub mod Tests
use go_libp2p_pubsub.Prelude.{
  ℕ, Bool, true, false, not, ◌&&◌, ◌||◌, List, [], ◌∷◌, ◌++◌, Option, none, some, Map, map, lookup,
  insert, delete, has, keep, length, ltb, ◌==◌, if◌then◌else◌, is_some,
}
use go_libp2p_pubsub.Message.{Message}
use go_libp2p_pubsub.TimeCache.{TimeCache, add_id, has_id}
use go_libp2p_pubsub.GossipTracer.{
  RejectReason, invalid_signature, validation_throttled, validation_failed, validation_ignored,
}

-- `ValidationResult`, an int: the three named results, the internal one, and any other number.
pub data ValidationResult : Type 0 where
  accept reject ignore throttled : ValidationResult
  other : ℕ → ValidationResult

-- `channel` is the one that limits the validator's goroutines, with its capacity.
pub record ValidatorImpl : Type 0 where
  pub topic : ℕ
  pub validate : ℕ → Message → ValidationResult
  pub validate_timeout : ℕ
  pub channel : ℕ
  pub capacity : ℕ
  pub validate_inline : Bool

-- The two kinds of functions that `makeValidator` takes, and what it refuses.
pub data AnyValidator : Type 0 where
  plain : (ℕ → Message → Bool) → AnyValidator
  extended : (ℕ → Message → ValidationResult) → AnyValidator
  unknown : AnyValidator

pub record AddValReq : Type 0 where
  pub topic : ℕ
  pub validate : AnyValidator
  pub timeout : ℕ
  pub throttle : ℕ
  pub inline : Bool

abbrev pub default_validate_concurrency : ℕ
default_validate_concurrency = 1024

abbrev pub validator_ex : AnyValidator → Option (ℕ → Message → ValidationResult)
validator_ex (plain v) = some (λ p msg. if v p msg then accept else reject)
validator_ex (extended v) = some v
validator_ex unknown = none

-- `fresh` is the channel that is made.
unfoldable pub make_validator : ℕ → AddValReq → Option ValidatorImpl
make_validator fresh req = elim (validator_ex req.validate) [
  | none ↦ none
  | some validate ↦ some (record {
    topic = req.topic;
    validate = validate;
    validate_timeout = req.timeout;
    channel = fresh;
    capacity = if ltb 0 req.throttle then req.throttle else default_validate_concurrency;
    validate_inline = req.inline;
  })
]

pub record Validators : Type 0 where
  pub topic_vals : Map ValidatorImpl
  pub default_vals : List ValidatorImpl

-- The Boolean is false for an error.
unfoldable pub add_validator : ℕ → Validators → AddValReq → Bool × Validators
unfolding make_validator
add_validator fresh v req = elim (make_validator fresh req) [
  | none ↦ (false, v)
  | some val ↦
      if has val.topic v.topic_vals
      then (false, v)
      else (true, record v { topic_vals = insert val.topic val v.topic_vals })
]

unfoldable pub remove_validator : Validators → ℕ → Bool × Validators
remove_validator v topic =
    if has topic v.topic_vals
    then (true, record v { topic_vals = delete topic v.topic_vals })
    else (false, v)

unfoldable pub get_validators : Validators → Message → List ValidatorImpl
get_validators v msg = elim (lookup msg.topic v.topic_vals) [
  | none ↦ v.default_vals
  | some val ↦ v.default_vals ++ val ∷ []
]

-- `Push`: forwarded at once, put into the queue, or dropped because the queue is full.
pub data Pushed : Type 0 where
  forward queue_full : Pushed
  queued : List ValidatorImpl → Pushed

unfoldable pub push_validation : Bool → Validators → Message → Pushed
unfolding get_validators
push_validation queue_room v msg =
    let vals = get_validators v msg in
    if ltb 0 (length vals) || is_some msg.signature
    then (if queue_room then queued vals else queue_full)
    else forward

-- `validateMsg`: a result without a name is an IGNORE.
unfoldable pub validate_msg : ValidatorImpl → ℕ → Message → ValidationResult
validate_msg val src msg = elim (val.validate src msg) [
  | accept ↦ accept
  | reject ↦ reject
  | ignore ↦ ignore
  | throttled ↦ ignore
  | other n ↦ ignore
]

-- What the pipeline meets: the time, the signature check, the message ids, the room in the channels
-- of validators and in the common one, and the order in which results arrive.
pub record World : Type 0 where
  pub now : ℕ
  pub verify_message_signature : Message → Bool
  pub message_id : Message → ℕ
  pub has_room : ℕ → Bool
  pub has_common_room : Bool
  pub arrival : List ValidationResult → List ValidationResult

-- `seenMessages` and `deliveredMessages`.
pub record Caches : Type 0 where
  pub seen : TimeCache
  pub delivered : TimeCache

-- The loop over the inline validators.
unfoldable pub run_inline : List ValidatorImpl → ℕ → Message → ValidationResult → ValidationResult
unfolding validate_msg
run_inline [] src msg result = result
run_inline (val ∷ vals) src msg result =
    let rest =
      run_inline vals src msg (elim (validate_msg val src msg) [ ignore ↦ ignore | _ ↦ result ]) in
    elim (validate_msg val src msg) [ reject ↦ reject | _ ↦ rest ]

-- The loop that collects the results as they arrive.
unfoldable pub collect : ValidationResult → List ValidationResult → ValidationResult
collect result [] = result
collect result (accept ∷ rs) = collect result rs
collect result (reject ∷ rs) = reject
collect result (ignore ∷ rs) = collect (elim result [ throttled ↦ throttled | _ ↦ ignore ]) rs
collect result (throttled ∷ rs) = collect throttled rs
collect result (other n ∷ rs) = collect result rs

unfoldable pub validate_single_topic : World → ValidatorImpl → ℕ → Message → ValidationResult
validate_single_topic w val src msg =
    if w.has_room val.channel then validate_msg val src msg else throttled

unfoldable pub validate_topic : World → List ValidatorImpl → ℕ → Message → ValidationResult
unfolding validate_single_topic collect
validate_topic w (val ∷ []) src msg = validate_single_topic w val src msg
validate_topic w vals src msg =
    collect accept (w.arrival (map (λ val. validate_single_topic w val src msg) vals))

-- What becomes of a message: `onValid` is called, it is a duplicate, it is rejected, or the code
-- panics.
pub data Fate : Type 0 where
  valid duplicate panicked : Fate
  rejected : RejectReason → Fate

unfoldable pub do_validate_topic :
    World → List ValidatorImpl → ℕ → Message → ValidationResult → Fate
unfolding validate_topic
do_validate_topic w vals src msg r =
    let result = validate_topic w vals src msg in
    let worse = elim result as (λ x. ValidationResult) [ accept ↦ r | _ ↦ result ] in
    elim worse [
      | accept ↦ valid
      | reject ↦ rejected validation_failed
      | ignore ↦ rejected validation_ignored
      | throttled ↦ rejected validation_throttled
      | other n ↦ panicked
    ]

-- `validate` after the caches, with the goroutine that it starts run to its end.
unfoldable pub apply_validators : World → List ValidatorImpl → ℕ → Message → Bool → Fate
unfolding run_inline do_validate_topic
apply_validators w vals src msg is_local =
    let async = keep (λ (val : ValidatorImpl). not (val.validate_inline || is_local)) vals in
    let result =
      run_inline (keep (λ (val : ValidatorImpl). val.validate_inline || is_local) vals) src msg
        accept in
    let later =
      if w.has_common_room
      then do_validate_topic w async src msg result
      else rejected validation_throttled in
    elim result [
      | reject ↦ rejected validation_failed
      | ignore ↦ if ltb 0 (length async) then later else rejected validation_ignored
      | _ ↦ if ltb 0 (length async) then later else valid
    ]

unfoldable pub validate : World → Caches → List ValidatorImpl → ℕ → Message → Bool → Fate × Caches
unfolding apply_validators
validate w caches vals src msg is_local =
    let id = w.message_id msg in
    let (fresh, seen) = add_id w.now caches.seen id in
    let (known, delivered) = has_id w.now caches.delivered id in
    if is_some msg.signature && not (w.verify_message_signature msg)
    then (rejected invalid_signature, caches)
    else if not fresh && not is_local
    then (duplicate, record caches { seen = seen })
    else if known
    then (duplicate, record { seen = seen; delivered = delivered })
    else (apply_validators w vals src msg is_local, record { seen = seen; delivered = delivered })
