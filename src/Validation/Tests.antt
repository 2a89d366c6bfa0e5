-- ===== src/Validation/Tests.antt =====
-- The theorems about the pipeline at concrete inputs, and runs of the code.
use go_libp2p_pubsub.Prelude.{
  ℕ, ◌≡◌, ◌≢◌, refl, Bool, true, false, not, ◌&&◌, List, [], ◌∷◌, ◌++◌, keep, count_of-append,
  arith, ◌==◌,
}
use go_libp2p_pubsub.Message.{Message}
use go_libp2p_pubsub.Router.Example.{message}
use go_libp2p_pubsub.TimeCache.{first_seen_cache, add_id, has_id}
use go_libp2p_pubsub.GossipTracer.{validation_throttled, validation_ignored}
use go_libp2p_pubsub.Validation.{
  ValidationResult, accept, ignore, other, ValidatorImpl, World, Caches, validate_topic, valid,
  rejected, duplicate, panicked, validate,
}
use go_libp2p_pubsub.Validation.Verdicts.{IsArrival, worst, results, validate_topic-worst}
use go_libp2p_pubsub.Validation.Fates.{
  is_valid, signature_ok, is_fresh, every, accepts, room_for, is_async, validate-valid,
  validate-panics,
}

abbrev says : ℕ → ValidationResult → Bool → ValidatorImpl
says channel r inline = record {
  topic = 1;
  validate = (λ src msg. r);
  validate_timeout = 0;
  channel = channel;
  capacity = 1024;
  validate_inline = inline;
}

-- The last result arrives first, and channel 9 is full.
abbrev last_first : List ValidationResult → List ValidationResult
last_first [] = []
last_first (r ∷ rs) = last_first rs ++ r ∷ []

last_first-IsArrival : IsArrival last_first
last_first-IsArrival [] p = refl
last_first-IsArrival (r ∷ rs) p =
    ground (arith, last_first-IsArrival rs p, count_of-append p (last_first rs) (r ∷ []))

abbrev world : World
world = record {
  now = 5;
  verify_message_signature = (λ msg. true);
  message_id = Message.id;
  has_room = (λ c. not (c == 9));
  has_common_room = true;
  arrival = last_first;
}

abbrev empty_caches : Caches
empty_caches = record {
  seen = record { kind = first_seen_cache; m = []; ttl = 100 };
  delivered = record { kind = first_seen_cache; m = []; ttl = 100 };
}

abbrev vals : List ValidatorImpl
vals = says 1 accept true ∷ says 2 accept false ∷ says 3 accept false ∷ []

program : Unit {0}
unfolding validate add_id has_id
program = tt

all_accept : (validate world empty_caches vals 7 message false).0 ≡ valid
unfolding program
all_accept = refl

a_number_is_ignored :
    (validate world empty_caches (says 4 (other 5) false ∷ vals) 7 message false).0
    ≡ rejected validation_ignored
unfolding program
a_number_is_ignored = refl

throttled_before_ignore :
    (validate world empty_caches (says 9 accept false ∷ says 4 ignore false ∷ []) 7 message false).0
    ≡ rejected validation_throttled
unfolding program
throttled_before_ignore = refl

second_time_is_duplicate :
    (validate world (validate world empty_caches vals 7 message false).1 vals 8 message false).0
    ≡ duplicate
unfolding program
second_time_is_duplicate = refl

validate_topic-worst_example :
    validate_topic world vals 7 message ≡ worst (results world vals 7 message)
validate_topic-worst_example = validate_topic-worst world vals 7 message last_first-IsArrival

validate-valid_example :
    is_valid (validate world empty_caches vals 7 message false).0
    ≡ signature_ok world message
      && is_fresh world empty_caches message false
      && every (accepts 7 message) vals
      && room_for world (keep (is_async false) vals)
validate-valid_example = validate-valid world empty_caches vals 7 message false last_first-IsArrival

validate-panics_example : (validate world empty_caches vals 7 message false).0 ≢ panicked
validate-panics_example =
    validate-panics world empty_caches vals 7 message false last_first-IsArrival
