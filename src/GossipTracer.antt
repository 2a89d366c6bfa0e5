-- ===== src/GossipTracer.antt =====
-- gossip_tracer.go: who promised which message by an IHAVE, and by when.
-- Message ids and peers are numbers. `promises` is the map of maps by message; `peer_promises` is
-- the index of the same promises by peer. A nil map of Go reads as an empty one, and a delete from
-- it does nothing. A nil tracer, which ignores every call, has no model.
pub mod Index
pub mod Broken
pub mod History
pub mod Tests
use go_libp2p_pubsub.Prelude.{
  ℕ, ◌+◌, List, [], ◌∷◌, Option, none, some, Map, lookup, lookup_or, insert, delete, keys, remove,
  add, ltb, get_elem?, if◌then◌else◌, Bool, true, false,
}

-- The reasons of validation.go, pubsub.go and tracer.go for a rejected message.
pub data RejectReason : Type 0 where
  blacklisted_peer blacklisted_source missing_signature unexpected_signature : RejectReason
  unexpected_auth_info invalid_signature validation_queue_full validation_throttled : RejectReason
  validation_failed validation_ignored self_origin : RejectReason

pub record GossipTracer : Type 0 where
  pub follow_up_time : ℕ
  pub promises : Map (Map ℕ)
  pub peer_promises : Map (List ℕ)

unfoldable pub new_gossip_tracer : ℕ → GossipTracer
new_gossip_tracer follow_up_time = record {
  follow_up_time = follow_up_time;
  promises = [];
  peer_promises = [];
}

abbrev put_or_delete {ℓ} : {A : Type ℓ} → ℕ → List A → Map (List A) → Map (List A)
put_or_delete k [] m = delete k m
put_or_delete k (x ∷ xs) m = insert k (x ∷ xs) m

-- `delete(peerPromises, mid)`, and the peer's entry with it when it becomes empty.
unfoldable pub drop_index : ℕ → ℕ → Map (List ℕ) → Map (List ℕ)
drop_index mid p index = put_or_delete p (remove mid (lookup_or [] p index)) index

-- `delete(promises, p)`, and the message's entry with it when it becomes empty.
unfoldable pub drop_promise : ℕ → ℕ → Map (Map ℕ) → Map (Map ℕ)
drop_promise p mid promises = put_or_delete mid (delete p (lookup_or [] mid promises)) promises

unfoldable pub add_one_promise : ℕ → ℕ → ℕ → GossipTracer → GossipTracer
add_one_promise now p mid gt =
    let expected = lookup_or [] mid gt.promises in
    elim (lookup p expected) [
      | some expire ↦ record gt { promises = insert mid expected gt.promises }
      | none ↦ record gt {
        promises = insert mid (insert p (now + gt.follow_up_time) expected) gt.promises;
        peer_promises = insert p (add mid (lookup_or [] p gt.peer_promises)) gt.peer_promises;
      }
    ]

-- `idx` is what `rand.Intn(len(msgIDs))` returns; on an empty list that call panics.
unfoldable pub add_promise : ℕ → ℕ → GossipTracer → ℕ → List ℕ → Option GossipTracer
unfolding add_one_promise
add_promise now idx gt p msg_ids = elim (get_elem? msg_ids idx) [
  | none ↦ none
  | some mid ↦ some (add_one_promise now p mid gt)
]

-- The state of the loops of `GetBrokenPromises`.
pub record BrokenPromises : Type 0 where
  pub tracer : GossipTracer
  pub res : Map ℕ

break_one : ℕ → ℕ → BrokenPromises → BrokenPromises
unfolding drop_index
break_one mid p b =
    let gt = b.tracer in
    record {
      tracer = record gt {
        promises = insert mid (delete p (lookup_or [] mid gt.promises)) gt.promises;
        peer_promises = drop_index mid p gt.peer_promises;
      };
      res = insert p (lookup_or 0 p b.res + 1) b.res;
    }

unfoldable pub is_expired : ℕ → Option ℕ → Bool
is_expired now none = false
is_expired now (some expire) = ltb expire now

-- `for p, expire := range promises`.
break_peers : ℕ → ℕ → List ℕ → BrokenPromises → BrokenPromises
unfolding break_one is_expired
break_peers now mid [] b = b
break_peers now mid (p ∷ ps) b = break_peers now mid ps (
    if is_expired now (lookup p (lookup_or [] mid b.tracer.promises)) then break_one mid p b else b)

-- What follows the inner loop: an entry that is empty goes.
tidy : ℕ → BrokenPromises → BrokenPromises
tidy mid b =
    let gt = b.tracer in
    record b {
      tracer = record gt {
        promises = put_or_delete mid (lookup_or [] mid gt.promises) gt.promises;
      };
    }

-- `for mid, promises := range gt.promises`.
break_messages : ℕ → List ℕ → BrokenPromises → BrokenPromises
unfolding break_peers tidy
break_messages now [] b = b
break_messages now (mid ∷ mids) b =
    break_messages now mids
      (tidy mid (break_peers now mid (keys (lookup_or [] mid b.tracer.promises)) b))

unfoldable pub get_broken_promises : ℕ → GossipTracer → BrokenPromises
unfolding break_messages
get_broken_promises now gt =
    break_messages now (keys gt.promises) (record { tracer = gt; res = [] })

drop_indices : ℕ → List ℕ → Map (List ℕ) → Map (List ℕ)
unfolding drop_index
drop_indices mid [] index = index
drop_indices mid (p ∷ ps) index = drop_indices mid ps (drop_index mid p index)

unfoldable pub fulfill_promise : GossipTracer → ℕ → GossipTracer
unfolding drop_indices
fulfill_promise gt mid = elim (lookup mid gt.promises) [
  | none ↦ gt
  | some promises ↦ record gt {
    promises = delete mid gt.promises;
    peer_promises = drop_indices mid (keys promises) gt.peer_promises;
  }
]

unfoldable pub deliver_message : GossipTracer → ℕ → GossipTracer
unfolding fulfill_promise
deliver_message gt mid = fulfill_promise gt mid

unfoldable pub validate_message : GossipTracer → ℕ → GossipTracer
unfolding fulfill_promise
validate_message gt mid = fulfill_promise gt mid

unfoldable pub reject_message : RejectReason → GossipTracer → ℕ → GossipTracer
unfolding fulfill_promise
reject_message missing_signature gt mid = gt
reject_message invalid_signature gt mid = gt
reject_message _ gt mid = fulfill_promise gt mid

pub drop_promises : ℕ → List ℕ → Map (Map ℕ) → Map (Map ℕ)
unfolding drop_promise
drop_promises p [] promises = promises
drop_promises p (mid ∷ mids) promises = drop_promises p mids (drop_promise p mid promises)

unfoldable pub throttle_peer : GossipTracer → ℕ → GossipTracer
unfolding drop_promises
throttle_peer gt p = elim (lookup p gt.peer_promises) [
  | none ↦ gt
  | some mids ↦ record gt {
    promises = drop_promises p mids gt.promises;
    peer_promises = delete p gt.peer_promises;
  }
]
