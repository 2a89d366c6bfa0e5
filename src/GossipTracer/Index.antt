-- ===== src/GossipTracer/Index.antt =====
-- The index by peer holds the same promises as the map by message, after every operation.
use go_libp2p_pubsub.Prelude.{
  ℕ, ◌+◌, ◌≡◌, inl, inr, Bool, not, ◌&&◌, List, [], ◌∷◌, Option, none, Option-cases, Map, lookup,
  lookup_or, lookup-insert, lookup-delete, insert, delete, is_some, keys, has-member, member,
  member-add, member-remove, remove, add, if◌then◌else◌, ◌==◌, arith,
}
use go_libp2p_pubsub.GossipTracer.{
  GossipTracer, put_or_delete, drop_index, drop_promise, add_one_promise, drop_indices,
  fulfill_promise, drop_promises, throttle_peer,
}

-- When a peer's promise of a message runs out.
abbrev pub promise : GossipTracer → ℕ → ℕ → Option ℕ
promise gt mid p = lookup p (lookup_or [] mid gt.promises)

abbrev pub indexed : GossipTracer → ℕ → ℕ → Bool
indexed gt mid p = member mid (lookup_or [] p gt.peer_promises)

abbrev pub IsConsistent : GossipTracer → Type 0
IsConsistent gt = (mid p : ℕ) → is_some (promise gt mid p) ≡ indexed gt mid p

-- An entry that is deleted when it is empty reads as an empty one.
pub lookup_or-put_or_delete {ℓ} :
    {A : Type ℓ} (k j : ℕ) (xs : List A) (m : Map (List A))
    → lookup_or [] j (put_or_delete k xs m) ≡ (if k == j then xs else lookup_or [] j m)
lookup_or-put_or_delete k j [] m = ground (arith, lookup-delete k j m)
lookup_or-put_or_delete k j (x ∷ xs) m = ground (arith, lookup-insert k j (x ∷ xs) m)

pub member-drop_index :
    (mid p j q : ℕ) (index : Map (List ℕ))
    → member j (lookup_or [] q (drop_index mid p index))
      ≡ (not ((p == q) && (mid == j)) && member j (lookup_or [] q index))
unfolding drop_index
member-drop_index mid p j q index = ground (
  arith,
  lookup_or-put_or_delete p q (remove mid (lookup_or [] p index)) index,
  member-remove mid j (lookup_or [] p index),
)

pub lookup-drop_promise :
    (p mid j q : ℕ) (promises : Map (Map ℕ))
    → lookup q (lookup_or [] j (drop_promise p mid promises))
      ≡ (if (mid == j) && (p == q) then none else lookup q (lookup_or [] j promises))
unfolding drop_promise
lookup-drop_promise p mid j q promises = ground (
  arith,
  lookup_or-put_or_delete mid j (delete p (lookup_or [] mid promises)) promises,
  lookup-delete p q (lookup_or [] mid promises),
)

pub add_one_promise-IsConsistent :
    (now p mid : ℕ) (gt : GossipTracer)
    → IsConsistent gt
    → IsConsistent (add_one_promise now p mid gt)
unfolding add_one_promise
add_one_promise-IsConsistent now p mid gt c j q = ground (
  arith,
  c j q,
  c mid p,
  lookup-insert mid j (lookup_or [] mid gt.promises) gt.promises,
  lookup-insert mid j (insert p (now + gt.follow_up_time) (lookup_or [] mid gt.promises))
      gt.promises,
  lookup-insert p q (now + gt.follow_up_time) (lookup_or [] mid gt.promises),
  lookup-insert p q (add mid (lookup_or [] p gt.peer_promises)) gt.peer_promises,
  member-add mid j (lookup_or [] p gt.peer_promises),
)

member-drop_indices :
    (mid : ℕ) (ps : List ℕ) (j q : ℕ) (index : Map (List ℕ))
    → member j (lookup_or [] q (drop_indices mid ps index))
      ≡ (not (member q ps && (mid == j)) && member j (lookup_or [] q index))
unfolding drop_indices
member-drop_indices mid [] j q index = ground arith
member-drop_indices mid (p ∷ ps) j q index = ground (
  arith,
  member-drop_indices mid ps j q (drop_index mid p index),
  member-drop_index mid p j q index,
)

pub fulfill_promise-IsConsistent :
    (gt : GossipTracer) (mid : ℕ) → IsConsistent gt → IsConsistent (fulfill_promise gt mid)
unfolding fulfill_promise
fulfill_promise-IsConsistent gt mid c j q = elim (Option-cases (lookup mid gt.promises)) [
  | inl miss ↦ rw (miss, fulfill_promise) (c j q)
  | inr (inner, hit) ↦ ground (
    arith,
    c j q,
    lookup-delete mid j gt.promises,
    member-drop_indices mid (keys inner) j q gt.peer_promises,
    has-member q inner,
  )
]

pub lookup-drop_promises :
    (p : ℕ) (mids : List ℕ) (j q : ℕ) (promises : Map (Map ℕ))
    → lookup q (lookup_or [] j (drop_promises p mids promises))
      ≡ (if member j mids && (p == q) then none else lookup q (lookup_or [] j promises))
unfolding drop_promises
lookup-drop_promises p [] j q promises = ground arith
lookup-drop_promises p (mid ∷ mids) j q promises = ground (
  arith,
  lookup-drop_promises p mids j q (drop_promise p mid promises),
  lookup-drop_promise p mid j q promises,
)

pub throttle_peer-IsConsistent :
    (gt : GossipTracer) (p : ℕ) → IsConsistent gt → IsConsistent (throttle_peer gt p)
unfolding throttle_peer
throttle_peer-IsConsistent gt p c j q = elim (Option-cases (lookup p gt.peer_promises)) [
  | inl miss ↦ rw (miss, throttle_peer) (c j q)
  | inr (mids, hit) ↦ ground (
    arith,
    c j q,
    lookup-delete p q gt.peer_promises,
    lookup-drop_promises p mids j q gt.promises,
  )
]
