-- ===== src/RpcQueue/Fifo.antt =====
-- The queue against its specification: urgent messages first, each class in order, never more
-- than `max_size` of them.
use mathlib.Core.List.{append_assoc}
use go_libp2p_pubsub.Prelude.{
  ℕ, ◌+◌, ◌≤◌, ◌<◌, ◌≡◌, refl, sym, inl, inr, ◌⊎◌, Bool, true, false, List, [], ◌∷◌, ◌++◌, some,
  length, length-append, if◌then◌else◌, Bool-cases, ◌==◌, arith,
}
use go_libp2p_pubsub.RpcQueue.{
  RpcQueue, normal_push, priority_push, done, err, panic, wait, full, cancelled, closed_queue, len,
  push, pop,
}

module _ {A : Type 0} where
  -- What is queued, in the order in which `pop` returns it.
  abbrev pub contents : RpcQueue A → List A
  contents q = q.queue.priority ++ q.queue.normal

  -- The specification of a push that goes through.
  abbrev pub pushed : RpcQueue A → A → Bool → List A
  pushed q rpc urgent =
      if urgent then q.queue.priority ++ (rpc ∷ q.queue.normal) else contents q ++ (rpc ∷ [])

  abbrev pub IsBounded : RpcQueue A → Type 0
  IsBounded q = len q.queue ≤ q.max_size

  len-contents : (q : RpcQueue A) → len q.queue ≡ length (contents q)
  unfolding len
  len-contents q = omega (arith, length-append q.queue.priority q.queue.normal)

  enqueued : RpcQueue A → A → Bool → RpcQueue A
  enqueued q rpc true = record q { queue = priority_push q.queue rpc }
  enqueued q rpc false = record q { queue = normal_push q.queue rpc }

  enqueued-contents :
      (q : RpcQueue A) (rpc : A) (urgent : Bool)
      → contents (enqueued q rpc urgent) ≡ pushed q rpc urgent
  unfolding enqueued priority_push normal_push
  enqueued-contents q rpc true = append_assoc q.queue.priority (rpc ∷ []) q.queue.normal
  enqueued-contents q rpc false = sym (append_assoc q.queue.priority q.queue.normal (rpc ∷ []))

  len-enqueued :
      (q : RpcQueue A) (rpc : A) (urgent : Bool)
      → len (enqueued q rpc urgent).queue ≡ len q.queue + 1
  unfolding enqueued len priority_push normal_push
  len-enqueued q rpc true = omega (arith, length-append q.queue.priority (rpc ∷ []))
  len-enqueued q rpc false = omega (arith, length-append q.queue.normal (rpc ∷ []))

  -- The three ways a push can end.
  abbrev pub Pushes : RpcQueue A → A → Bool → Bool → Type 0
  Pushes q rpc urgent block =
      ((q.closed ≡ true) × (push q rpc urgent block ≡ panic))
      ⊎ ((q.closed ≡ false)
          × (length (contents q) ≡ q.max_size)
          × (push q rpc urgent block ≡ (if block then wait else err full)))
      ⊎ ((q.closed ≡ false)
          × (length (contents q) < q.max_size)
          × ((q' : RpcQueue A) × (push q rpc urgent block ≡ done q')
              × (contents q' ≡ pushed q rpc urgent)
              × (len q'.queue ≡ len q.queue + 1)
              × (q'.max_size ≡ q.max_size)
              × IsBounded q'))

  -- A push to a bounded queue panics exactly if the queue is closed, waits or fails exactly if it
  -- holds `max_size` messages, and otherwise puts the message behind all urgent ones if it is
  -- urgent and behind everything if it is not; the bound still holds.
  pub push_lem :
      (q : RpcQueue A) (rpc : A) (urgent block : Bool) → IsBounded q → Pushes q rpc urgent block
  unfolding push enqueued
  push_lem q rpc urgent block b = elim (Bool-cases q.closed) [
    | inl shut ↦ inl (shut, ground arith)
    | inr open_ ↦ elim (Bool-cases (len q.queue == q.max_size)) [
      | inl at_bound ↦ inr (inl (open_, ground (arith, len-contents q), ground arith))
      | inr below ↦ inr (
          inr (
            open_,
            ground (arith, len-contents q),
            (
              enqueued q rpc urgent,
              ground arith,
              enqueued-contents q rpc urgent,
              len-enqueued q rpc urgent,
              ground arith,
              ground (arith, len-enqueued q rpc urgent),
            ),
          ))
    ]
  ]

  -- The ways a pop can end.
  abbrev pub Pops : RpcQueue A → Bool → Type 0
  Pops q cancel =
      ((q.closed ≡ true) × (pop q cancel ≡ err closed_queue))
      ⊎ ((q.closed ≡ false)
          × (contents q ≡ [])
          × (pop q cancel ≡ (if cancel then err cancelled else wait)))
      ⊎ ((q.closed ≡ false)
          × ((rpc : A) × (q' : RpcQueue A) × (pop q cancel ≡ done (some rpc, q'))
              × (contents q ≡ rpc ∷ contents q')
              × (q'.closed ≡ false)
              × (q'.max_size ≡ q.max_size)))

  abbrev rest : ℕ → List A → List A → RpcQueue A
  rest m ns ps = record {
    queue = record { normal = ns; priority = ps };
    closed = false;
    max_size = m;
  }

  Pops-parts :
      (c : Bool) (m : ℕ) (ns ps : List A) (cancel : Bool)
      → Pops
          (record { queue = record { normal = ns; priority = ps }; closed = c; max_size = m })
          cancel
  unfolding pop
  Pops-parts true m ns ps cancel = inl (refl, refl)
  Pops-parts false m ns (p ∷ ps) cancel =
      inr (inr (refl, (p, rest m ns ps, ground arith, refl, refl, refl)))
  Pops-parts false m (n ∷ ns) [] cancel =
      inr (inr (refl, (n, rest m ns [], ground arith, refl, refl, refl)))
  Pops-parts false m [] [] cancel = inr (inl (refl, refl, refl))

  -- A pop of a closed queue fails; of an empty one it waits, or fails if its context is done; and
  -- of any other it takes the first urgent message, or the first one if none is urgent, also if
  -- its context is done. It never returns the nil pointer.
  pub pop_lem : (q : RpcQueue A) (cancel : Bool) → Pops q cancel
  pop_lem q cancel = Pops-parts q.closed q.max_size q.queue.normal q.queue.priority cancel
