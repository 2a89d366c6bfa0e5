-- ===== src/RpcQueue.antt =====
-- rpc_queue.go: the outgoing queue of a peer, a two-level FIFO with a bound.
-- One call under the mutex is one function; what a parked call does when it is woken is the
-- same function again (`push` and `pop` test `closed` and then their loop's condition first).
pub mod Fifo
pub mod Blocking
pub mod Tests
use go_libp2p_pubsub.Prelude.{
  ℕ, ◌+◌, Bool, true, false, List, [], ◌∷◌, ◌++◌, Option, none, some, length, ◌==◌, if◌then◌else◌,
}

-- The head of each list is the front of the slice.
pub record PriorityQueue (A : Type 0) : Type 0 where
  pub normal : List A
  pub priority : List A

pub record RpcQueue (A : Type 0) : Type 0 where
  pub queue : PriorityQueue A
  pub closed : Bool
  pub max_size : ℕ

pub data Error : Type 0 where
  cancelled closed_queue full : Error

-- What a call under the mutex comes to: a result with the new queue, an error, the panic
-- `ErrQueuePushOnClosed`, or a wait on the condition variable.
pub data Outcome (A : Type 0) : Type 0 where
  done : A → Outcome A
  err : Error → Outcome A
  panic : Outcome A
  wait : Outcome A

module _ {A : Type 0} where
  unfoldable pub len : PriorityQueue A → ℕ
  len q = length q.normal + length q.priority

  unfoldable pub normal_push : PriorityQueue A → A → PriorityQueue A
  normal_push q rpc = record q { normal = q.normal ++ rpc ∷ [] }

  unfoldable pub priority_push : PriorityQueue A → A → PriorityQueue A
  priority_push q rpc = record q { priority = q.priority ++ rpc ∷ [] }

  pop_normal : List A → Option (A × PriorityQueue A)
  pop_normal [] = none
  pop_normal (rpc ∷ rest) = some (rpc, record { normal = rest; priority = [] })

  pop_priority : List A → List A → Option (A × PriorityQueue A)
  unfolding pop_normal
  pop_priority ns [] = pop_normal ns
  pop_priority ns (rpc ∷ rest) = some (rpc, record { normal = ns; priority = rest })

  -- `none` is the nil pointer that an empty queue gives.
  unfoldable pub pop_rpc : PriorityQueue A → Option (A × PriorityQueue A)
  unfolding pop_priority
  pop_rpc q = pop_priority q.normal q.priority

  unfoldable pub new_rpc_queue : ℕ → RpcQueue A
  new_rpc_queue max_size = record {
    queue = record { normal = []; priority = [] };
    closed = false;
    max_size = max_size;
  }

  -- `push(rpc, urgent, block)`: `Push` has `urgent` false, `UrgentPush` has it true.
  unfoldable pub push : RpcQueue A → A → Bool → Bool → Outcome (RpcQueue A)
  unfolding len normal_push priority_push
  push q rpc urgent block =
      if q.closed
      then panic
      else if len q.queue == q.max_size
      then (if block then wait else err full)
      else if urgent
      then done (record q { queue = priority_push q.queue rpc })
      else done (record q { queue = normal_push q.queue rpc })

  take_rpc : RpcQueue A → Option (A × PriorityQueue A) → Outcome (Option A × RpcQueue A)
  take_rpc q none = done (none, q)
  take_rpc q (some (rpc, rest)) = done (some rpc, record q { queue = rest })

  -- `Pop(ctx)`, where `cancel` says whether `ctx` is done.
  unfoldable pub pop : RpcQueue A → Bool → Outcome (Option A × RpcQueue A)
  unfolding len pop_rpc take_rpc
  pop q cancel =
      if q.closed
      then err closed_queue
      else if len q.queue == 0
      then (if cancel then err cancelled else wait)
      else take_rpc q (pop_rpc q.queue)

  unfoldable pub close : RpcQueue A → RpcQueue A
  close q = record q { closed = true }
