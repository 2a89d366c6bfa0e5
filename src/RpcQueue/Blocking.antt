-- ===== src/RpcQueue/Blocking.antt =====
-- Blocked pushers and poppers: the condition variables `dataAvailable` and `spaceAvailable`.
-- A goroutine that waits is parked on one of them; `Signal` wakes one parked goroutine and
-- `Broadcast` all; a woken one runs on when it gets the mutex. Goroutines are counted, not named.
use go_libp2p_pubsub.Prelude.{ℕ, ◌+◌, ◌-◌, ◌≤◌, ◌<◌, ◌≡◌, ◌⊎◌, Bool, true, if◌then◌else◌, ◌==◌}
use go_libp2p_pubsub.RpcQueue.{RpcQueue, done, wait, len, push, pop, close, new_rpc_queue}

pub record System (A : Type 0) : Type 0 where
  pub q : RpcQueue A
  -- On `dataAvailable`: goroutines in `Pop`.
  pub parked_poppers : ℕ
  pub woken_poppers : ℕ
  -- On `spaceAvailable`: goroutines in a blocking push.
  pub parked_pushers : ℕ
  pub woken_pushers : ℕ

module _ {A : Type 0} where
  -- `dataAvailable.Signal()` and `Broadcast()`; a signal with nobody parked is lost.
  unfoldable pub signal_data : System A → System A
  signal_data s =
      if s.parked_poppers == 0
      then s
      else record s { parked_poppers = s.parked_poppers - 1; woken_poppers = s.woken_poppers + 1 }

  unfoldable pub signal_space : System A → System A
  signal_space s =
      if s.parked_pushers == 0
      then s
      else record s { parked_pushers = s.parked_pushers - 1; woken_pushers = s.woken_pushers + 1 }

  unfoldable pub broadcast_data : System A → System A
  broadcast_data s = record s {
    parked_poppers = 0;
    woken_poppers = s.woken_poppers + s.parked_poppers;
  }

  unfoldable pub broadcast_space : System A → System A
  broadcast_space s = record s {
    parked_pushers = 0;
    woken_pushers = s.woken_pushers + s.parked_pushers;
  }

  -- What a goroutine in `push` does once it holds the mutex, with the wake-up that a push sends.
  unfoldable pub run_push : A → Bool → Bool → System A → System A
  unfolding signal_data
  run_push rpc urgent block s = elim (push s.q rpc urgent block) [
    | done q' ↦ signal_data (record s { q = q' })
    | wait ↦ record s { parked_pushers = s.parked_pushers + 1 }
    | _ ↦ s
  ]

  -- The same for `Pop`.
  unfoldable pub run_pop : Bool → System A → System A
  unfolding signal_space
  run_pop cancel s = elim (pop s.q cancel) [
    | done (rpc, q') ↦ signal_space (record s { q = q' })
    | wait ↦ record s { parked_poppers = s.parked_poppers + 1 }
    | _ ↦ s
  ]

  unfoldable pub run_close : System A → System A
  unfolding broadcast_data broadcast_space close
  run_close s = broadcast_space (broadcast_data (record s { q = close s.q }))

  -- One turn of the mutex: a new call, a goroutine that was woken, `Close`, or the broadcast that a
  -- context sends when it is done.
  pub data Step : System A → System A → Type 0 where
    call_push :
        (s : System A) (rpc : A) (urgent block : Bool) → Step s (run_push rpc urgent block s)
    call_pop : (s : System A) (cancel : Bool) → Step s (run_pop cancel s)
    resume_push :
        (s : System A) (rpc : A) (urgent : Bool)
        → 0 < s.woken_pushers
        → Step s (run_push rpc urgent true (record s { woken_pushers = s.woken_pushers - 1 }))
    resume_pop :
        (s : System A) (cancel : Bool)
        → 0 < s.woken_poppers
        → Step s (run_pop cancel (record s { woken_poppers = s.woken_poppers - 1 }))
    call_close : (s : System A) → Step s (run_close s)
    context_done : (s : System A) → Step s (broadcast_data s)

  pub data Reach (s : System A) : System A → Type 0 where
    here : Reach s s
    next : {t u : System A} → Reach s t → Step t u → Reach s u

  unfoldable pub start : ℕ → System A
  unfolding new_rpc_queue
  start max_size = record {
    q = new_rpc_queue max_size;
    parked_poppers = 0;
    woken_poppers = 0;
    parked_pushers = 0;
    woken_pushers = 0;
  }

  -- Wake-ups on their way are enough for what they were sent for.
  pub record Inv (s : System A) : Type 0 where
    pub bounded : len s.q.queue ≤ s.q.max_size
    pub data_covered : (s.parked_poppers ≡ 0) ⊎ (len s.q.queue ≤ s.woken_poppers)
    pub space_covered : (s.parked_pushers ≡ 0) ⊎ (s.q.max_size ≤ len s.q.queue + s.woken_pushers)
    pub closed_empty : s.q.closed ≡ true → (s.parked_poppers ≡ 0) × (s.parked_pushers ≡ 0)
