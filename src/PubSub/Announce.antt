-- ===== src/PubSub/Announce.antt =====
-- What an announcement of a topic does to the queues of the peers.
use go_libp2p_pubsub.Prelude.{
  ℕ, Bool, true, false, not, ◌&&◌, ◌||◌, List, [], ◌∷◌, ◌++◌, some, Map, map, Bool-cases, ◌⊎◌, inl,
  inr, ◌≡◌, refl, arith, ◌==◌, lookup, insert, has, Option-cases,
}
use go_libp2p_pubsub.Rpc.{Rpc, rpc_with_subs}
use go_libp2p_pubsub.RpcQueue.{RpcQueue, done, err, push, full, len, normal_push}
use go_libp2p_pubsub.Router.Env.{Params, Scores, Router, Env}
use go_libp2p_pubsub.Router.Membership.{join, leave}
use go_libp2p_pubsub.PubSub.{
  PubSub, announcement, announce_all, announce, announce_retry, seen_by_router, start_interest,
  stop_interest,
}

-- No queue of a peer is closed.
abbrev pub all_open : Map (RpcQueue Rpc) → Bool
all_open [] = true
all_open ((pid, q) ∷ rest) = not q.closed && all_open rest

-- Pushing to an open queue without blocking neither panics nor waits, and leaves it open.
push-open :
    (q : RpcQueue Rpc) (out : Rpc)
    → q.closed ≡ false
    → ((q' : RpcQueue Rpc) × (push q out false false ≡ done q') × (q'.closed ≡ false))
      ⊎ (push q out false false ≡ err full)
unfolding push
push-open q out alive = elim (Bool-cases (len q.queue == q.max_size)) [
  | inl at_bound ↦ inr (rw (alive, push) (rw at_bound refl))
  | inr room ↦
      inl (record q { queue = normal_push q.queue out }, rw (alive, push) (rw room refl), alive)
]

announce_all-open :
    (out : Rpc) (peers : Map (RpcQueue Rpc))
    → all_open peers ≡ true
    → (peers' : Map (RpcQueue Rpc)) × (failed : List ℕ) × (announce_all out peers
        ≡ some (peers', failed))
      × (all_open peers' ≡ true)
unfolding announce_all
announce_all-open out [] alive = ([], [], refl, refl)
announce_all-open out ((pid, q) ∷ peers) alive =
    let (rest, failed, eq, kept) = announce_all-open out peers (ground (arith, alive)) in
    elim (push-open q out (ground (arith, alive))) [
      | inl (q', sent, still) ↦ (
        (pid, q') ∷ rest,
        failed,
        rw (eq, announce_all) (rw sent refl),
        ground (arith, still, kept),
      )
      | inr no_room ↦ (
        (pid, q) ∷ rest,
        pid ∷ failed,
        rw (eq, announce_all) (rw no_room refl),
        ground (arith, alive, kept),
      )
    ]

all_open-insert :
    (pid : ℕ) (q : RpcQueue Rpc) (peers : Map (RpcQueue Rpc))
    → all_open peers ≡ true
    → q.closed ≡ false
    → all_open (insert pid q peers) ≡ true
all_open-insert pid q [] alive h = ground (arith, h)
all_open-insert pid q ((i, r) ∷ peers) alive h =
    ground (arith, alive, h, all_open-insert pid q peers)

all_open-lookup :
    (pid : ℕ) (q : RpcQueue Rpc) (peers : Map (RpcQueue Rpc))
    → all_open peers ≡ true
    → lookup pid peers ≡ some q
    → q.closed ≡ false
all_open-lookup pid q [] alive h = absurd (ground (arith, h))
all_open-lookup pid q ((i, r) ∷ peers) alive h = elim (Bool-cases (i == pid)) [
  | inl same ↦ ground (arith, alive, same, h)
  | inr other ↦ all_open-lookup pid q peers (ground (arith, alive)) (ground (arith, other, h))
]

-- An announcement that is tried again changes queues and retries at most.
pub announce_retry_lem :
    (p : PubSub) (pid topic : ℕ) (sub : Bool)
    → all_open p.peers ≡ true
    → (peers : Map (RpcQueue Rpc)) × (retries : List (ℕ × ℕ × Bool)) × (announce_retry p pid topic
          sub
        ≡ some (record p { peers = peers; retries = retries }))
      × (all_open peers ≡ true)
unfolding announce_retry
announce_retry_lem p pid topic sub alive =
    let ok = has topic p.my_subs || has topic p.my_relays in
    let out = rpc_with_subs (announcement p topic sub) in
    elim (Bool-cases ((ok && sub) || (not ok && not sub))) [
      | inr stale ↦ (p.peers, p.retries, rw (stale, announce_retry) refl, alive)
      | inl due ↦ elim (Option-cases (lookup pid p.peers)) [
        | inl miss ↦ (p.peers, p.retries, rw (due, announce_retry) (rw miss refl), alive)
        | inr (q, hit) ↦ elim (push-open q out (all_open-lookup pid q p.peers alive hit)) [
          | inl (q', sent, still) ↦ (
            insert pid q' p.peers,
            p.retries,
            rw (due, announce_retry) (rw hit (rw sent refl)),
            all_open-insert pid q' p.peers alive still,
          )
          | inr no_room ↦ (
            p.peers,
            (pid, topic, sub) ∷ p.retries,
            rw (due, announce_retry) (rw hit (rw no_room refl)),
            alive,
          )
        ]
      ]
    ]

-- The state with other queues, retries and router.
abbrev pub sent_to : PubSub → Map (RpcQueue Rpc) → List (ℕ × ℕ × Bool) → Router → PubSub
sent_to p peers retries rt = record p { peers = peers; retries = retries; rt = rt }

module _ (s : Scores) (params : Params) (env : Env s) where
  pub start_interest_lem :
      (p : PubSub) (topic : ℕ)
      → all_open p.peers ≡ true
      → (peers : Map (RpcQueue Rpc)) × (retries : List (ℕ × ℕ × Bool)) × (start_interest s params
            env p topic
          ≡ some (sent_to p peers retries (join s params (seen_by_router s p env) p.rt topic).1))
        × (all_open peers ≡ true)
  unfolding start_interest announce
  start_interest_lem p topic alive =
      let (peers, failed, eq, kept) =
        announce_all-open (rpc_with_subs (announcement p topic true)) p.peers alive in
      (
        peers,
        map (λ pid. (pid, topic, true)) failed ++ p.retries,
        rw (eq, start_interest, announce) refl,
        kept,
      )

  pub stop_interest_lem :
      (p : PubSub) (topic : ℕ)
      → all_open p.peers ≡ true
      → (peers : Map (RpcQueue Rpc)) × (retries : List (ℕ × ℕ × Bool)) × (stop_interest s params env
            p topic
          ≡ some (sent_to p peers retries (leave s params (seen_by_router s p env) p.rt topic).1))
        × (all_open peers ≡ true)
  unfolding stop_interest announce
  stop_interest_lem p topic alive =
      let (peers, failed, eq, kept) =
        announce_all-open (rpc_with_subs (announcement p topic false)) p.peers alive in
      (
        peers,
        map (λ pid. (pid, topic, false)) failed ++ p.retries,
        rw (eq, stop_interest, announce) refl,
        kept,
      )
