-- ===== src/GossipTracer/Broken.antt =====
-- What `GetBrokenPromises` counts and removes.
use go_libp2p_pubsub.Prelude.{
  ℕ, ◌+◌, ◌≡◌, refl, inl, inr, false, not, ◌&&◌, List, [], ◌∷◌, none, Bool-cases, lookup_or,
  lookup-insert, lookup-delete, delete, keys, has-member, member, count_of, IsDistinct,
  if◌then◌else◌, ◌==◌, arith,
}
use go_libp2p_pubsub.GossipTracer.{
  GossipTracer, BrokenPromises, break_one, is_expired, break_peers, tidy, break_messages,
  get_broken_promises,
}
use go_libp2p_pubsub.GossipTracer.Index.{
  promise, indexed, IsConsistent, lookup_or-put_or_delete, member-drop_index,
}

promise-break_one :
    (mid p : ℕ) (b : BrokenPromises) (j q : ℕ)
    → promise (break_one mid p b).tracer j q
      ≡ (if (mid == j) && (p == q) then none else promise b.tracer j q)
unfolding break_one
promise-break_one mid p b j q = ground (
  arith,
  lookup-insert mid j (delete p (lookup_or [] mid b.tracer.promises)) b.tracer.promises,
  lookup-delete p q (lookup_or [] mid b.tracer.promises),
)

indexed-break_one :
    (mid p : ℕ) (b : BrokenPromises) (j q : ℕ)
    → indexed (break_one mid p b).tracer j q
      ≡ (not ((p == q) && (mid == j)) && indexed b.tracer j q)
unfolding break_one
indexed-break_one mid p b j q = member-drop_index mid p j q b.tracer.peer_promises

break_one-IsConsistent :
    (mid p : ℕ) (b : BrokenPromises)
    → IsConsistent b.tracer
    → IsConsistent (break_one mid p b).tracer
break_one-IsConsistent mid p b c j q =
    ground (arith, c j q, promise-break_one mid p b j q, indexed-break_one mid p b j q)

count-break_one :
    (mid p : ℕ) (b : BrokenPromises) (q : ℕ)
    → lookup_or 0 q (break_one mid p b).res ≡ lookup_or 0 q b.res + (if p == q then 1 else 0)
unfolding break_one
count-break_one mid p b q = ground (arith, lookup-insert p q (lookup_or 0 p b.res + 1) b.res)

break_peers_lem :
    (now mid : ℕ) (ps : List ℕ) (b : BrokenPromises) (j q : ℕ)
    → (promise (break_peers now mid ps b).tracer j q ≡ (
        if (mid == j) && member q ps && is_expired now (promise b.tracer j q)
        then none
        else promise b.tracer j q))
      × (lookup_or 0 q (break_peers now mid ps b).res
          ≡ lookup_or 0 q b.res
            + (if member q ps && is_expired now (promise b.tracer mid q) then 1 else 0))
unfolding break_peers is_expired
break_peers_lem now mid [] b j q = ground arith
break_peers_lem now mid (p ∷ ps) b j q =
    elim (Bool-cases (is_expired now (promise b.tracer mid p))) [
      | inl expired ↦
          let rest = break_peers_lem now mid ps (break_one mid p b) j q in
          rw (expired, break_peers)
            (ground (
              arith,
              rest,
              promise-break_one mid p b j q,
              promise-break_one mid p b mid q,
              count-break_one mid p b q,
            ))
      | inr current ↦ rw (current, break_peers) (ground (arith, break_peers_lem now mid ps b j q))
    ]

break_peers-IsConsistent :
    (now mid : ℕ) (ps : List ℕ) (b : BrokenPromises)
    → IsConsistent b.tracer
    → IsConsistent (break_peers now mid ps b).tracer
unfolding break_peers
break_peers-IsConsistent now mid [] b c = c
break_peers-IsConsistent now mid (p ∷ ps) b c =
    elim (Bool-cases (is_expired now (promise b.tracer mid p))) [
      | inl expired ↦
          rw (expired, break_peers)
            (break_peers-IsConsistent now mid ps (break_one mid p b)
              (break_one-IsConsistent mid p b c))
      | inr current ↦ rw (current, break_peers) (break_peers-IsConsistent now mid ps b c)
    ]

tidy_lem :
    (mid : ℕ) (b : BrokenPromises) (j q : ℕ)
    → (promise (tidy mid b).tracer j q ≡ promise b.tracer j q)
      × (indexed (tidy mid b).tracer j q ≡ indexed b.tracer j q)
      × (lookup_or 0 q (tidy mid b).res ≡ lookup_or 0 q b.res)
unfolding tidy
tidy_lem mid b j q =
    ground
      (arith, lookup_or-put_or_delete mid j (lookup_or [] mid b.tracer.promises) b.tracer.promises)

-- One message: the promises of it that have run out go, and each is counted.
message_lem :
    (now mid : ℕ) (b : BrokenPromises) (j q : ℕ)
    → let b' = tidy mid (break_peers now mid (keys (lookup_or [] mid b.tracer.promises)) b) in
      (promise b'.tracer j q ≡ (
        if (mid == j) && is_expired now (promise b.tracer j q) then none else promise b.tracer j q))
      × (lookup_or 0 q b'.res
          ≡ lookup_or 0 q b.res + (if is_expired now (promise b.tracer mid q) then 1 else 0))
unfolding is_expired
message_lem now mid b j q =
    let ps = keys (lookup_or [] mid b.tracer.promises) in
    ground (
      arith,
      tidy_lem mid (break_peers now mid ps b) j q,
      break_peers_lem now mid ps b j q,
      has-member q (lookup_or [] mid b.tracer.promises),
    )

message-IsConsistent :
    (now mid : ℕ) (b : BrokenPromises)
    → IsConsistent b.tracer
    → IsConsistent
        (tidy mid (break_peers now mid (keys (lookup_or [] mid b.tracer.promises)) b)).tracer
message-IsConsistent now mid b c j q =
    let ps = keys (lookup_or [] mid b.tracer.promises) in
    ground (
      arith,
      tidy_lem mid (break_peers now mid ps b) j q,
      break_peers-IsConsistent now mid ps b c j q,
    )

break_messages-IsConsistent :
    (now : ℕ) (mids : List ℕ) (b : BrokenPromises)
    → IsConsistent b.tracer
    → IsConsistent (break_messages now mids b).tracer
unfolding break_messages
break_messages-IsConsistent now [] b c = c
break_messages-IsConsistent now (mid ∷ mids) b c =
    break_messages-IsConsistent now mids _ (message-IsConsistent now mid b c)

-- How many messages of a list a peer has promised for a time that is past.
abbrev pub broken_count : ℕ → ℕ → GossipTracer → List ℕ → ℕ
broken_count now q gt = count_of (λ mid. is_expired now (promise gt mid q))

broken_count-message :
    (now mid : ℕ) (b : BrokenPromises) (q : ℕ) (mids : List ℕ)
    → member mid mids ≡ false
    → let b' = tidy mid (break_peers now mid (keys (lookup_or [] mid b.tracer.promises)) b) in
      broken_count now q b'.tracer mids ≡ broken_count now q b.tracer mids
broken_count-message now mid b q [] h = refl
broken_count-message now mid b q (j ∷ mids) h =
    ground (arith, message_lem now mid b j q, broken_count-message now mid b q mids)

break_messages_lem :
    (now : ℕ) (mids : List ℕ) (b : BrokenPromises) (j q : ℕ)
    → IsDistinct mids
    → (promise (break_messages now mids b).tracer j q ≡ (
        if member j mids && is_expired now (promise b.tracer j q)
        then none
        else promise b.tracer j q))
      × (lookup_or 0 q (break_messages now mids b).res
          ≡ lookup_or 0 q b.res + broken_count now q b.tracer mids)
unfolding break_messages is_expired
break_messages_lem now [] b j q d = ground arith
break_messages_lem now (mid ∷ mids) b j q d = ground (
  arith,
  message_lem now mid b j q,
  break_messages_lem now mids
      (tidy mid (break_peers now mid (keys (lookup_or [] mid b.tracer.promises)) b)) j q,
  broken_count-message now mid b q mids,
)

pub get_broken_promises-IsConsistent :
    (now : ℕ) (gt : GossipTracer)
    → IsConsistent gt
    → IsConsistent (get_broken_promises now gt).tracer
unfolding get_broken_promises
get_broken_promises-IsConsistent now gt c = break_messages-IsConsistent now (keys gt.promises) _ c

-- `GetBrokenPromises` removes exactly the promises whose time is past, of every message and every
-- peer, and reports for each peer how many of them it had made; `promises` being a map, its keys
-- are distinct.
pub get_broken_promises_lem :
    (now : ℕ) (gt : GossipTracer) (mid q : ℕ)
    → IsDistinct (keys gt.promises)
    → let b = get_broken_promises now gt in
      (promise b.tracer mid q
        ≡ (if is_expired now (promise gt mid q) then none else promise gt mid q))
      × (lookup_or 0 q b.res ≡ broken_count now q gt (keys gt.promises))
unfolding get_broken_promises is_expired
get_broken_promises_lem now gt mid q d = ground (
  arith,
  break_messages_lem now (keys gt.promises) (record { tracer = gt; res = [] }) mid q d,
  has-member mid gt.promises,
)
