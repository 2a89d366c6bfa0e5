-- ===== src/PubSub/Interest/Steps.antt =====
-- Each handler of an event keeps the state consistent, and does not panic.
use go_libp2p_pubsub.Prelude.{
  ℕ, ◌+◌, ◌-◌, ◌≡◌, refl, Bool, true, false, not, ◌&&◌, List, [], ◌∷◌, Option, some, lookup,
  lookup_or, insert, delete, has, length, add, remove, lookup-insert, lookup-delete, Bool-cases,
  Option-cases, inl, inr, arith, ◌==◌,
}
use go_libp2p_pubsub.Router.Env.{Params, Scores, Env}
use go_libp2p_pubsub.Router.Membership.{join, leave}
use go_libp2p_pubsub.Router.Membership.Meshes.{has-join, has-leave}
use go_libp2p_pubsub.PubSub.{
  PubSub, Topic, is_fanout_only, handle_add_topic, handle_remove_topic, handle_add_subscription,
  handle_remove_subscription, handle_add_relay, handle_remove_relay, announce_retry, seen_by_router,
}
use go_libp2p_pubsub.PubSub.Announce.{
  sent_to, start_interest_lem, stop_interest_lem, announce_retry_lem,
}
use go_libp2p_pubsub.PubSub.Interest.{IsKept, IsConsistent}

-- A result that is there and consistent.
abbrev pub Succeeds : Option PubSub → Type 0
Succeeds r = (p : PubSub) × (r ≡ some p) × IsConsistent p

length-add-pos : (k : ℕ) (xs : List ℕ) → (length (add k xs) == 0) ≡ false
length-add-pos k [] = ground arith
length-add-pos k (x ∷ xs) = ground arith

module _ (s : Scores) (params : Params) (env : Env s) where
  pub add_subscription :
      (p : PubSub) (topic sub : ℕ)
      → IsConsistent p
      → has topic p.my_topics ≡ true
      → Succeeds (handle_add_subscription s params env p topic sub)
  unfolding handle_add_subscription IsConsistent IsKept
  add_subscription p topic sub (alive, kept) known =
      let subs = lookup_or [] topic p.my_subs in
      let (peers, retries, eq, still) = start_interest_lem s params env p topic alive in
      let rt = (join s params (seen_by_router s p env) p.rt topic).1 in
      let with_sub = insert topic (add sub subs) p.my_subs in
      elim (Bool-cases (
        (length subs == 0 && lookup_or 0 topic p.my_relays == 0) && not (is_fanout_only p topic))) [
          | inl first ↦ (
            record (sent_to p peers retries rt) { my_subs = with_sub },
            rw (first, handle_add_subscription) (rw eq refl),
            (
              still,
              λ t. ground (
                arith,
                kept t,
                kept topic,
                known,
                has-join s params (seen_by_router s p env) p.rt topic t,
                lookup-insert topic t (add sub subs) p.my_subs,
                length-add-pos sub subs,
              ),
            ),
          )
          | inr more ↦ (
            record p { my_subs = with_sub },
            rw (more, handle_add_subscription) refl,
            (
              alive,
              λ t. ground (
                arith,
                kept t,
                kept topic,
                more,
                known,
                lookup-insert topic t (add sub subs) p.my_subs,
                length-add-pos sub subs,
              ),
            ),
          )
        ]

  pub remove_subscription :
      (p : PubSub) (topic sub : ℕ)
      → IsConsistent p
      → Succeeds (handle_remove_subscription s params env p topic sub)
  unfolding handle_remove_subscription IsConsistent IsKept
  remove_subscription p topic sub (alive, kept) = elim (Option-cases (lookup topic p.my_subs)) [
    | inl miss ↦ (p, rw (miss, handle_remove_subscription) refl, (alive, kept))
    | inr (subs, hit) ↦
        let gone = record p { my_subs = delete topic p.my_subs } in
        let left = remove sub subs in
        let (peers, retries, eq, still) = stop_interest_lem s params env gone topic alive in
        let rt = (leave s params (seen_by_router s gone env) p.rt topic).1 in
        elim (Bool-cases (length left == 0)) [
          | inl empty ↦
              elim (Bool-cases
                (lookup_or 0 topic p.my_relays == 0 && not (is_fanout_only p topic))) [
                  | inl last ↦ (
                    sent_to gone peers retries rt,
                    rw (hit, handle_remove_subscription) (rw empty (rw last eq)),
                    (
                      still,
                      λ t. ground (
                        arith,
                        kept t,
                        kept topic,
                        hit,
                        last,
                        has-leave s params (seen_by_router s gone env) p.rt topic t,
                        lookup-delete topic t p.my_subs,
                      ),
                    ),
                  )
                  | inr more ↦ (
                    gone,
                    rw (hit, handle_remove_subscription) (rw empty (rw more refl)),
                    (
                      alive,
                      λ t.
                          ground
                            (arith, kept t, kept topic, hit, more, lookup-delete topic t p.my_subs),
                    ),
                  )
                ]
          | inr some_left ↦ (
            record p { my_subs = insert topic left p.my_subs },
            rw (hit, handle_remove_subscription) (rw some_left refl),
            (
              alive,
              λ t.
                  ground (
                    arith,
                    kept t,
                    kept topic,
                    hit,
                    some_left,
                    lookup-insert topic t left p.my_subs,
                  ),
            ),
          )
        ]
  ]

  pub add_relay :
      (p : PubSub) (topic : ℕ)
      → IsConsistent p
      → has topic p.my_topics && not (is_fanout_only p topic) ≡ true
      → Succeeds (handle_add_relay s params env p topic)
  unfolding handle_add_relay IsConsistent IsKept
  add_relay p topic (alive, kept) known =
      let relays = lookup_or 0 topic p.my_relays + 1 in
      let p1 = record p { my_relays = insert topic relays p.my_relays } in
      let (peers, retries, eq, still) = start_interest_lem s params env p1 topic alive in
      let rt = (join s params (seen_by_router s p1 env) p.rt topic).1 in
      let inserted = λ (t : ℕ). lookup-insert topic t relays p.my_relays in
      elim (Bool-cases (relays == 1 && length (lookup_or [] topic p.my_subs) == 0)) [
        | inl first ↦ (
          sent_to p1 peers retries rt,
          rw (first, handle_add_relay) eq,
          (
            still,
            λ t. ground (
              arith,
              kept t,
              kept topic,
              known,
              has-join s params (seen_by_router s p1 env) p.rt topic t,
              inserted t,
            ),
          ),
        )
        | inr more ↦ (
          p1,
          rw (more, handle_add_relay) refl,
          (alive, λ t. ground (arith, kept t, kept topic, known, more, inserted t)),
        )
      ]

  pub remove_relay :
      (p : PubSub) (topic : ℕ)
      → IsConsistent p
      → Succeeds (handle_remove_relay s params env p topic)
  unfolding handle_remove_relay IsConsistent IsKept
  remove_relay p topic (alive, kept) =
      let relays = lookup_or 0 topic p.my_relays - 1 in
      let gone = record p { my_relays = delete topic p.my_relays } in
      let (peers, retries, eq, still) = stop_interest_lem s params env gone topic alive in
      let rt = (leave s params (seen_by_router s gone env) p.rt topic).1 in
      elim (Bool-cases (lookup_or 0 topic p.my_relays == 0)) [
        | inl nothing ↦ (p, rw (nothing, handle_remove_relay) refl, (alive, kept))
        | inr some_relays ↦ elim (Bool-cases (relays == 0)) [
          | inl empty ↦ elim (Bool-cases (length (lookup_or [] topic p.my_subs) == 0)) [
            | inl last ↦ (
              sent_to gone peers retries rt,
              rw (some_relays, handle_remove_relay) (rw empty (rw last eq)),
              (
                still,
                λ t. ground (
                  arith,
                  kept t,
                  kept topic,
                  last,
                  has-leave s params (seen_by_router s gone env) p.rt topic t,
                  lookup-delete topic t p.my_relays,
                ),
              ),
            )
            | inr more ↦ (
              gone,
              rw (some_relays, handle_remove_relay) (rw empty (rw more refl)),
              (
                alive,
                λ t. ground (arith, kept t, kept topic, more, lookup-delete topic t p.my_relays),
              ),
            )
          ]
          | inr left ↦ (
            record p { my_relays = insert topic relays p.my_relays },
            rw (some_relays, handle_remove_relay) (rw left refl),
            (
              alive,
              λ t. ground (
                arith,
                kept t,
                kept topic,
                left,
                some_relays,
                lookup-insert topic t relays p.my_relays,
              ),
            ),
          )
        ]
      ]

pub add_topic :
    (p : PubSub) (topic : ℕ) (t : Topic)
    → IsConsistent p
    → IsConsistent (handle_add_topic p topic t).1
unfolding handle_add_topic IsConsistent IsKept
add_topic p topic t (alive, kept) = elim (Option-cases (lookup topic p.my_topics)) [
  | inl miss ↦
      rw (miss, handle_add_topic)
        (alive, λ u. ground (arith, kept u, kept topic, miss, lookup-insert topic u t p.my_topics))
  | inr (old, hit) ↦ rw (hit, handle_add_topic) (alive, kept)
]

pub remove_topic :
    (p : PubSub) (topic : ℕ) → IsConsistent p → IsConsistent (handle_remove_topic p topic).1
unfolding handle_remove_topic IsConsistent IsKept
remove_topic p topic (alive, kept) = elim (Option-cases (lookup topic p.my_topics)) [
  | inl miss ↦ rw (miss, handle_remove_topic) (alive, kept)
  | inr (t, hit) ↦
      elim (Bool-cases (
        t.evt_handlers == 0
        && length (lookup_or [] topic p.my_subs) == 0
        && lookup_or 0 topic p.my_relays == 0)) [
          | inl unused ↦
              rw (hit, handle_remove_topic)
                (rw unused (
                  alive,
                  λ u.
                      ground (arith, kept u, kept topic, unused, lookup-delete topic u p.my_topics),
                ))
          | inr used ↦ rw (hit, handle_remove_topic) (rw used (alive, kept))
        ]
]

pub retry_announcement :
    (p : PubSub) (pid topic : ℕ) (sub : Bool)
    → IsConsistent p
    → Succeeds (announce_retry p pid topic sub)
unfolding IsConsistent IsKept
retry_announcement p pid topic sub (alive, kept) =
    let (peers, retries, eq, still) = announce_retry_lem p pid topic sub alive in
    (record p { peers = peers; retries = retries }, eq, (still, kept))
