-- ===== src/Router/IWant/Limits.antt =====
-- What is sent in answer to an IWANT, and how often.
use go_libp2p_pubsub.Prelude.{
  ℕ, ◌+◌, ◌≤◌, ◌<◌, ◌≡◌, refl, inl, inr, ◌⊎◌, subst, ◌-◌, true, false, not, ◌&&◌, List, [], ◌∷◌,
  some, Option-cases, Bool-cases, Map, has, is_some, lookup, lookup_or, lookup-insert, insert, ltb,
  if◌then◌else◌, ◌==◌, arith,
}
use go_libp2p_pubsub.Message.{Message}
use go_libp2p_pubsub.MessageCache.{MessageCache, get_for_peer}
use go_libp2p_pubsub.Router.Env.{Params, Scores, ControlMessage, Router, Env}
use go_libp2p_pubsub.Router.IWant.{serve_mid, serve_mids, serve_iwants, handle_iwant}

-- How often a peer has been given a message since it was cached.
abbrev pub times : Router → ℕ → ℕ → ℕ
times gs mid p = lookup_or 0 p (lookup_or [] mid gs.mcache.peertx)

times-get_for_peer :
    (mc : MessageCache Message) (mid p j q : ℕ)
    → let (found, mc') = get_for_peer mc mid p in
      (lookup_or 0 q (lookup_or [] j mc'.peertx)
        ≡ lookup_or 0 q (lookup_or [] j mc.peertx)
          + (if is_some found && (mid == j) && (p == q) then 1 else 0))
      × (mc'.msgs ≡ mc.msgs)
unfolding get_for_peer
times-get_for_peer mc mid p j q =
    let tx = lookup_or [] mid mc.peertx in
    ground (
      arith,
      lookup-insert mid j (insert p (lookup_or 0 p tx + 1) tx) mc.peertx,
      lookup-insert p q (lookup_or 0 p tx + 1) tx,
    )

found-get_for_peer :
    (mc : MessageCache Message) (mid p : ℕ) (m : Message) (n : ℕ)
    → (get_for_peer mc mid p).0 ≡ some (m, n)
    → (lookup mid mc.msgs ≡ some m) × (n ≡ lookup_or 0 p (lookup_or [] mid mc.peertx) + 1)
unfolding get_for_peer
found-get_for_peer mc mid p m n h = ground arith

module _ (s : Scores) (params : Params) (env : Env s) (p : ℕ) where
  -- What may be sent for an id, with the cache and the unwanted ids of a state.
  abbrev pub MaySend : Router → ℕ → Message → Type 0
  MaySend gs mid msg =
      (lookup mid gs.mcache.msgs ≡ some msg)
      × (has (env.compute_checksum mid) (lookup_or [] p gs.unwanted) ≡ false)
      × (env.peer_filter p msg.topic ≡ true)
      × (times gs mid p < params.gossip_retransmission)

  -- One state of the loop after another: the cache and the unwanted ids stay, the counts rise, and
  -- what is new among the answers may be sent and has been counted.
  abbrev Later : Router × Map Message → Router × Map Message → ℕ → Type 0
  Later (gs, ihave) (gs', ihave') k =
      (gs'.mcache.msgs ≡ gs.mcache.msgs)
      × (gs'.unwanted ≡ gs.unwanted)
      × (times gs k p ≤ times gs' k p)
      × ((lookup k ihave' ≡ lookup k ihave)
          ⊎ ((msg : Message) × (lookup k ihave' ≡ some msg)
              × MaySend gs k msg
              × (times gs k p < times gs' k p)))

  Later-serve_mid :
      (mid : ℕ) (gs : Router) (ihave : Map Message) (k : ℕ)
      → Later (gs, ihave) (serve_mid s params env p mid (gs, ihave)) k
  unfolding serve_mid
  Later-serve_mid mid gs ihave k =
      elim (Bool-cases (has (env.compute_checksum mid) (lookup_or [] p gs.unwanted))) [
        | inl dropped ↦ (ground arith, ground arith, ground arith, inl (ground arith))
        | inr allowed ↦ elim (Option-cases (get_for_peer gs.mcache mid p).0) [
          | inl miss ↦ (
            ground (arith, times-get_for_peer gs.mcache mid p k p),
            ground arith,
            ground (arith, times-get_for_peer gs.mcache mid p k p),
            inl (ground arith),
          )
          | inr ((m, n), hit) ↦ (
            ground (arith, times-get_for_peer gs.mcache mid p k p),
            ground arith,
            ground (arith, times-get_for_peer gs.mcache mid p k p),
            elim (Bool-cases (
                (mid == k)
                && env.peer_filter p m.topic
                && not (ltb params.gossip_retransmission n))) [
                  | inl sent ↦ inr (
                    m,
                    ground (arith, lookup-insert mid k m ihave),
                    (
                      ground (arith, found-get_for_peer gs.mcache mid p m n hit),
                      ground arith,
                      ground arith,
                      ground (arith, found-get_for_peer gs.mcache mid p m n hit),
                    ),
                    ground (arith, times-get_for_peer gs.mcache mid p k p),
                  )
                  | inr skipped ↦ inl (ground (arith, lookup-insert mid k m ihave))
                ],
          )
        ]
      ]

  Later-refl : (a : Router × Map Message) (k : ℕ) → Later a a k
  Later-refl a k = (refl, refl, omega arith, inl refl)

  Later-trans : (a b c : Router × Map Message) (k : ℕ) → Later a b k → Later b c k → Later a c k
  Later-trans a b c k (m1, u1, t1, h1) (m2, u2, t2, h2) = (
    ground arith,
    ground arith,
    omega arith,
    elim h2 [
      | inl same ↦ elim h1 [
        | inl old ↦ inl (ground arith)
        | inr (msg, e, may, more) ↦ inr (msg, ground arith, may, omega arith)
      ]
      | inr (msg, e, (f, w, pf, r), more) ↦
          inr (msg, e, (ground arith, ground arith, pf, omega arith), omega arith)
    ],
  )

  Later-serve_mids :
      (mids : List ℕ) (a : Router × Map Message) (k : ℕ)
      → Later a (serve_mids s params env p mids a) k
  unfolding serve_mids
  Later-serve_mids [] a k = Later-refl a k
  Later-serve_mids (mid ∷ mids) a k =
      Later-trans a (serve_mid s params env p mid a)
        (serve_mids s params env p mids (serve_mid s params env p mid a)) k
        (Later-serve_mid mid a.0 a.1 k) (Later-serve_mids mids (serve_mid s params env p mid a) k)

  Later-serve_iwants :
      (iwants : List (List ℕ)) (a : Router × Map Message) (k : ℕ)
      → Later a (serve_iwants s params env p iwants a) k
  unfolding serve_iwants
  Later-serve_iwants [] a k = Later-refl a k
  Later-serve_iwants (mids ∷ more) a k =
      Later-trans a (serve_mids s params env p mids a)
        (serve_iwants s params env p more (serve_mids s params env p mids a)) k
        (Later-serve_mids mids a k) (Later-serve_iwants more (serve_mids s params env p mids a) k)

  -- Every message sent in answer to an IWANT is the one that the cache has under that id, passes the
  -- peer filter, was not declared unwanted by the peer, had been given to it fewer times than the
  -- limit, and is now counted; and the peer is not below the gossip threshold.
  pub handle_iwant-sends :
      (gs : Router) (ctl : ControlMessage) (k : ℕ) (msg : Message)
      → lookup k (handle_iwant s params env gs p ctl).0 ≡ some msg
      → MaySend gs k msg
        × (times gs k p < times (handle_iwant s params env gs p ctl).1 k p)
        × (s.lt (env.score p) env.gossip_threshold ≡ false)
  unfolding handle_iwant
  handle_iwant-sends gs ctl k msg h = elim (Bool-cases (s.lt (env.score p) env.gossip_threshold)) [
    | inl low ↦ absurd (ground arith)
    | inr high ↦
        let (m, u, t, new) = Later-serve_iwants ctl.iwant (gs, []) k in
        elim new [
          | inl same ↦ absurd (ground arith)
          | inr (msg', e, may, more) ↦ (subst (MaySend gs k) (ground arith) may, ground arith, high)
        ]
  ]

  handle_iwant-times :
      (gs : Router) (ctl : ControlMessage) (k : ℕ)
      → times gs k p ≤ times (handle_iwant s params env gs p ctl).1 k p
  unfolding handle_iwant
  handle_iwant-times gs ctl k = elim (Bool-cases (s.lt (env.score p) env.gossip_threshold)) [
    | inl low ↦ ground arith
    | inr high ↦ ground (arith, Later-serve_iwants ctl.iwant (gs, []) k)
  ]

module _ (s : Scores) (params : Params) (p : ℕ) where
  -- In how many of a peer's IWANT messages, one after another, a message is sent.
  unfoldable pub sent_count : ℕ → Router → List (Env s × ControlMessage) → ℕ
  sent_count k gs [] = 0
  sent_count k gs ((env, ctl) ∷ more) =
      let (ihave, gs') = handle_iwant s params env gs p ctl in
      (if has k ihave then 1 else 0) + sent_count k gs' more

  sent_count_left :
      (k : ℕ) (gs : Router) (arrivals : List (Env s × ControlMessage))
      → sent_count k gs arrivals ≤ params.gossip_retransmission - times gs k p
  unfolding sent_count
  sent_count_left k gs [] = omega arith
  sent_count_left k gs ((env, ctl) ∷ more) =
      elim (Option-cases (lookup k (handle_iwant s params env gs p ctl).0)) [
        | inl absent ↦ ground (
          arith,
          absent,
          handle_iwant-times s params env p gs ctl k,
          sent_count_left k (handle_iwant s params env gs p ctl).1 more,
        )
        | inr (msg, e) ↦ ground (
          arith,
          e,
          handle_iwant-sends s params env p gs ctl k msg e,
          sent_count_left k (handle_iwant s params env gs p ctl).1 more,
        )
      ]

  -- However often a peer asks for a message, in a row of IWANT messages it is sent in at most
  -- `GossipRetransmission` of the answers.
  pub sent_count-bounded :
      (k : ℕ) (gs : Router) (arrivals : List (Env s × ControlMessage))
      → sent_count k gs arrivals ≤ params.gossip_retransmission
  sent_count-bounded k gs arrivals = omega (arith, sent_count_left k gs arrivals)
