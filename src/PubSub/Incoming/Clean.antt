-- ===== src/PubSub/Incoming/Clean.antt =====
-- The messages on their way: what keeps them sound and their ids distinct.
use go_libp2p_pubsub.Prelude.{
  ℕ, suc, ◌≤◌, ◌≡◌, refl, ◌∙◌, Bool, true, false, not, ◌&&◌, ◌||◌, List, [], ◌∷◌, ◌++◌, some, has,
  count_of, Bool-cases, inl, inr, arith, ◌==◌, if◌then◌else◌, is_some, has_same,
}
use go_libp2p_pubsub.Message.{Message}
use go_libp2p_pubsub.TimeCache.{add_to, add_id}
use go_libp2p_pubsub.Validation.{Caches, ValidatorImpl, World, validate}
use go_libp2p_pubsub.Validation.Verdicts.{IsArrival}
use go_libp2p_pubsub.Validation.Fates.{every, validate-panics}
use go_libp2p_pubsub.PubSub.{PubSub}
use go_libp2p_pubsub.PubSub.Incoming.{
  Config, wants_topic, is_admissible, should_push, select_messages, Flow, publish_message, push_msg,
  push_msgs, run_validation,
}
use go_libp2p_pubsub.PubSub.Incoming.Frames.{has-add_to, Same, Same-trans}
use go_libp2p_pubsub.PubSub.Incoming.Outcomes.{
  push_validation-cases, goes_on, validate_lem, fate-cases,
}

every-snoc {ℓ} :
    {A : Type ℓ} (t : A → Bool) (xs : List A) (x : A) → every t (xs ++ x ∷ []) ≡ every t xs && t x
every-snoc t [] x = ground arith
every-snoc t (y ∷ xs) x = ground (arith, every-snoc t xs x)

pub every-ext {ℓ} :
    {A : Type ℓ} (t u : A → Bool) (xs : List A) → ((x : A) → t x ≡ u x) → every t xs ≡ every u xs
every-ext t u [] same = refl
every-ext t u (x ∷ xs) same = rw (same x, every-ext t u xs same) refl

module _ (config : Config) (message_id : Message → ℕ) (verify : Message → Bool) where
  abbrev pub is_proper : PubSub → Message → Bool
  is_proper p msg = is_admissible config p msg && wants_topic p msg

  abbrev pub is_ours : Message → Bool
  is_ours msg = msg.received_from == config.self

  -- Our own message, or one of a topic that we want which no check refuses; its signature is right.
  abbrev pub is_sound : PubSub → Message → Bool
  is_sound p msg = (is_ours msg || is_proper p msg) && (not (is_some msg.signature) || verify msg)

  -- The ids delivered are distinct and in the cache, and every message on its way is sound as far as it
  -- has come. `p` is the state at the start.
  unfoldable pub IsClean : PubSub → Flow → Type 0
  IsClean p f =
      Same p (record f.p { caches = p.caches })
      × (every (λ (e : Message × List ValidatorImpl). is_ours e.0 || is_proper p e.0)
            f.validation_queue
          ≡ true)
      × (every (is_sound p) f.send_msg ≡ true)
      × (every (is_sound p) f.delivered ≡ true)
      × ((k : ℕ)
          → count_of (λ (msg : Message). message_id msg == k) f.delivered
            ≤ (if has k f.p.caches.delivered.m then 1 else 0))

  abbrev pub Agrees : World → Type 0
  Agrees w =
      ((msg : Message) → w.message_id msg ≡ message_id msg)
      × ((msg : Message) → w.verify_message_signature msg ≡ verify msg)
      × IsArrival w.arrival

  pub publish_message-IsClean :
      (p : PubSub) (w : World) (f : Flow) (msg : Message)
      → Agrees w
      → IsClean p f
      → is_sound p msg ≡ true
      → IsClean p (publish_message w f msg)
  unfolding publish_message IsClean Same add_id
  publish_message-IsClean p w f msg (ids, _, _) (same, q, sent, got, once) sound =
      let tc = f.p.caches.delivered in
      let id = w.message_id msg in
      let added = has-add_to tc.kind w.now tc id in
      elim (Bool-cases (add_to tc.kind w.now tc id).0) [
        | inl fresh ↦
            rw (fresh, publish_message, add_id)
              (
                same,
                q,
                sent,
                ground (arith, got, sound),
                λ k. ground (arith, once k, added k, fresh, ids msg, has_same id k tc.m),
              )
        | inr known ↦
            rw (known, publish_message, add_id)
              (same, q, sent, got, λ k. ground (arith, once k, added k))
      ]

  push_msg-IsClean :
      (p : PubSub) (w : World) (room : Bool) (f : Flow) (msg : Message)
      → Agrees w
      → IsClean p f
      → is_ours msg || is_proper p msg ≡ true
      → IsClean p (push_msg w room f msg)
  unfolding push_msg IsClean Same
  push_msg-IsClean p w room f msg agrees (same, q, sent, got, once) proper =
      let added = add_id w.now f.p.caches.seen (w.message_id msg) in
      let marked : Flow = record f {
        p = record f.p { caches = record f.p.caches { seen = added.1 } };
      } in
      elim (push_validation-cases room f.val msg) [
        | inl (forwards, unsigned) ↦ elim (Bool-cases added.0) [
          | inl fresh ↦
              rw (forwards, push_msg)
                (rw fresh (
                  publish_message-IsClean p w marked msg agrees (same, q, sent, got, once)
                    (ground (arith, proper, unsigned))))
          | inr known ↦ rw (forwards, push_msg) (rw known (same, q, sent, got, once))
        ]
        | inr (inl full) ↦ rw (full, push_msg) (same, q, sent, got, once)
        | inr (inr (vals, queues)) ↦
            rw (queues, push_msg)
              (
                same,
                ground (
                  arith,
                  q,
                  proper,
                  every-snoc (λ (e : Message × List ValidatorImpl). is_ours e.0 || is_proper p e.0)
                      f.validation_queue (msg, vals),
                ),
                sent,
                got,
                once,
              )
      ]

  pub push_msgs-IsClean :
      (p : PubSub) (w : World) (room : ℕ → Bool) (i : ℕ) (f : Flow) (msgs : List Message)
      → Agrees w
      → IsClean p f
      → every (λ m. is_ours m || is_proper p m) msgs ≡ true
      → IsClean p (push_msgs w room i f msgs)
  unfolding push_msgs
  push_msgs-IsClean p w room i f [] agrees ok proper = ok
  push_msgs-IsClean p w room i f (msg ∷ msgs) agrees ok proper =
      push_msgs-IsClean p w room (suc i) (push_msg w (room i) f msg) msgs agrees
        (push_msg-IsClean p w (room i) f msg agrees ok (ground (arith, proper)))
        (ground (arith, proper))

  pub is_proper-Same : (p q : PubSub) (msg : Message) → Same p q → is_proper q msg ≡ is_proper p msg
  unfolding Same is_admissible
  is_proper-Same p q msg (a, b, c, _) = rw (a, b, c, is_admissible) refl

  should_push-lem :
      (w : World) (p : PubSub) (msg : Message)
      → Same p (should_push config w p msg).1
        × ((should_push config w p msg).0 ≡ true → is_admissible config p msg ≡ true)
  unfolding should_push Same
  should_push-lem w p msg = elim (Bool-cases (is_admissible config p msg)) [
    | inl fine ↦ rw (fine, should_push) ((refl, refl, refl, λ k. refl), λ h. refl)
    | inr bad ↦ rw (bad, should_push) ((refl, refl, refl, λ k. refl), λ h. h)
  ]

  pub select_messages-lem :
      (w : World) (p q : PubSub) (from : ℕ) (msgs : List Message)
      → Same p q
      → Same p (select_messages config w q from msgs).1
        × (every (λ m. is_ours m || is_proper p m) (select_messages config w q from msgs).0 ≡ true)
  unfolding select_messages
  select_messages-lem w p q from [] same = (same, refl)
  select_messages-lem w p q from (pmsg ∷ msgs) same =
      let msg : Message = record pmsg { id = 0; received_from = from; is_local = false } in
      let (push, q1) = should_push config w q msg in
      let (kept, admitted) = should_push-lem w q msg in
      let here = is_proper-Same p q msg same in
      let (same1, proper1) = select_messages-lem w p q1 from msgs (Same-trans p q q1 same kept) in
      elim (Bool-cases (wants_topic q msg)) [
        | inr unwanted ↦ rw (unwanted, select_messages) (select_messages-lem w p q from msgs same)
        | inl wanted ↦ elim (Bool-cases push) [
          | inl chosen ↦
              rw (wanted, select_messages)
                (rw chosen (same1, ground (arith, proper1, here, wanted, admitted chosen)))
          | inr left_out ↦ rw (wanted, select_messages) (rw left_out (same1, proper1))
        ]
      ]

  caches-IsClean :
      (p : PubSub) (f : Flow) (caches : Caches)
      → ((k : ℕ) → has k caches.delivered.m ≡ has k f.p.caches.delivered.m)
      → IsClean p f
      → IsClean p (record f { p = record f.p { caches = caches } })
  unfolding IsClean Same
  caches-IsClean p f caches kept (same, q, sent, got, once) =
      (same, q, sent, got, λ k. ground (arith, once k, kept k))

  -- A sound message may go into the channel of messages to send.
  sending-IsClean :
      (p : PubSub) (f : Flow) (msg : Message)
      → IsClean p f
      → is_sound p msg ≡ true
      → IsClean p (record f { send_msg = f.send_msg ++ msg ∷ [] })
  unfolding IsClean Same
  sending-IsClean p f msg (same, q, sent, got, once) sound =
      (same, q, ground (arith, sent, sound, every-snoc (is_sound p) f.send_msg msg), got, once)

  -- What follows a fate: there is a flow, since no fate is a panic, and it is clean.
  pub run_validation-IsClean :
      (p : PubSub) (w : World) (f : Flow) (vals : List ValidatorImpl) (msg : Message)
      (is_local : Bool)
      → Agrees w
      → IsClean p f
      → is_ours msg || is_proper p msg ≡ true
      → (f' : Flow) × (run_validation w f vals msg is_local ≡ some f') × IsClean p f'
  unfolding run_validation goes_on
  run_validation-IsClean p w f vals msg is_local agrees ok proper =
      let (fate, caches) = validate w f.p.caches vals msg.received_from msg is_local in
      let (kept, signed) = validate_lem w f.p.caches vals msg.received_from msg is_local in
      let f1 = record f { p = record f.p { caches = caches } } in
      let f2 = record f1 { send_msg = f.send_msg ++ msg ∷ [] } in
      let ok1 = caches-IsClean p f caches kept ok in
      let ok2 = λ (go : goes_on is_local fate ≡ true).
        sending-IsClean p f1 msg ok1 (ground (arith, proper, signed go, agrees.1 msg)) in
      elim (fate-cases fate) [
        | inl passes ↦ (f2, rw (passes, run_validation) refl, ok2 (rw (passes, goes_on) refl))
        | inr (inl again) ↦ elim (Bool-cases is_local) [
          | inl ours ↦
              (f2, rw (again, run_validation) (rw ours refl), ok2 (rw (again, goes_on) ours))
          | inr theirs ↦ (f1, rw (again, run_validation) (rw theirs refl), ok1)
        ]
        | inr (inr (inl (r, refused))) ↦ (f1, rw (refused, run_validation) refl, ok1)
        | inr (inr (inr bug)) ↦
            absurd (validate-panics w f.p.caches vals msg.received_from msg is_local agrees.2 bug)
      ]

  pub Same-IsClean :
      (p : PubSub) (f : Flow) (q : PubSub)
      → Same f.p q
      → IsClean p f
      → IsClean p (record f { p = q })
  unfolding IsClean Same
  Same-IsClean p f q (a, b, c, d) ((a', b', c', _), v, sent, got, once) =
      ((a ∙ a', b ∙ b', c ∙ c', λ k. refl), v, sent, got, λ k. ground (arith, once k, d k))
