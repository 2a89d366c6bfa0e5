-- ===== src/PubSub/Incoming/Outcomes.antt =====
-- What a message may lead to: when it is pushed, and when it is validated.
use go_libp2p_pubsub.Prelude.{
  ℕ, ◌≡◌, refl, Bool, true, false, not, ◌&&◌, ◌||◌, List, has, length, Bool-cases, inl, inr, ◌⊎◌,
  arith, is_some, ltb,
}
use go_libp2p_pubsub.Message.{Message}
use go_libp2p_pubsub.TimeCache.{add_id, has_id}
use go_libp2p_pubsub.Validation.{
  Caches, Validators, ValidatorImpl, World, Fate, valid, duplicate, panicked, rejected,
  push_validation, forward, queue_full, queued, validate, get_validators,
}
use go_libp2p_pubsub.GossipTracer.{RejectReason}
use go_libp2p_pubsub.PubSub.Incoming.Frames.{has-find_in}

pub push_validation-cases :
    (room : Bool) (val : Validators) (msg : Message)
    → ((push_validation room val msg ≡ forward) × (is_some msg.signature ≡ false))
      ⊎ ((push_validation room val msg ≡ queue_full)
          ⊎ ((vals : List ValidatorImpl) × (push_validation room val msg ≡ queued vals)))
unfolding push_validation
push_validation-cases room val msg =
    let vals = get_validators val msg in
    elim (Bool-cases (ltb 0 (length vals) || is_some msg.signature)) [
      | inr free ↦ inl (rw (free, push_validation) refl, ground (arith, free))
      | inl bound ↦ elim (Bool-cases room) [
        | inl has_room ↦ inr (inr (vals, rw (bound, push_validation) (rw has_room refl)))
        | inr no_room ↦ inr (inl (rw (bound, push_validation) (rw no_room refl)))
      ]
    ]

-- Whether a message is sent on.
unfoldable pub goes_on : Bool → Fate → Bool
goes_on is_local valid = true
goes_on is_local duplicate = is_local
goes_on is_local panicked = false
goes_on is_local (rejected r) = false

pub validate_lem :
    (w : World) (caches : Caches) (vals : List ValidatorImpl) (src : ℕ) (msg : Message)
    (is_local : Bool)
    → ((k : ℕ)
        → has k (validate w caches vals src msg is_local).1.delivered.m ≡ has k caches.delivered.m)
      × (goes_on is_local (validate w caches vals src msg is_local).0 ≡ true
          → not (is_some msg.signature) || w.verify_message_signature msg ≡ true)
unfolding validate has_id goes_on
validate_lem w caches vals src msg is_local =
    let seen = add_id w.now caches.seen (w.message_id msg) in
    let known = has_id w.now caches.delivered (w.message_id msg) in
    let found =
      λ (k : ℕ). has-find_in caches.delivered.kind w.now caches.delivered (w.message_id msg) k in
    elim (Bool-cases (is_some msg.signature && not (w.verify_message_signature msg))) [
      | inl forged ↦ rw (forged, validate) (λ k. refl, λ h. absurd (ground (arith, h)))
      | inr signed ↦ elim (Bool-cases (not seen.0 && not is_local)) [
        | inl again ↦ rw (signed, validate) (rw again (λ k. refl, λ h. ground (arith, signed)))
        | inr first ↦ elim (Bool-cases known.0) [
          | inl done ↦
              rw (signed, validate) (rw first (rw done (found, λ h. ground (arith, signed))))
          | inr next ↦
              rw (signed, validate) (rw first (rw next (found, λ h. ground (arith, signed))))
        ]
      ]
    ]

pub fate-cases :
    (fate : Fate)
    → (fate ≡ valid)
      ⊎ ((fate ≡ duplicate) ⊎ (((r : RejectReason) × (fate ≡ rejected r)) ⊎ (fate ≡ panicked)))
fate-cases valid = inl refl
fate-cases duplicate = inr (inl refl)
fate-cases (rejected r) = inr (inr (inl (r, refl)))
fate-cases panicked = inr (inr (inr refl))
