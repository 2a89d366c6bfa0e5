-- ===== src/Router/Control/Retries.antt =====
-- What goes out of the control messages that are retried.
use go_libp2p_pubsub.Prelude.{
  ℕ, ◌≡◌, refl, ap, sym, ◌∙◌, inl, inr, Bool, true, false, not, ◌&&◌, List, [], ◌∷◌, Option, none,
  lookup, lookup_or, lookup-delete, has, length, member, keep, ◌==◌, Bool-cases, Option-cases,
  arith,
}
use go_libp2p_pubsub.Router.Env.{ControlPrune, ControlMessage, Router}
use go_libp2p_pubsub.Router.Graft.Admission.{mesh_of}
use go_libp2p_pubsub.Router.Control.{
  current_grafts, current_prunes, control_or_empty, piggyback_control, piggyback_gossip,
  take_control, take_gossip, take_pending,
}

keep-ext {ℓ} :
    {A : Type ℓ} → (f g : A → Bool) → (xs : List A) → ((x : A) → f x ≡ g x) → keep f xs ≡ keep g xs
keep-ext f g [] same = refl
keep-ext f g (x ∷ xs) same = ground (arith, same x, keep-ext f g xs same)

current_grafts-in_mesh :
    (gs : Router) (p : ℕ) (topics : List ℕ)
    → current_grafts gs p topics ≡ keep (λ t. member p (mesh_of gs t)) topics
unfolding current_grafts
current_grafts-in_mesh gs p topics =
    keep-ext _ (λ t. member p (mesh_of gs t)) topics
      (λ t. ground (arith, Option-cases (lookup t gs.mesh)))

current_prunes-out_of_mesh :
    (gs : Router) (p : ℕ) (prunes : List ControlPrune)
    → current_prunes gs p prunes
      ≡ keep (λ (prune : ControlPrune). not (member p (mesh_of gs prune.topic_id))) prunes
unfolding current_prunes
current_prunes-out_of_mesh gs p prunes =
    keep-ext _ (λ (prune : ControlPrune). not (member p (mesh_of gs prune.topic_id))) prunes
      (λ prune. ground (arith, Option-cases (lookup prune.topic_id gs.mesh)))

empty_of_length {ℓ} : {A : Type ℓ} → (xs : List A) → length xs == 0 ≡ true → xs ≡ []
empty_of_length [] h = refl
empty_of_length (x ∷ xs) h = absurd (ground arith)

-- The parts of a control message that is piggybacked on nothing.
piggyback_control_lem :
    (gs : Router) (p : ℕ) (ctl : ControlMessage)
    → ((control_or_empty (piggyback_control gs p none ctl)).graft ≡ current_grafts gs p ctl.graft)
      × ((control_or_empty (piggyback_control gs p none ctl)).prune ≡ current_prunes gs p ctl.prune)
      × ((control_or_empty (piggyback_control gs p none ctl)).ihave ≡ [])
unfolding piggyback_control
piggyback_control_lem gs p ctl =
    let tograft = current_grafts gs p ctl.graft in
    let toprune = current_prunes gs p ctl.prune in
    elim (Bool-cases (length tograft == 0 && length toprune == 0)) [
      | inl nothing ↦
          rw (nothing, piggyback_control)
            (
              sym (empty_of_length tograft (ground arith)),
              sym (empty_of_length toprune (ground arith)),
              refl,
            )
      | inr something ↦ rw (something, piggyback_control) (refl, refl, refl)
    ]

take_control_lem :
    (gs : Router) (p : ℕ)
    → let waiting = control_or_empty (lookup p gs.control) in
      ((control_or_empty (take_control gs p).0).graft ≡ current_grafts gs p waiting.graft)
      × ((control_or_empty (take_control gs p).0).prune ≡ current_prunes gs p waiting.prune)
      × ((control_or_empty (take_control gs p).0).ihave ≡ [])
      × (has p (take_control gs p).1.control ≡ false)
      × ((take_control gs p).1.gossip ≡ gs.gossip)
unfolding take_control
take_control_lem gs p = elim (Option-cases (lookup p gs.control)) [
  | inl quiet ↦
      rw (quiet, take_control, current_grafts, current_prunes)
        (refl, refl, refl, ground arith, refl)
  | inr (ctl, waiting) ↦
      let (g, q, i) = piggyback_control_lem gs p ctl in
      rw (waiting, take_control) (g, q, i, ground (arith, lookup-delete p p gs.control), refl)
]

take_gossip_lem :
    (out : Option ControlMessage) (gs : Router) (p : ℕ)
    → (control_or_empty out).ihave ≡ []
    → ((control_or_empty (take_gossip out gs p).0).graft ≡ (control_or_empty out).graft)
      × ((control_or_empty (take_gossip out gs p).0).prune ≡ (control_or_empty out).prune)
      × ((control_or_empty (take_gossip out gs p).0).ihave ≡ lookup_or [] p gs.gossip)
      × ((take_gossip out gs p).1.control ≡ gs.control)
      × (has p (take_gossip out gs p).1.gossip ≡ false)
unfolding take_gossip piggyback_gossip
take_gossip_lem out gs p bare = elim (Option-cases (lookup p gs.gossip)) [
  | inl silent ↦ rw (silent, take_gossip) (refl, refl, bare, refl, ground arith)
  | inr (ihave, waits) ↦
      rw (waits, take_gossip) (refl, refl, refl, refl, ground (arith, lookup-delete p p gs.gossip))
]

-- What goes out ahead of an RPC is never stale, and nothing that is not stale is lost or changed: of
-- the GRAFTs that wait for the peer exactly those go whose mesh still holds it, and of the PRUNEs
-- those whose mesh does not, each whole, with its backoff and its peers, and all in their order; with
-- them goes all the gossip that waits; and afterwards nothing waits for the peer.
pub take_pending_lem :
    (gs : Router) (p : ℕ)
    → ((control_or_empty (take_pending gs p).0).graft
        ≡ keep (λ t. member p (mesh_of gs t)) (control_or_empty (lookup p gs.control)).graft)
      × ((control_or_empty (take_pending gs p).0).prune
          ≡ keep
              (λ (prune : ControlPrune). not (member p (mesh_of gs prune.topic_id)))
              (control_or_empty (lookup p gs.control)).prune)
      × ((control_or_empty (take_pending gs p).0).ihave ≡ lookup_or [] p gs.gossip)
      × (has p (take_pending gs p).1.control ≡ false)
      × (has p (take_pending gs p).1.gossip ≡ false)
unfolding take_pending
take_pending_lem gs p =
    let (g, q, i, c, o) = take_control_lem gs p in
    let out = (take_control gs p).0 in
    let gs1 = (take_control gs p).1 in
    let waiting = control_or_empty (lookup p gs.control) in
    let (g', q', i', c', o') = take_gossip_lem out gs1 p i in
    (
      g' ∙ g ∙ current_grafts-in_mesh gs p waiting.graft,
      q' ∙ q ∙ current_prunes-out_of_mesh gs p waiting.prune,
      i' ∙ ap (lookup_or [] p) o,
      ap (has p) c' ∙ c,
      o',
    )
