-- ===== src/Router/Prune/Exchange.antt =====
-- What the peer exchange of a PRUNE may ask for.
use go_libp2p_pubsub.Prelude.{
  ℕ, ◌+◌, ◌*◌, ◌≤◌, ◌≡◌, refl, ap, sym, inl, inr, ◌⊎◌, ◌∙◌, Bool, true, false, not, ◌&&◌, List, [],
  ◌∷◌, Option, none, some, Map, lookup, has, length, length-take, take, ltb, if◌then◌else◌,
  Bool-cases, Option-cases, ◌==◌, arith,
}
use go_libp2p_pubsub.Shuffle.{shuffle}
use go_libp2p_pubsub.Router.Env.{
  Params, Scores, PeerInfo, ControlMessage, ControlPrune, Router, Env,
}
use go_libp2p_pubsub.Router.Prune.{
  px_offer, to_connect, offer_all, px_connect, unlink, exchange, prune_topic, prune_topics,
  handle_prune,
}

module _ (s : Scores) (env : Env s) where
  -- A peer that is not connected, with no record, or with one that `ConsumeEnvelope` accepts and that
  -- names the peer.
  abbrev pub is_vetted : Map ℕ → ℕ × Option ℕ → Bool
  is_vetted peers (q, none) = not (has q peers)
  is_vetted peers (q, some spr) = elim (env.consume_envelope spr) [
    | none ↦ false
    | some none ↦ false
    | some (some rec) ↦ not (has q peers) && rec == q
  ]

  abbrev pub all_vetted : Map ℕ → List (ℕ × Option ℕ) → Bool
  all_vetted peers [] = true
  all_vetted peers (ci ∷ cis) = is_vetted peers ci && all_vetted peers cis

  offer_vetted : Map ℕ → Option (ℕ × Option ℕ) → Bool
  offer_vetted peers none = true
  offer_vetted peers (some ci) = is_vetted peers ci

  px_offer-vetted :
      (gs : Router) (pi : PeerInfo) → offer_vetted gs.peers (px_offer s env gs pi) ≡ true
  unfolding px_offer offer_vetted
  px_offer-vetted gs pi = elim (Bool-cases (has pi.peer_id gs.peers)) [
    | inl connected ↦ rw (connected, px_offer)
    | inr new ↦ elim (Option-cases pi.signed_peer_record) [
      | inl bare ↦ rw (new, px_offer) (rw bare (ground arith))
      | inr (spr, signed) ↦ elim (Option-cases (env.consume_envelope spr)) [
        | inl bad ↦ rw (new, px_offer) (rw signed (rw bad refl))
        | inr (payload, good) ↦ elim (Option-cases payload) [
          | inl bogus ↦ rw (new, px_offer) (rw signed (rw good (rw bogus refl)))
          | inr (rec, of) ↦ elim (Bool-cases (rec == pi.peer_id)) [
            | inl own ↦
                rw (new, px_offer) (rw signed (rw good (rw of (rw own (ground (arith, good, of))))))
            | inr others ↦ rw (new, px_offer) (rw signed (rw good (rw of (rw others refl))))
          ]
        ]
      ]
    ]
  ]

  to_connect-vetted :
      (gs : Router) (px : List PeerInfo) → all_vetted gs.peers (to_connect s env gs px) ≡ true
  unfolding to_connect offer_vetted
  to_connect-vetted gs [] = refl
  to_connect-vetted gs (pi ∷ px) = elim (Option-cases (px_offer s env gs pi)) [
    | inl skipped ↦ rw (skipped, to_connect) (to_connect-vetted gs px)
    | inr (ci, offered) ↦
        rw (offered, to_connect)
          (ground (
            arith,
            to_connect-vetted gs px,
            ap (offer_vetted gs.peers) (sym offered) ∙ px_offer-vetted gs pi,
          ))
  ]

  length-to_connect :
      (gs : Router) (px : List PeerInfo) → length (to_connect s env gs px) ≤ length px
  unfolding to_connect
  length-to_connect gs [] = omega arith
  length-to_connect gs (pi ∷ px) = elim (Option-cases (px_offer s env gs pi)) [
    | inl skipped ↦ rw (skipped, to_connect) (omega (arith, length-to_connect gs px))
    | inr (ci, offered) ↦ rw (offered, to_connect) (omega (arith, length-to_connect gs px))
  ]

  offer_all-vetted :
      (gs : Router) (cis connects : List (ℕ × Option ℕ))
      → all_vetted gs.peers cis ≡ true
      → all_vetted gs.peers connects ≡ true
      → all_vetted gs.peers (offer_all s env cis connects) ≡ true
  unfolding offer_all
  offer_all-vetted gs [] connects h k = k
  offer_all-vetted gs (ci ∷ cis) connects h k =
      offer_all-vetted gs cis (if env.has_room ci.0 then ci ∷ connects else connects) (ground arith)
        (ground arith)

  length-offer_all :
      (cis connects : List (ℕ × Option ℕ))
      → length (offer_all s env cis connects) ≤ length connects + length cis
  unfolding offer_all
  length-offer_all [] connects = omega arith
  length-offer_all (ci ∷ cis) connects =
      ground (arith, length-offer_all cis (if env.has_room ci.0 then ci ∷ connects else connects))

module _ (s : Scores) (params : Params) (env : Env s) (p : ℕ) where
  -- What a step does to the offers, when its sender's score is good enough for a peer exchange and
  -- when it is not.
  Offers : Router → Router → ℕ → Type 0
  Offers gs gs' prunes =
      (gs'.peers ≡ gs.peers)
      × (all_vetted s env gs.peers gs.connects ≡ true
          → all_vetted s env gs.peers gs'.connects ≡ true)
      × (length gs'.connects ≤ length gs.connects + prunes * params.prune_peers)
      × (s.lt (env.score p) env.accept_px_threshold ≡ true → gs'.connects ≡ gs.connects)

  px_connect-bounded :
      (gs : Router) (draws : ℕ → ℕ) (px : List PeerInfo)
      → length (px_connect s params env gs draws px).connects
        ≤ length gs.connects + 1 * params.prune_peers
  unfolding px_connect
  px_connect-bounded gs draws px = elim (Bool-cases (ltb params.prune_peers (length px))) [
    | inl many ↦
        let kept = take params.prune_peers (shuffle draws px) in
        rw (many, px_connect)
          (omega (
            arith,
            length-offer_all s env (to_connect s env gs kept) gs.connects,
            length-to_connect s env gs kept,
            length-take params.prune_peers (shuffle draws px),
          ))
    | inr few ↦
        rw (few, px_connect)
          (ground (
            arith,
            length-offer_all s env (to_connect s env gs px) gs.connects,
            length-to_connect s env gs px,
          ))
  ]

  px_connect-vetted :
      (gs : Router) (draws : ℕ → ℕ) (px : List PeerInfo)
      → all_vetted s env gs.peers gs.connects ≡ true
      → all_vetted s env gs.peers (px_connect s params env gs draws px).connects ≡ true
  unfolding px_connect
  px_connect-vetted gs draws px h =
      let kept =
        if ltb params.prune_peers (length px)
        then take params.prune_peers (shuffle draws px)
        else px in
      offer_all-vetted s env gs (to_connect s env gs kept) gs.connects
        (to_connect-vetted s env gs kept) h

  prune_topic-Offers :
      (prune : ControlPrune) (gs : Router) → Offers gs (prune_topic s params env p prune gs) 1
  unfolding prune_topic exchange unlink px_connect Offers
  prune_topic-Offers prune gs = elim (Option-cases (lookup prune.topic_id gs.mesh)) [
    | inl miss ↦ rw (miss, prune_topic) (refl, λ h. h, omega arith, λ h. refl)
    | inr (peers, hit) ↦
        let gs1 = unlink s params env p prune peers gs in
        let go = ltb 0 (length prune.peers) && not (s.lt (env.score p) env.accept_px_threshold) in
        elim (Bool-cases go) [
          | inr ignored ↦
              rw (hit, prune_topic) (rw (ignored, exchange) (refl, λ h. h, omega arith, λ h. refl))
          | inl taken ↦
              rw (hit, prune_topic)
                (rw (taken, exchange)
                  (
                    refl,
                    px_connect-vetted gs1 (env.topic_draws prune.topic_id) prune.peers,
                    px_connect-bounded gs1 (env.topic_draws prune.topic_id) prune.peers,
                    λ h. absurd (ground arith),
                  ))
        ]
  ]

  prune_topics-Offers :
      (prunes : List ControlPrune) (gs : Router)
      → Offers gs (prune_topics s params env p prunes gs) (length prunes)
  unfolding prune_topics Offers
  prune_topics-Offers [] gs = (refl, λ h. h, omega arith, λ h. refl)
  prune_topics-Offers (prune ∷ prunes) gs =
      let gs1 = prune_topic s params env p prune gs in
      let (q, v, l, i) = prune_topic-Offers prune gs in
      let (q', v', l', i') = prune_topics-Offers prunes gs1 in
      (
        q' ∙ q,
        λ h.
            ap (λ m. all_vetted s env m (prune_topics s params env p prunes gs1).connects) (sym q)
            ∙ v' (ap (λ m. all_vetted s env m gs1.connects) q ∙ v h),
        omega (arith, l, l'),
        λ h. i' h ∙ i h,
      )

-- What a PRUNE message makes us connect to is vetted. If only peers that are not connected, and that
-- come with no record or with one that `ConsumeEnvelope` accepts and that names the peer, were
-- offered to the connector before, then the same holds afterwards; at most `PrunePeers` peers are offered for each PRUNE of the message; and
-- none is when the sender's score is below the threshold for a peer exchange.
pub handle_prune-offers :
    (s : Scores) (params : Params) (env : Env s) (gs : Router) (p : ℕ) (ctl : ControlMessage)
    → all_vetted s env gs.peers gs.connects ≡ true
    → (all_vetted s env gs.peers (handle_prune s params env gs p ctl).connects ≡ true)
      × (length (handle_prune s params env gs p ctl).connects
          ≤ length gs.connects + length ctl.prune * params.prune_peers)
      × ((s.lt (env.score p) env.accept_px_threshold ≡ false)
          ⊎ ((handle_prune s params env gs p ctl).connects ≡ gs.connects))
unfolding handle_prune Offers
handle_prune-offers s params env gs p ctl good =
    let (_, v, l, i) = prune_topics-Offers s params env p ctl.prune gs in
    (
      v good,
      l,
      elim (Bool-cases (s.lt (env.score p) env.accept_px_threshold)) [
        | inl low ↦ inr (i low)
        | inr fine ↦ inl fine
      ],
    )
