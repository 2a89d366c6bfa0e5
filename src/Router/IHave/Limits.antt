-- ===== src/Router/IHave/Limits.antt =====
-- The limit on what is asked for between two heartbeats, which reset the counters.
use go_libp2p_pubsub.Prelude.{
  ℕ, ◌+◌, ◌≤◌, ◌≡◌, refl, inl, inr, List, [], ◌∷◌, Option, none, some, lookup_or, lookup-insert,
  length, if◌then◌else◌, ◌==◌, arith,
}
use go_libp2p_pubsub.Router.Env.{Params, Scores, ControlMessage, Router, Env, IsIntn}
use go_libp2p_pubsub.Router.IHave.{handle_ihave}
use go_libp2p_pubsub.Router.IHave.Answer.{handle_ihave_cases}

-- `clearIHaveCounters`: each non-empty map is replaced by a new one.
unfoldable pub clear_ihave_counters : Router → Router
clear_ihave_counters gs = record gs { peerhave = []; iasked = [] }

module _ (s : Scores) where
  -- A control message with its sender and the world at its arrival.
  pub record Arrival : Type 0 where
    pub p : ℕ
    pub env : Env s
    pub ctl : ControlMessage

  abbrev pub AllIntn : List Arrival → Type 0
  AllIntn [] = Unit {0}
  AllIntn (a ∷ arrivals) = IsIntn a.env.draw_index × AllIntn arrivals

  abbrev pub asked_ids : List (List ℕ) → ℕ
  asked_ids [] = 0
  asked_ids (lst ∷ more) = length lst + asked_ids more

  -- The number of ids that a peer is asked for over a sequence of arrivals from any peers.
  unfoldable pub asked_from : Params → ℕ → Router → List Arrival → Option ℕ
  asked_from params q gs [] = some 0
  asked_from params q gs (a ∷ arrivals) = elim (handle_ihave s params a.env gs a.p a.ctl) [
    | none ↦ none
    | some (iwant, gs') ↦ elim (asked_from params q gs' arrivals) [
      | none ↦ none
      | some n ↦ some ((if a.p == q then asked_ids iwant else 0) + n)
    ]
  ]

  asked_from_room :
      (params : Params) (q : ℕ) (arrivals : List Arrival) (gs : Router)
      → AllIntn arrivals
      → lookup_or 0 q gs.iasked ≤ params.max_ihave_length
      → (n : ℕ) × (asked_from params q gs arrivals ≡ some n)
        × (n + lookup_or 0 q gs.iasked ≤ params.max_ihave_length)
  unfolding asked_from
  asked_from_room params q [] gs d h = (0, refl, omega arith)
  asked_from_room params q (a ∷ arrivals) gs d h =
      elim (handle_ihave_cases s params a.env gs a.p a.ctl d.0) [
        | inl (gs', e, i, _) ↦
            let (n, en, b) = asked_from_room params q arrivals gs' d.1 (rw i h) in
            ((if a.p == q then 0 else 0) + n, ground (arith, e, en), ground (arith, b, i))
        | inr (lst, gs', e, _, _, _, i, l, _) ↦
            let counter = lookup-insert a.p q (lookup_or 0 a.p gs.iasked + length lst) gs.iasked in
            let (n, en, b) =
              asked_from_room params q arrivals gs' d.1 (ground (arith, i, counter)) in
            (
              (if a.p == q then length lst + 0 else 0) + n,
              ground (arith, e, en),
              ground (arith, b, i, counter),
            )
      ]

  -- Between two heartbeats a peer is asked for at most `MaxIHaveLength` messages in total, however
  -- many IHAVEs it sends and whatever other peers send in between, and no call panics.
  pub asked-bounded :
      (params : Params) (q : ℕ) (gs : Router) (arrivals : List Arrival)
      → AllIntn arrivals
      → (n : ℕ) × (asked_from params q (clear_ihave_counters gs) arrivals ≡ some n)
        × (n ≤ params.max_ihave_length)
  unfolding clear_ihave_counters
  asked-bounded params q gs arrivals d =
      let (n, e, b) = asked_from_room params q arrivals (clear_ihave_counters gs) d (omega arith) in
      (n, e, omega arith)
