-- ===== src/Router/IHave/Answer.antt =====
-- What an answer to an IHAVE asks for.
use go_libp2p_pubsub.Prelude.{
  ℕ, zero, suc, ◌+◌, ◌≤◌, ◌<◌, ◌≡◌, refl, inl, inr, ◌⊎◌, Bool, true, false, not, ◌&&◌, ◌||◌, List,
  [], ◌∷◌, some, Bool-cases, has, lookup_or, insert, lookup-insert, add, length, length-take, take,
  ltb, leb, if◌then◌else◌, member, member-add, member-take, IsDistinct, IsDistinct-add, get_elem?,
  arith,
}
use go_libp2p_pubsub.Shuffle.{shuffle}
use go_libp2p_pubsub.Shuffle.Counts.{member-shuffle, length-shuffle, IsDistinct-shuffle}
use go_libp2p_pubsub.GossipTracer.{GossipTracer, add_promise, add_one_promise}
use go_libp2p_pubsub.Router.Env.{Params, Scores, ControlIHave, ControlMessage, Router, Env, IsIntn}
use go_libp2p_pubsub.Router.IHave.{collect_mids, collect_ihaves, iask_of, ask_for, handle_ihave}

member-collect_mids :
    (seen : ℕ → Bool) (limit idx : ℕ) (mids iwant : List ℕ) (k : ℕ)
    → member k (collect_mids seen limit idx mids iwant) ≡ true
    → (member k iwant ≡ true) ⊎ ((member k mids ≡ true) × (seen k ≡ false))
unfolding collect_mids
member-collect_mids seen limit idx [] iwant k h = inl h
member-collect_mids seen limit idx (mid ∷ mids) iwant k h = ground (
  arith,
  member-collect_mids seen limit (idx + 1) mids (if seen mid then iwant else add mid iwant) k,
  member-add mid k iwant,
)

IsDistinct-collect_mids :
    (seen : ℕ → Bool) (limit idx : ℕ) (mids iwant : List ℕ)
    → IsDistinct iwant
    → IsDistinct (collect_mids seen limit idx mids iwant)
unfolding collect_mids
IsDistinct-collect_mids seen limit idx [] iwant d = d
IsDistinct-collect_mids seen limit idx (mid ∷ mids) iwant d = ground (
  arith,
  IsDistinct-collect_mids seen limit (idx + 1) mids (if seen mid then iwant else add mid iwant),
  IsDistinct-add mid iwant d,
)

IsDistinct-take : (n : ℕ) (xs : List ℕ) → IsDistinct xs → IsDistinct (take n xs)
IsDistinct-take zero xs d = tt
IsDistinct-take (suc n) [] d = tt
IsDistinct-take (suc n) (x ∷ xs) d = (
  ground (arith, member-take n x xs, Bool-cases (member x (take n xs))),
  IsDistinct-take n xs d.1,
)

get_elem?-some : (xs : List ℕ) (i : ℕ) → i < length xs → (a : ℕ) × (get_elem? xs i ≡ some a)
get_elem?-some [] i h = absurd (omega arith)
get_elem?-some (x ∷ xs) zero h = (x, refl)
get_elem?-some (x ∷ xs) (suc i) h = get_elem?-some xs i (omega arith)

add_promise-total :
    (now idx : ℕ) (gt : GossipTracer) (p : ℕ) (ids : List ℕ)
    → idx < length ids
    → (gt' : GossipTracer) × (add_promise now idx gt p ids ≡ some gt')
unfolding add_promise
add_promise-total now idx gt p ids h =
    let (mid, e) = get_elem?-some ids idx h in (add_one_promise now p mid gt, rw (e, add_promise))

module _ (s : Scores) (params : Params) (env : Env s) where
  -- Whether an id is advertised for a topic of the mesh that the peer filter allows, and not seen.
  abbrev pub wanted : Router → ℕ → ℕ → List ControlIHave → Bool
  wanted gs p k [] = false
  wanted gs p k (i ∷ is) =
      (has i.topic_id gs.mesh
        && env.peer_filter p i.topic_id
        && member k i.message_ids
        && not (env.seen_message k))
      || wanted gs p k is

  member-collect_ihaves :
      (gs : Router) (p : ℕ) (ihaves : List ControlIHave) (iwant : List ℕ) (k : ℕ)
      → member k (collect_ihaves s params env gs p ihaves iwant) ≡ true
      → (member k iwant ≡ true) ⊎ (wanted gs p k ihaves ≡ true)
  unfolding collect_ihaves
  member-collect_ihaves gs p [] iwant k h = inl h
  member-collect_ihaves gs p (i ∷ is) iwant k h =
      let step : List ℕ =
        (if has i.topic_id gs.mesh
          then (if env.peer_filter p i.topic_id
              then collect_mids env.seen_message params.max_ihave_length 0 i.message_ids iwant
              else iwant)
          else iwant) in
      ground (
        arith,
        member-collect_ihaves gs p is step k h,
        member-collect_mids env.seen_message params.max_ihave_length 0 i.message_ids iwant k,
      )

  IsDistinct-collect_ihaves :
      (gs : Router) (p : ℕ) (ihaves : List ControlIHave) (iwant : List ℕ)
      → IsDistinct iwant
      → IsDistinct (collect_ihaves s params env gs p ihaves iwant)
  unfolding collect_ihaves
  IsDistinct-collect_ihaves gs p [] iwant d = d
  IsDistinct-collect_ihaves gs p (i ∷ is) iwant d = IsDistinct-collect_ihaves gs p is _ (
      ground (
        arith,
        d,
        IsDistinct-collect_mids env.seen_message params.max_ihave_length 0 i.message_ids iwant d,
      ))

  -- What asking for a list that is not empty comes to, with room left for the peer.
  ask_for_lem :
      (gs : Router) (p : ℕ) (iwant : List ℕ)
      → IsIntn env.draw_index
      → 0 < length iwant
      → lookup_or 0 p gs.iasked < params.max_ihave_length
      → (lst : List ℕ) × (gs' : Router) × (ask_for s params env gs p iwant ≡ some (lst ∷ [], gs'))
        × (lst ≡ take (length lst) (shuffle env.draws iwant))
        × (0 < length lst)
        × (gs'.iasked ≡ insert p (lookup_or 0 p gs.iasked + length lst) gs.iasked)
        × (lookup_or 0 p gs.iasked + length lst ≤ params.max_ihave_length)
        × (gs'.peerhave ≡ gs.peerhave)
        × (gs'.mesh ≡ gs.mesh)
  unfolding ask_for
  ask_for_lem gs p iwant draw some_wanted room =
      let iasked = lookup_or 0 p gs.iasked in
      let iask = iask_of params.max_ihave_length iasked (length iwant) in
      let lst = take iask (shuffle env.draws iwant) in
      let long : length lst ≡ iask =
        ground
          (arith, length-take iask (shuffle env.draws iwant), length-shuffle env.draws iwant) in
      let pos : 0 < iask = ground arith in
      let (gt, e) =
        add_promise-total env.now (env.draw_index (length lst)) gs.gossip_tracer p lst
          (draw (length lst) (omega (arith, long, pos))) in
      (
        lst,
        record gs { iasked = insert p (iasked + iask) gs.iasked; gossip_tracer = gt },
        ground (arith, e),
        rw long refl,
        omega (arith, long, pos),
        rw long refl,
        ground (arith, long),
        refl,
        refl,
      )

  -- The state with the IHAVE counted, and the ids that the loops collect.
  abbrev pub counted : Router → ℕ → Router
  counted gs p = record gs { peerhave = insert p (lookup_or 0 p gs.peerhave + 1) gs.peerhave }

  abbrev pub collected : Router → ℕ → ControlMessage → List ℕ
  collected gs p ctl = collect_ihaves s params env (counted gs p) p ctl.ihave []

  -- Where the peer is answered with an IWANT: the guards of `handleIHave` that it passed.
  abbrev pub answers : Router → ℕ → Bool
  answers gs p =
      not (s.lt (env.score p) env.gossip_threshold)
      && not (ltb params.max_ihave_messages (lookup_or 0 p gs.peerhave + 1))
      && not (leb params.max_ihave_length (lookup_or 0 p gs.iasked))

  -- The two outcomes of a call: nothing is asked for and the counter of asked ids stays, or one
  -- IWANT is sent, whose ids are some of those collected, and the counter rises by their number.
  abbrev pub Outcomes : Router → ℕ → ControlMessage → Type 0
  Outcomes gs p ctl =
      ((gs' : Router) × (handle_ihave s params env gs p ctl ≡ some ([], gs'))
        × (gs'.iasked ≡ gs.iasked)
        × (gs'.mesh ≡ gs.mesh))
      ⊎ ((lst : List ℕ) × (gs' : Router) × (handle_ihave s params env gs p ctl
            ≡ some (lst ∷ [], gs'))
          × (answers gs p ≡ true)
          × (lst ≡ take (length lst) (shuffle env.draws (collected gs p ctl)))
          × (0 < length lst)
          × (gs'.iasked ≡ insert p (lookup_or 0 p gs.iasked + length lst) gs.iasked)
          × (lookup_or 0 p gs.iasked + length lst ≤ params.max_ihave_length)
          × (gs'.mesh ≡ gs.mesh))

  pub handle_ihave_cases :
      (gs : Router) (p : ℕ) (ctl : ControlMessage) → IsIntn env.draw_index → Outcomes gs p ctl
  unfolding handle_ihave
  handle_ihave_cases gs p ctl draw =
      elim (Bool-cases (answers gs p && ltb 0 (length (collected gs p ctl)))) [
        | inl asks ↦
            let (lst, gs', e, l, pos, a, m, ph, me) =
              ask_for_lem (counted gs p) p (collected gs p ctl) draw (ground arith)
                (ground (arith, lookup-insert p p (lookup_or 0 p gs.peerhave + 1) gs.peerhave)) in
            inr (
              lst,
              gs',
              ground (arith, e, lookup-insert p p (lookup_or 0 p gs.peerhave + 1) gs.peerhave),
              ground arith,
              l,
              pos,
              a,
              m,
              me,
            )
        | inr silent ↦ elim (Bool-cases (s.lt (env.score p) env.gossip_threshold)) [
          | inl low ↦ inl (gs, ground arith, refl, refl)
          | inr high ↦ inl (
            counted gs p,
            ground (arith, lookup-insert p p (lookup_or 0 p gs.peerhave + 1) gs.peerhave),
            refl,
            refl,
          )
        ]
      ]

  wanted-counted :
      (gs : Router) (p k : ℕ) (ihaves : List ControlIHave)
      → wanted (counted gs p) p k ihaves ≡ wanted gs p k ihaves
  wanted-counted gs p k [] = refl
  wanted-counted gs p k (i ∷ is) = ground (arith, wanted-counted gs p k is)

  -- `handleIHave` never panics, given that `rand.Intn` returns a number in its range.
  pub handle_ihave-total :
      (gs : Router) (p : ℕ) (ctl : ControlMessage)
      → IsIntn env.draw_index
      → (iwant : List (List ℕ)) × (gs' : Router) × (handle_ihave s params env gs p ctl
          ≡ some (iwant, gs'))
  handle_ihave-total gs p ctl draw = elim (handle_ihave_cases gs p ctl draw) [
    | inl (gs', e, _, _) ↦ ([], gs', e)
    | inr (lst, gs', e, _, _, _, _, _, _) ↦ (lst ∷ [], gs', e)
  ]

  -- Every id that an IWANT asks for was advertised in this call, for a topic that we are in the
  -- mesh of and that the peer filter allows, and is not seen; the peer is not below the gossip
  -- threshold; and no id is asked for twice.
  pub handle_ihave-asks :
      (gs gs' : Router) (p k : ℕ) (ctl : ControlMessage) (lst : List ℕ) (more : List (List ℕ))
      → IsIntn env.draw_index
      → handle_ihave s params env gs p ctl ≡ some (lst ∷ more, gs')
      → member k lst ≡ true
      → (wanted gs p k ctl.ihave ≡ true)
        × (s.lt (env.score p) env.gossip_threshold ≡ false)
        × (more ≡ [])
        × IsDistinct lst
  handle_ihave-asks gs gs' p k ctl lst more draw e m = elim (handle_ihave_cases gs p ctl draw) [
    | inl (gs1, e1, _, _) ↦ absurd (ground arith)
    | inr (lst1, gs1, e1, g, l, _, _, _, _) ↦
        let same : lst ≡ lst1 = ground arith in
        let from_taken =
          member-take (length lst1) k (shuffle env.draws (collected gs p ctl))
            (rw (← l) (rw (← same) m)) in
        (
          ground (
            arith,
            from_taken,
            member-shuffle env.draws k (collected gs p ctl),
            member-collect_ihaves (counted gs p) p ctl.ihave [] k,
            wanted-counted gs p k ctl.ihave,
          ),
          ground arith,
          ground arith,
          rw (same, l)
              (IsDistinct-take (length lst1) _ (
                IsDistinct-shuffle env.draws (collected gs p ctl)
                  (IsDistinct-collect_ihaves (counted gs p) p ctl.ihave [] tt))),
        )
  ]
