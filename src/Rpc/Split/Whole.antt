-- ===== src/Rpc/Split/Whole.antt =====
-- Nothing is lost and nothing doubled.
use go_libp2p_pubsub.Prelude.{
  ℕ, ◌+◌, ◌<◌, ◌≡◌, refl, ap, Bool, ◌&&◌, List, [], ◌∷◌, ◌++◌, Option, none, some, count_of,
  count_of-append, Bool-cases, Option-cases, inl, inr, arith, ltb, leb, ◌==◌, ==_iff, if◌then◌else◌,
}
use go_libp2p_pubsub.Message.{Message}
use go_libp2p_pubsub.Router.Env.{ControlIHave, ControlMessage}
use go_libp2p_pubsub.Router.Control.{empty_control, control_or_empty}
use go_libp2p_pubsub.Rpc.{Rpc}
use go_libp2p_pubsub.Rpc.Split.{
  Sizes, exceeds_size_limits, empty_rpc, split_publish, Packing, pack, pack_control, on_control,
  add_id_last, split_subs, split_grafts, split_prunes, split_entries, split_ihave_ids, split_ihaves,
  split_control, split_rest, split,
}
use go_libp2p_pubsub.Rpc.Split.Content.{
  Item, of_message, of_iwant, of_idontwant, of_ihave, ihaves_in, in_control, in_partial, amount,
  total, total-append, packed, pack_control-amount, split_subs-amount, split_grafts-amount,
  split_prunes-amount,
}
use go_libp2p_pubsub.Rpc.Split.Ids.{Field, split_entries-amount}

module _ (t : Item → Bool) where
  -- The topic of the last IHAVE.
  abbrev last_topic : List ControlIHave → Option ℕ
  last_topic [] = none
  last_topic (ihave ∷ []) = some ihave.topic_id
  last_topic (ihave ∷ more ∷ rest) = last_topic (more ∷ rest)

  add_id_last-amount :
      (topic mid : ℕ) (e : List ControlIHave)
      → last_topic e ≡ some topic
      → (ihaves_in t (add_id_last mid e)
          ≡ ihaves_in t e + count_of (λ k. t (of_ihave topic k)) (mid ∷ []))
        × (last_topic (add_id_last mid e) ≡ some topic)
  add_id_last-amount topic mid [] h = absurd (ground (arith, h))
  add_id_last-amount topic mid (ihave ∷ []) h =
      let same : ihave.topic_id ≡ topic = ground (arith, h) in
      (
        rw (← same) (
            omega (
              arith,
              count_of-append (λ k. t (of_ihave ihave.topic_id k)) ihave.message_ids (mid ∷ []),
            )),
        h,
      )
  add_id_last-amount topic mid (ihave ∷ more ∷ []) h =
      let (n, last) = add_id_last-amount topic mid (more ∷ []) h in (omega (arith, n), last)
  add_id_last-amount topic mid (ihave ∷ more ∷ other ∷ rest) h =
      let (n, last) = add_id_last-amount topic mid (more ∷ other ∷ rest) h in
      (omega (arith, n), last)

  last_topic-append :
      (e : List ControlIHave) (new : ControlIHave)
      → (last_topic (e ++ new ∷ []) ≡ some new.topic_id)
        × (ihaves_in t (e ++ new ∷ []) ≡ ihaves_in t e + ihaves_in t (new ∷ []))
  last_topic-append [] new = (refl, omega arith)
  last_topic-append (x ∷ []) new = (refl, omega arith)
  last_topic-append (x ∷ y ∷ e) new =
      let (last, n) = last_topic-append (y ∷ e) new in (last, omega (arith, n))

  abbrev IsAbout : ℕ → Packing → Type 0
  IsAbout topic k = last_topic (control_or_empty k.next.control).ihave ≡ some topic

  pack_control-IsAbout :
      (z : Sizes) (from topic : ℕ) (f : ControlMessage → ControlMessage) (alone : ControlMessage)
      → (k : Packing) → last_topic (f (control_or_empty k.next.control)).ihave ≡ some topic
      → last_topic alone.ihave ≡ some topic
      → IsAbout topic (pack_control z from f alone k)
  unfolding pack
  pack_control-IsAbout z from topic f alone k h h' =
      elim (Bool-cases (exceeds_size_limits z (on_control f k.next))) [
        | inl over ↦ rw (over, pack) h'
        | inr fits ↦ rw (fits, pack) h
      ]

  split_ihave_ids-amount :
      (z : Sizes) (from topic : ℕ) (mids : List ℕ) (k : Packing)
      → IsAbout topic k
      → packed t (split_ihave_ids z from topic mids k)
        ≡ packed t k + count_of (λ i. t (of_ihave topic i)) mids
  unfolding split_ihave_ids
  split_ihave_ids-amount z from topic [] k h = omega arith
  split_ihave_ids-amount z from topic (mid ∷ mids) k h =
      let f : ControlMessage → ControlMessage = λ c. record c { ihave = add_id_last mid c.ihave } in
      let alone : ControlMessage = record empty_control {
        ihave = record { topic_id = topic; message_ids = mid ∷ [] } ∷ [];
      } in
      let c = control_or_empty k.next.control in
      let (n, last) = add_id_last-amount topic mid c.ihave h in
      omega (
        arith,
        split_ihave_ids-amount z from topic mids (pack_control z from f alone k)
            (pack_control-IsAbout z from topic f alone k last refl),
        pack_control-amount t z from f alone k (count_of (λ i. t (of_ihave topic i)) (mid ∷ []))
            (omega (arith, n)) (omega arith),
      )

  split_ihaves-amount :
      (z : Sizes) (from : ℕ) (ihaves : List ControlIHave) (k : Packing)
      → packed t (split_ihaves z from ihaves k) ≡ packed t k + ihaves_in t ihaves
  unfolding split_ihaves
  split_ihaves-amount z from [] k = omega arith
  split_ihaves-amount z from (ihave ∷ ihaves) k =
      let new : ControlIHave = record { topic_id = ihave.topic_id; message_ids = [] } in
      let f : ControlMessage → ControlMessage = λ c. record c { ihave = c.ihave ++ new ∷ [] } in
      let alone : ControlMessage = record empty_control { ihave = new ∷ [] } in
      let c = control_or_empty k.next.control in
      let (last, n) = last_topic-append c.ihave new in
      let k1 = pack_control z from f alone k in
      omega (
        arith,
        split_ihaves-amount z from ihaves
            (split_ihave_ids z from ihave.topic_id ihave.message_ids k1),
        split_ihave_ids-amount z from ihave.topic_id ihave.message_ids k1
            (pack_control-IsAbout z from ihave.topic_id f alone k last refl),
        pack_control-amount t z from f alone k 0 (omega (arith, n)) (omega arith),
      )

  abbrev iwant_field : Field t
  iwant_field = record {
    get = ControlMessage.iwant;
    put = (λ e c. record c { iwant = e });
    item = of_iwant;
    get-put = (λ e c. refl);
    get-empty = refl;
    in-put = (λ e c. omega arith);
  }

  abbrev idontwant_field : Field t
  idontwant_field = record {
    get = ControlMessage.idontwant;
    put = (λ e c. record c { idontwant = e });
    item = of_idontwant;
    get-put = (λ e c. refl);
    get-empty = refl;
    in-put = (λ e c. omega arith);
  }

  split_control-amount :
      (z : Sizes) (from : ℕ) (ctl : ControlMessage) (k : Packing)
      → packed t (split_control z from ctl k) ≡ packed t k + in_control t ctl
  unfolding split_control
  split_control-amount z from ctl k =
      let k1 = pack_control z from (λ c. c) empty_control k in
      let kg = split_grafts z from ctl.graft k1 in
      let k2 = split_prunes z from ctl.prune kg in
      let k3 = split_entries z from iwant_field.get iwant_field.put ctl.iwant k2 in
      let k4 = split_entries z from idontwant_field.get idontwant_field.put ctl.idontwant k3 in
      omega (
        arith,
        pack_control-amount t z from (λ c. c) empty_control k 0 (omega arith) (omega arith),
        split_grafts-amount t z from ctl.graft k1,
        split_prunes-amount t z from ctl.prune kg,
        split_entries-amount t z from iwant_field ctl.iwant k2,
        split_entries-amount t z from idontwant_field ctl.idontwant k3,
        split_ihaves-amount z from ctl.ihave k4,
      )

  split_publish-amount :
      (z : Sizes) (from : ℕ) (msgs : List Message) (used : ℕ) (cur : List Message)
      → ((m : Message) → 0 < z.message_size m)
      → (used ≡ 0 → cur ≡ [])
      → total t (split_publish z from msgs used cur)
        ≡ count_of (λ m. t (of_message m)) cur + count_of (λ m. t (of_message m)) msgs
  unfolding split_publish
  split_publish-amount z from [] used cur pos start = elim (Bool-cases (ltb 0 used)) [
    | inl some_left ↦ rw (some_left, split_publish) (omega arith)
    | inr nothing ↦ rw (nothing, split_publish, start (ground (arith, nothing))) (omega arith)
  ]
  split_publish-amount z from (m ∷ msgs) used cur pos start =
      let inc = z.message_size m in
      elim (Bool-cases (ltb z.limit (used + inc))) [
        | inl over ↦
            rw (over, split_publish)
              (omega (
                arith,
                split_publish-amount z from msgs inc (m ∷ []) pos
                    (λ h. absurd (omega (arith, pos m, h))),
              ))
        | inr fits ↦
            rw (fits, split_publish)
              (omega (
                arith,
                split_publish-amount z from msgs (used + inc) (cur ++ m ∷ []) pos
                    (λ h. absurd (omega (arith, pos m, h))),
                count_of-append (λ x. t (of_message x)) cur (m ∷ []),
              ))
      ]

  -- The last part is left out only if there is nothing in it.
  last_part :
      (z : Sizes) (k : Packing)
      → ((q : Rpc) → z.size q ≡ 0 → amount t q ≡ 0)
      → total t (if ltb 0 (z.size k.next) then k.parts ++ k.next ∷ [] else k.parts) ≡ packed t k
  last_part z k sized = elim (Bool-cases (ltb 0 (z.size k.next))) [
    | inl more ↦ rw more (omega (arith, total-append t k.parts (k.next ∷ [])))
    | inr nothing ↦ rw nothing (omega (arith, sized k.next (ground (arith, nothing))))
  ]

  split_rest-amount :
      (z : Sizes) (r : Rpc)
      → ((q : Rpc) → z.size q ≡ 0 → amount t q ≡ 0)
      → r.publish ≡ []
      → r.partial ≡ none
      → total t (split_rest z r) ≡ amount t r
  unfolding split_rest
  split_rest-amount z r sized no_publish no_partial =
      let k0 : Packing = record { next = empty_rpc r.from; parts = [] } in
      let k = split_subs z r.from r.subscriptions k0 in
      let subs = split_subs-amount t z r.from r.subscriptions k0 in
      let no_messages = ap (count_of (λ m. t (of_message m))) no_publish in
      let no_partials = ap (in_partial t) no_partial in
      elim (Option-cases r.control) [
        | inl without ↦
            rw (without, split_rest)
              (omega (arith, last_part z k sized, subs, no_messages, no_partials))
        | inr (ctl, present) ↦
            rw (present, split_rest)
              (omega (
                arith,
                last_part z (split_control z r.from ctl k) sized,
                split_control-amount z r.from ctl k,
                subs,
                no_messages,
                no_partials,
              ))
      ]

-- Splitting loses nothing and doubles nothing: of the messages, subscriptions, grafts, prunes and ids of
-- an RPC as many pass any test as of those of its parts taken together, whatever the limits are. It is
-- assumed that each message adds something to the size of an RPC, that an RPC of size 0 is empty, and
-- that there is no partial message.
pub total-split :
    (t : Item → Bool) (z : Sizes) (r : Rpc)
    → ((m : Message) → 0 < z.message_size m)
    → ((q : Rpc) → z.size q ≡ 0 → amount t q ≡ 0)
    → r.partial ≡ none
    → total t (split z r) ≡ amount t r
unfolding split
total-split t z r pos sized no_partial =
    let rest = record r { publish = [] } in
    let messages = split_publish-amount t z r.from r.publish 0 [] pos (λ h. refl) in
    let parts = split_publish z r.from r.publish 0 [] in
    let slow = split_rest-amount t z rest sized refl no_partial in
    elim (Bool-cases (leb (z.size rest) z.limit && leb (z.control_rpc_size rest) z.control_limit)) [
      | inr large ↦
          rw (large, split)
            (omega (arith, messages, slow, total-append t parts (split_rest z rest)))
      | inl small ↦ elim (Bool-cases (z.size rest == 0)) [
        | inl empty ↦
            rw (small, split)
              (rw empty (
                omega (
                  arith,
                  messages,
                  total-append t parts [],
                  sized rest ((==_iff (z.size rest) 0).0 empty),
                )))
        | inr something ↦
            rw (small, split)
              (rw something (omega (arith, messages, total-append t parts (rest ∷ []))))
      ]
    ]
