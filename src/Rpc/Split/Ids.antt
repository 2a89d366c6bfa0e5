-- ===== src/Rpc/Split/Ids.antt =====
-- The ids of IWANTs and IDONTWANTs in the parts.
use go_libp2p_pubsub.Prelude.{
  ℕ, ◌+◌, ◌≡◌, refl, ap, Bool, true, false, List, [], ◌∷◌, count_of, count_of-append, length,
  Bool-cases, inl, inr, arith, ◌==◌,
}
use go_libp2p_pubsub.Router.Env.{ControlMessage}
use go_libp2p_pubsub.Router.Control.{empty_control, control_or_empty}
use go_libp2p_pubsub.Rpc.Split.{
  Sizes, exceeds_size_limits, Packing, pack, pack_control, on_control, add_id_first, split_ids,
  split_entries,
}
use go_libp2p_pubsub.Rpc.Split.Content.{Item, ids_in, in_control, packed, pack_control-amount}

module _ (t : Item → Bool) where
  -- The field of a control message that holds lists of ids.
  pub record Field : Type 0 where
    pub get : ControlMessage → List (List ℕ)
    pub put : List (List ℕ) → ControlMessage → ControlMessage
    pub item : ℕ → Item
    pub get-put : (e : List (List ℕ)) (c : ControlMessage) → get (put e c) ≡ e
    pub get-empty : get empty_control ≡ []
    pub in-put :
        (e : List (List ℕ)) (c : ControlMessage)
        → in_control t (put e c) + ids_in t item (get c) ≡ in_control t c + ids_in t item e

  ids_in-nil : (f : ℕ → Item) (e : List (List ℕ)) → (length e == 0) ≡ true → ids_in t f e ≡ 0
  ids_in-nil f [] h = refl
  ids_in-nil f (ids ∷ e) h = absurd (ground (arith, h))

  -- The part being filled has an entry of the field.
  abbrev IsOpen : Field → Packing → Type 0
  IsOpen w k = (length (w.get (control_or_empty k.next.control)) == 0) ≡ false

  add_id_first-amount :
      (f : ℕ → Item) (mid : ℕ) (e : List (List ℕ))
      → (length e == 0) ≡ false
      → (ids_in t f (add_id_first mid e) ≡ ids_in t f e + count_of (λ k. t (f k)) (mid ∷ []))
        × ((length (add_id_first mid e) == 0) ≡ false)
  add_id_first-amount f mid [] h = absurd (ground (arith, h))
  add_id_first-amount f mid (ids ∷ e) h =
      (omega (arith, count_of-append (λ k. t (f k)) ids (mid ∷ [])), ground arith)

  pack_control-IsOpen :
      (z : Sizes) (from : ℕ) (w : Field) (f : ControlMessage → ControlMessage)
      (alone : ControlMessage)
      → (k : Packing) → (length (w.get (f (control_or_empty k.next.control))) == 0) ≡ false
      → (length (w.get alone) == 0) ≡ false
      → IsOpen w (pack_control z from f alone k)
  unfolding pack
  pack_control-IsOpen z from w f alone k h h' =
      elim (Bool-cases (exceeds_size_limits z (on_control f k.next))) [
        | inl over ↦ rw (over, pack) h'
        | inr fits ↦ rw (fits, pack) h
      ]

  split_ids-amount :
      (z : Sizes) (from : ℕ) (w : Field) (mids : List ℕ) (k : Packing)
      → IsOpen w k
      → packed t (split_ids z from w.get w.put mids k)
        ≡ packed t k + count_of (λ i. t (w.item i)) mids
  unfolding split_ids
  split_ids-amount z from w [] k h = omega arith
  split_ids-amount z from w (mid ∷ mids) k h =
      let f : ControlMessage → ControlMessage = λ c. w.put (add_id_first mid (w.get c)) c in
      let alone = w.put ((mid ∷ []) ∷ []) empty_control in
      let c = control_or_empty k.next.control in
      let (more, still) = add_id_first-amount w.item mid (w.get c) h in
      let k1 = pack_control z from f alone k in
      omega (
        arith,
        split_ids-amount z from w mids k1 (
            pack_control-IsOpen z from w f alone k
              (rw (w.get-put (add_id_first mid (w.get c)) c) still)
              (rw (w.get-put ((mid ∷ []) ∷ []) empty_control) (ground arith))),
        pack_control-amount t z from f alone k (count_of (λ i. t (w.item i)) (mid ∷ []))
            (omega (arith, more, w.in-put (add_id_first mid (w.get c)) c))
            (omega
              (arith, w.in-put ((mid ∷ []) ∷ []) empty_control, ap (ids_in t w.item) w.get-empty)),
      )

  pub split_entries-amount :
      (z : Sizes) (from : ℕ) (w : Field) (entries : List (List ℕ)) (k : Packing)
      → packed t (split_entries z from w.get w.put entries k) ≡ packed t k + ids_in t w.item entries
  unfolding split_entries
  split_entries-amount z from w [] k = omega arith
  split_entries-amount z from w (ids ∷ entries) k =
      let f : ControlMessage → ControlMessage = w.put ([] ∷ []) in
      let alone = w.put ([] ∷ []) empty_control in
      let c = control_or_empty k.next.control in
      let k1 = pack_control z from f alone k in
      elim (Bool-cases (length (w.get c) == 0)) [
        | inl closed ↦
            rw (closed, split_entries)
              (omega (
                arith,
                split_entries-amount z from w entries (split_ids z from w.get w.put ids k1),
                split_ids-amount z from w ids k1 (
                    pack_control-IsOpen z from w f alone k
                      (rw (w.get-put ([] ∷ []) c) (ground arith))
                      (rw (w.get-put ([] ∷ []) empty_control) (ground arith))),
                pack_control-amount t z from f alone k 0
                    (omega (arith, w.in-put ([] ∷ []) c, ids_in-nil w.item (w.get c) closed))
                    (omega
                      (arith, w.in-put ([] ∷ []) empty_control, ap (ids_in t w.item) w.get-empty)),
              ))
        | inr opened ↦
            rw (opened, split_entries)
              (omega (
                arith,
                split_entries-amount z from w entries (split_ids z from w.get w.put ids k),
                split_ids-amount z from w ids k opened,
              ))
      ]
