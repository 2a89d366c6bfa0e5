-- ===== src/Rpc/Split/Content.antt =====
-- What is in an RPC and in its parts.
use go_libp2p_pubsub.Prelude.{
  ℕ, ◌+◌, ◌≡◌, Bool, List, [], ◌∷◌, ◌++◌, Option, none, some, count_of, count_of-append, Bool-cases,
  inl, inr, arith,
}
use go_libp2p_pubsub.Message.{Message}
use go_libp2p_pubsub.SubscriptionFilter.{SubOpts}
use go_libp2p_pubsub.Router.Env.{ControlIHave, ControlPrune, ControlMessage}
use go_libp2p_pubsub.Router.Control.{empty_control, control_or_empty}
use go_libp2p_pubsub.Rpc.{Rpc}
use go_libp2p_pubsub.Rpc.Split.{
  Sizes, exceeds_size_limits, empty_rpc, Packing, pack, pack_control, add_sub, on_control,
  add_graft, add_prune, split_subs, split_grafts, split_prunes,
}

-- One thing that an RPC carries.
pub data Item : Type 0 where
  of_message : Message → Item
  of_sub : SubOpts → Item
  of_graft : ℕ → Item
  of_prune : ControlPrune → Item
  of_iwant : ℕ → Item
  of_idontwant : ℕ → Item
  of_ihave : ℕ → ℕ → Item
  of_partial : ℕ → Item

module _ (t : Item → Bool) where
  -- How many of the ids in a list of lists pass a test.
  abbrev pub ids_in : (ℕ → Item) → List (List ℕ) → ℕ
  ids_in f [] = 0
  ids_in f (ids ∷ rest) = count_of (λ k. t (f k)) ids + ids_in f rest

  abbrev pub ihaves_in : List ControlIHave → ℕ
  ihaves_in [] = 0
  ihaves_in (ihave ∷ rest) =
      count_of (λ k. t (of_ihave ihave.topic_id k)) ihave.message_ids + ihaves_in rest

  abbrev pub in_control : ControlMessage → ℕ
  in_control c =
      count_of (λ k. t (of_graft k)) c.graft
      + count_of (λ p. t (of_prune p)) c.prune
      + ids_in of_iwant c.iwant
      + ids_in of_idontwant c.idontwant
      + ihaves_in c.ihave

  abbrev pub in_partial : Option ℕ → ℕ
  in_partial none = 0
  in_partial (some p) = count_of (λ q. t (of_partial q)) (p ∷ [])

  -- How many things in an RPC pass a test, and how many in several RPCs.
  abbrev pub amount : Rpc → ℕ
  amount r =
      count_of (λ m. t (of_message m)) r.publish
      + count_of (λ s. t (of_sub s)) r.subscriptions
      + in_control (control_or_empty r.control)
      + in_partial r.partial

  abbrev pub total : List Rpc → ℕ
  total [] = 0
  total (r ∷ rs) = amount r + total rs

  pub total-append : (rs ss : List Rpc) → total (rs ++ ss) ≡ total rs + total ss
  total-append [] ss = omega arith
  total-append (r ∷ rs) ss = omega (arith, total-append rs ss)

  abbrev pub packed : Packing → ℕ
  packed k = total k.parts + amount k.next

  pub pack-amount :
      (z : Sizes) (longer alone : Rpc) (k : Packing) (n : ℕ)
      → amount longer ≡ amount k.next + n
      → amount alone ≡ n
      → packed (pack z longer alone k) ≡ packed k + n
  unfolding pack
  pack-amount z longer alone k n a b = elim (Bool-cases (exceeds_size_limits z longer)) [
    | inl over ↦ rw (over, pack) (omega (arith, a, b, total-append k.parts (k.next ∷ [])))
    | inr fits ↦ rw (fits, pack) (omega (arith, a))
  ]

  pub split_subs-amount :
      (z : Sizes) (from : ℕ) (subs : List SubOpts) (k : Packing)
      → packed (split_subs z from subs k) ≡ packed k + count_of (λ s. t (of_sub s)) subs
  unfolding split_subs
  split_subs-amount z from [] k = omega arith
  split_subs-amount z from (sub ∷ subs) k =
      let k1 = pack z (add_sub sub k.next) (add_sub sub (empty_rpc from)) k in
      omega (
        arith,
        split_subs-amount z from subs k1,
        pack-amount z (add_sub sub k.next) (add_sub sub (empty_rpc from)) k
            (count_of (λ s. t (of_sub s)) (sub ∷ []))
            (omega (arith, count_of-append (λ s. t (of_sub s)) k.next.subscriptions (sub ∷ [])))
            (omega arith),
      )

  pub pack_control-amount :
      (z : Sizes) (from : ℕ) (f : ControlMessage → ControlMessage) (alone : ControlMessage)
      → (k : Packing) (n : ℕ)
      → in_control (f (control_or_empty k.next.control))
        ≡ in_control (control_or_empty k.next.control) + n
      → in_control alone ≡ n
      → packed (pack_control z from f alone k) ≡ packed k + n
  pack_control-amount z from f alone k n a b =
      pack-amount z (on_control f k.next) (record (empty_rpc from) { control = some alone }) k n
        (omega (arith, a)) (omega (arith, b))

  pub split_grafts-amount :
      (z : Sizes) (from : ℕ) (ts : List ℕ) (k : Packing)
      → packed (split_grafts z from ts k) ≡ packed k + count_of (λ g. t (of_graft g)) ts
  unfolding split_grafts
  split_grafts-amount z from [] k = omega arith
  split_grafts-amount z from (g ∷ gs) k = omega (
    arith,
    split_grafts-amount z from gs (pack_control z from (add_graft g) (add_graft g empty_control) k),
    pack_control-amount z from (add_graft g) (add_graft g empty_control) k
        (count_of (λ x. t (of_graft x)) (g ∷ []))
        (omega (
          arith,
          count_of-append (λ x. t (of_graft x)) (control_or_empty k.next.control).graft (g ∷ []),
        ))
        (omega arith),
  )

  pub split_prunes-amount :
      (z : Sizes) (from : ℕ) (ps : List ControlPrune) (k : Packing)
      → packed (split_prunes z from ps k) ≡ packed k + count_of (λ p. t (of_prune p)) ps
  unfolding split_prunes
  split_prunes-amount z from [] k = omega arith
  split_prunes-amount z from (p ∷ ps) k = omega (
    arith,
    split_prunes-amount z from ps (pack_control z from (add_prune p) (add_prune p empty_control) k),
    pack_control-amount z from (add_prune p) (add_prune p empty_control) k
        (count_of (λ x. t (of_prune x)) (p ∷ []))
        (omega (
          arith,
          count_of-append (λ x. t (of_prune x)) (control_or_empty k.next.control).prune (p ∷ []),
        ))
        (omega arith),
  )
