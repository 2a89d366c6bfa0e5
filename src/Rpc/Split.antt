-- ===== src/Rpc/Split.antt =====
-- pubsub.go: `split`, with a consumer that takes every part. The extensions of a control message are
-- left out.
pub mod Content
pub mod Ids
pub mod Whole
use go_libp2p_pubsub.Prelude.{
  ℕ, ◌+◌, Bool, true, false, ◌&&◌, ◌||◌, List, [], ◌∷◌, ◌++◌, Option, none, some, length, ltb, leb,
  ◌==◌, if◌then◌else◌,
}
use go_libp2p_pubsub.Message.{Message}
use go_libp2p_pubsub.SubscriptionFilter.{SubOpts}
use go_libp2p_pubsub.Router.Env.{ControlIHave, ControlPrune, ControlMessage}
use go_libp2p_pubsub.Router.Control.{empty_control, control_or_empty}
use go_libp2p_pubsub.Rpc.{Rpc}

-- `proto.Size` of an RPC, what a message adds to it, and `controlRPCSize`; and the two limits.
pub record Sizes : Type 0 where
  pub size : Rpc → ℕ
  pub message_size : Message → ℕ
  pub control_rpc_size : Rpc → ℕ
  pub limit : ℕ
  pub control_limit : ℕ

abbrev pub exceeds_size_limits : Sizes → Rpc → Bool
exceeds_size_limits z r = ltb z.limit (z.size r) || ltb z.control_limit (z.control_rpc_size r)

abbrev pub empty_rpc : ℕ → Rpc
empty_rpc from = record {
  from = from;
  subscriptions = [];
  publish = [];
  control = none;
  partial = none;
}

-- The loop over the messages: `cur` is those of the next part, of size `used`.
unfoldable pub split_publish : Sizes → ℕ → List Message → ℕ → List Message → List Rpc
split_publish z from [] used cur =
    if ltb 0 used then record (empty_rpc from) { publish = cur } ∷ [] else []
split_publish z from (msg ∷ msgs) used cur =
    let inc = z.message_size msg in
    let cut = split_publish z from msgs inc (msg ∷ []) in
    let more = split_publish z from msgs (used + inc) (cur ++ msg ∷ []) in
    if ltb z.limit (used + inc) then record (empty_rpc from) { publish = cur } ∷ cut else more

-- The part that is being filled, and those that are full.
pub record Packing : Type 0 where
  pub next : Rpc
  pub parts : List Rpc

-- `longer` is the part with one thing more, and `alone` one with only that.
unfoldable pub pack : Sizes → Rpc → Rpc → Packing → Packing
pack z longer alone k =
    if exceeds_size_limits z longer
    then record { next = alone; parts = k.parts ++ k.next ∷ [] }
    else record k { next = longer }

abbrev pub add_sub : SubOpts → Rpc → Rpc
add_sub sub r = record r { subscriptions = r.subscriptions ++ sub ∷ [] }

-- A change of the control message of a part, which is there.
abbrev pub on_control : (ControlMessage → ControlMessage) → Rpc → Rpc
on_control f r = record r { control = some (f (control_or_empty r.control)) }

abbrev pub add_graft : ℕ → ControlMessage → ControlMessage
add_graft t c = record c { graft = c.graft ++ t ∷ [] }

abbrev pub add_prune : ControlPrune → ControlMessage → ControlMessage
add_prune p c = record c { prune = c.prune ++ p ∷ [] }

-- The first IWANT or IDONTWANT, which is there, gets one id more.
abbrev pub add_id_first : ℕ → List (List ℕ) → List (List ℕ)
add_id_first mid [] = []
add_id_first mid (ids ∷ rest) = (ids ++ mid ∷ []) ∷ rest

-- The last IHAVE, which is there, gets one id more.
abbrev pub add_id_last : ℕ → List ControlIHave → List ControlIHave
add_id_last mid [] = []
add_id_last mid (ihave ∷ []) = record ihave { message_ids = ihave.message_ids ++ mid ∷ [] } ∷ []
add_id_last mid (ihave ∷ more ∷ rest) = ihave ∷ add_id_last mid (more ∷ rest)

module _ (z : Sizes) (from : ℕ) where
  -- The part with one control entry more, or else that entry alone.
  abbrev pub pack_control : (ControlMessage → ControlMessage) → ControlMessage → Packing → Packing
  pack_control f alone k =
      pack z (on_control f k.next) (record (empty_rpc from) { control = some alone }) k

  unfoldable pub split_subs : List SubOpts → Packing → Packing
  unfolding pack
  split_subs [] k = k
  split_subs (sub ∷ subs) k =
      split_subs subs (pack z (add_sub sub k.next) (add_sub sub (empty_rpc from)) k)

  unfoldable pub split_grafts : List ℕ → Packing → Packing
  unfolding pack
  split_grafts [] k = k
  split_grafts (t ∷ ts) k =
      split_grafts ts (pack_control (add_graft t) (add_graft t empty_control) k)

  unfoldable pub split_prunes : List ControlPrune → Packing → Packing
  unfolding pack
  split_prunes [] k = k
  split_prunes (p ∷ ps) k =
      split_prunes ps (pack_control (add_prune p) (add_prune p empty_control) k)

  -- The loop over the ids of an IWANT or an IDONTWANT, whose field `put` writes and `get` reads.
  unfoldable pub split_ids :
      (ControlMessage → List (List ℕ))
      → (List (List ℕ) → ControlMessage → ControlMessage)
      → List ℕ
      → Packing
      → Packing
  unfolding pack
  split_ids get put [] k = k
  split_ids get put (mid ∷ mids) k =
      split_ids get put mids (
        pack_control (λ c. put (add_id_first mid (get c)) c) (put ((mid ∷ []) ∷ []) empty_control)
          k)

  -- A part without an entry gets an empty one first.
  unfoldable pub split_entries :
      (ControlMessage → List (List ℕ))
      → (List (List ℕ) → ControlMessage → ControlMessage)
      → List (List ℕ)
      → Packing
      → Packing
  unfolding split_ids pack
  split_entries get put [] k = k
  split_entries get put (ids ∷ entries) k =
      let opened = pack_control (put ([] ∷ [])) (put ([] ∷ []) empty_control) k in
      split_entries get put entries (
        split_ids get put ids
          (if length (get (control_or_empty k.next.control)) == 0 then opened else k))

  unfoldable pub split_ihave_ids : ℕ → List ℕ → Packing → Packing
  unfolding pack
  split_ihave_ids topic [] k = k
  split_ihave_ids topic (mid ∷ mids) k = split_ihave_ids topic mids (
      pack_control (λ c. record c { ihave = add_id_last mid c.ihave })
        (record empty_control { ihave = record { topic_id = topic; message_ids = mid ∷ [] } ∷ [] })
        k)

  -- Each IHAVE starts a new one, since the code compares the pointers of the topics, which differ
  -- from one IHAVE to the next.
  unfoldable pub split_ihaves : List ControlIHave → Packing → Packing
  unfolding split_ihave_ids pack
  split_ihaves [] k = k
  split_ihaves (ihave ∷ ihaves) k =
      let new : ControlIHave = record { topic_id = ihave.topic_id; message_ids = [] } in
      split_ihaves ihaves (
        split_ihave_ids ihave.topic_id ihave.message_ids (
          pack_control (λ c. record c { ihave = c.ihave ++ new ∷ [] })
            (record empty_control { ihave = new ∷ [] }) k))

  unfoldable pub split_control : ControlMessage → Packing → Packing
  unfolding split_grafts split_prunes split_entries split_ihaves
  split_control ctl k =
      let k1 = pack_control (λ c. c) empty_control k in
      let k2 = split_prunes ctl.prune (split_grafts ctl.graft k1) in
      let k3 = split_entries ControlMessage.iwant (λ e c. record c { iwant = e }) ctl.iwant k2 in
      let k4 =
        split_entries ControlMessage.idontwant (λ e c. record c { idontwant = e }) ctl.idontwant
          k3 in
      split_ihaves ctl.ihave k4

-- The parts of the RPC without its messages, where it does not fit.
unfoldable pub split_rest : Sizes → Rpc → List Rpc
unfolding split_subs split_control
split_rest z r =
    let k = split_subs z r.from r.subscriptions (record { next = empty_rpc r.from; parts = [] }) in
    let done : Packing = elim r.control [ none ↦ k | some ctl ↦ split_control z r.from ctl k ] in
    if ltb 0 (z.size done.next) then done.parts ++ done.next ∷ [] else done.parts

unfoldable pub split : Sizes → Rpc → List Rpc
unfolding split_publish split_rest
split z r =
    let rest = record r { publish = [] } in
    let small = if z.size rest == 0 then [] else rest ∷ [] in
    split_publish z r.from r.publish 0 []
    ++ (if leb (z.size rest) z.limit && leb (z.control_rpc_size rest) z.control_limit
        then small
        else split_rest z rest)
