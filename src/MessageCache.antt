-- ===== src/MessageCache.antt =====
-- mcache.go: the sliding window of recent messages.
-- Message ids, topics and peers are numbers, since the code only compares them. A message is any
-- type; `msg_id` is the cache's id function and `topic` its `GetTopic`. A panic is `none`.
pub mod Listing
pub mod Invariant
pub mod Window
pub mod Tests
use go_libp2p_pubsub.Prelude.{
  ℕ, ◌+◌, Bool, List, [], ◌∷◌, ◌++◌, Option, none, some, Map, lookup, lookup_or, insert, delete,
  take, ltb, ◌==◌, ◌||◌, false, if◌then◌else◌,
}

pub record CacheEntry : Type 0 where
  pub mid : ℕ
  pub topic : ℕ

pub record MessageCache (M : Type 0) : Type 0 where
  pub msgs : Map M
  pub peertx : Map (Map ℕ)
  pub history : List (List CacheEntry)
  pub gossip : ℕ
  pub msg_id : M → ℕ

-- A slice of empty slots.
abbrev pub empty_slots : ℕ → List (List CacheEntry)
empty_slots Prim.Native.Nat.zero = []
empty_slots (Prim.Native.Nat.suc n) = [] ∷ empty_slots n

-- All but the last element, and the last.
abbrev pub split_last {ℓ} : {A : Type ℓ} → List A → Option (List A × A)
split_last [] = none
split_last (x ∷ []) = some ([], x)
split_last (x ∷ y ∷ ys) = elim (split_last (y ∷ ys)) [
  | none ↦ none
  | some (before, last) ↦ some (x ∷ before, last)
]

abbrev pub delete_entries {ℓ} : {V : Type ℓ} → List CacheEntry → Map V → Map V
delete_entries [] m = m
delete_entries (e ∷ es) m = delete_entries es (delete e.mid m)

-- `history[0] = append(history[0], entry)`.
abbrev pub append_first : CacheEntry → List (List CacheEntry) → Option (List (List CacheEntry))
append_first e [] = none
append_first e (slot ∷ slots) = some ((slot ++ e ∷ []) ∷ slots)

abbrev pub slot_ids : ℕ → List CacheEntry → List ℕ
slot_ids topic [] = []
slot_ids topic (e ∷ es) = if e.topic == topic then e.mid ∷ slot_ids topic es else slot_ids topic es

abbrev pub window_ids : ℕ → List (List CacheEntry) → List ℕ
window_ids topic [] = []
window_ids topic (slot ∷ slots) = slot_ids topic slot ++ window_ids topic slots

module _ {M : Type 0} where
  unfoldable pub new_message_cache : (M → ℕ) → ℕ → ℕ → Option (MessageCache M)
  new_message_cache msg_id gossip history =
      if ltb history gossip
      then none
      else some (record {
        msgs = [];
        peertx = [];
        history = empty_slots history;
        gossip = gossip;
        msg_id = msg_id;
      })

  unfoldable pub set_msg_id_fn : MessageCache M → (M → ℕ) → MessageCache M
  set_msg_id_fn mc msg_id = record mc { msg_id = msg_id }

  unfoldable pub put : (M → ℕ) → MessageCache M → M → Option (MessageCache M)
  put topic mc msg =
      elim (append_first (record { mid = mc.msg_id msg; topic = topic msg }) mc.history) [
        | none ↦ none
        | some history ↦
            some (record mc { msgs = insert (mc.msg_id msg) msg mc.msgs; history = history })
      ]

  unfoldable pub get : MessageCache M → ℕ → Option M
  get mc mid = lookup mid mc.msgs

  -- The message, and how often the peer has now been given it.
  unfoldable pub get_for_peer : MessageCache M → ℕ → ℕ → Option (M × ℕ) × MessageCache M
  get_for_peer mc mid p = elim (lookup mid mc.msgs) [
    | none ↦ (none, mc)
    | some m ↦
        let tx = lookup_or [] mid mc.peertx in
        let count = lookup_or 0 p tx + 1 in
        (some (m, count), record mc { peertx = insert mid (insert p count tx) mc.peertx })
  ]

  unfoldable pub get_gossip_ids : MessageCache M → ℕ → List ℕ
  get_gossip_ids mc topic = window_ids topic (take mc.gossip mc.history)

  -- The last slot is emptied, and each slot moves one place up.
  unfoldable pub shift : MessageCache M → Option (MessageCache M)
  shift mc = elim (split_last mc.history) [
    | none ↦ none
    | some (before, last) ↦ some (record mc {
      msgs = delete_entries last mc.msgs;
      peertx = delete_entries last mc.peertx;
      history = [] ∷ before;
    })
  ]
