-- ===== src/MessageCache/Listing.antt =====
-- Where the history lists a message, and the operations as a trace.
use go_libp2p_pubsub.Prelude.{
  ℕ, suc, ◌+◌, ◌<◌, ◌≡◌, refl, inl, inr, ◌⊎◌, Bool, true, false, not, ◌&&◌, List, [], ◌∷◌, ◌++◌,
  ◌||◌, Option, none, some, length, if◌then◌else◌, Bool-cases, Option-cases, ◌==◌, arith, Map,
  is_some, lookup, lookup-delete, delete, insert,
}
use go_libp2p_pubsub.MessageCache.{
  CacheEntry, MessageCache, split_last, delete_entries, append_first, put, get_for_peer, shift,
}

-- Whether a slot lists a message.
abbrev pub names : ℕ → List CacheEntry → Bool
names mid [] = false
names mid (e ∷ es) = (e.mid == mid) || names mid es

-- The oldest slot that lists a message.
abbrev pub oldest : ℕ → List (List CacheEntry) → Option ℕ
oldest mid [] = none
oldest mid (slot ∷ slots) = elim (oldest mid slots) [
  | some k ↦ some (suc k)
  | none ↦ if names mid slot then some 0 else none
]

pub lookup-delete_entries :
    {V : Type 0} (j : ℕ) (es : List CacheEntry) (m : Map V)
    → lookup j (delete_entries es m) ≡ (if names j es then none else lookup j m)
lookup-delete_entries j [] m = refl
lookup-delete_entries j (e ∷ es) m =
    ground (arith, lookup-delete_entries j es (delete e.mid m), lookup-delete e.mid j m)

names-append :
    (j : ℕ) (es : List CacheEntry) (e : CacheEntry)
    → names j (es ++ e ∷ []) ≡ (names j es || (e.mid == j))
names-append j [] e = ground arith
names-append j (f ∷ es) e = ground (arith, names-append j es e)

-- Whether a listing stands in the last of `n` slots.
abbrev pub is_last : Option ℕ → ℕ → Bool
is_last none n = false
is_last (some k) n = suc k == n

pub oldest-lt-length :
    (j : ℕ) (h : List (List CacheEntry))
    → (oldest j h ≡ none) ⊎ ((k : ℕ) × (oldest j h ≡ some k) × (k < length h))
oldest-lt-length j [] = inl refl
oldest-lt-length j (slot ∷ slots) = elim (oldest-lt-length j slots) [
  | inl none_older ↦ elim (Bool-cases (names j slot)) [
    | inl here ↦ inr (0, ground arith, omega arith)
    | inr absent ↦ inl (ground arith)
  ]
  | inr (k, e, l) ↦ inr (suc k, ground arith, omega arith)
]

-- Moving every slot up by one ages a message by one, and only what the last slot alone lists is
-- lost.
pub oldest-split_last :
    (j : ℕ) (h before : List (List CacheEntry)) (last : List CacheEntry)
    → split_last h ≡ some (before, last)
    → (length h ≡ length before + 1)
      × (((names j last ≡ true) × (oldest j h ≡ some (length before)))
          ⊎ ((names j last ≡ false) × (oldest j h ≡ oldest j before)))
oldest-split_last j [] before last e = absurd (ground arith)
oldest-split_last j (x ∷ []) before last e = ground arith
oldest-split_last j (x ∷ y ∷ ys) before last e = elim (Option-cases (split_last (y ∷ ys))) [
  | inl miss ↦ absurd (ground arith)
  | inr ((b, l), hit) ↦ ground (arith, oldest-split_last j (y ∷ ys) b l hit)
]

pub oldest-append_first :
    (j : ℕ) (e : CacheEntry) (h h' : List (List CacheEntry))
    → append_first e h ≡ some h'
    → (length h' ≡ length h)
      × (oldest j h' ≡ (if (e.mid == j) && not (is_some (oldest j h)) then some 0 else oldest j h))
oldest-append_first j e [] h' p = absurd (ground arith)
oldest-append_first j e (slot ∷ slots) h' p = ground (arith, names-append j slot e)

pub append_first-some :
    (e : CacheEntry) (h : List (List CacheEntry))
    → 0 < length h
    → (h' : List (List CacheEntry)) × (append_first e h ≡ some h')
append_first-some e [] p = absurd (omega arith)
append_first-some e (slot ∷ slots) p = ((slot ++ e ∷ []) ∷ slots, refl)

pub split_last-some :
    (h : List (List CacheEntry))
    → 0 < length h
    → (before : List (List CacheEntry)) × (last : List CacheEntry) × (split_last h
        ≡ some (before, last))
split_last-some [] p = absurd (omega arith)
split_last-some (x ∷ []) p = ([], x, refl)
split_last-some (x ∷ y ∷ ys) p =
    let (before, last, e) = split_last-some (y ∷ ys) (omega arith) in (x ∷ before, last, rw e)

-- The operations that the router makes.
pub data Op (M : Type 0) : Type 0 where
  puts : M → Op M
  asks : ℕ → ℕ → Op M
  shifts : Op M

module _ {M : Type 0} (topic : M → ℕ) where
  unfoldable pub step : MessageCache M → Op M → Option (MessageCache M)
  step mc (puts m) = put topic mc m
  step mc (asks mid p) = some (get_for_peer mc mid p).1
  step mc shifts = shift mc

  unfoldable pub run : MessageCache M → List (Op M) → Option (MessageCache M)
  run mc [] = some mc
  run mc (op ∷ ops) = elim (step mc op) [ none ↦ none | some mc' ↦ run mc' ops ]

abbrev pub shift_count : {M : Type 0} → List (Op M) → ℕ
shift_count [] = 0
shift_count (shifts ∷ ops) = suc (shift_count ops)
shift_count (puts m ∷ ops) = shift_count ops
shift_count (asks mid p ∷ ops) = shift_count ops

pub shift_count-cons :
    {M : Type 0} (op : Op M) (ops : List (Op M))
    → shift_count (op ∷ ops) ≡ shift_count (op ∷ []) + shift_count ops
shift_count-cons (puts m) ops = omega arith
shift_count-cons (asks mid p) ops = omega arith
shift_count-cons shifts ops = omega arith

module _ {M : Type 0} (topic : M → ℕ) where
  pub put-cases :
      (mc : MessageCache M) (m : M)
      → 0 < length mc.history
      → (mc' : MessageCache M) × (put topic mc m ≡ some mc')
        × (append_first (record { mid = mc.msg_id m; topic = topic m }) mc.history
            ≡ some mc'.history)
        × (mc'.msgs ≡ insert (mc.msg_id m) m mc.msgs)
        × (mc'.peertx ≡ mc.peertx)
        × (mc'.gossip ≡ mc.gossip)
        × (mc'.msg_id ≡ mc.msg_id)
  unfolding put
  put-cases mc m h =
      let (h', e) =
        append_first-some (record { mid = mc.msg_id m; topic = topic m }) mc.history h in
      (
        record mc { msgs = insert (mc.msg_id m) m mc.msgs; history = h' },
        ground arith,
        e,
        refl,
        refl,
        refl,
        refl,
      )

  pub shift-cases :
      (mc : MessageCache M)
      → 0 < length mc.history
      → (before : List (List CacheEntry)) × (last : List CacheEntry) × (split_last mc.history
          ≡ some (before, last))
        × (shift mc
            ≡ some (record mc {
              msgs = delete_entries last mc.msgs;
              peertx = delete_entries last mc.peertx;
              history = [] ∷ before;
            }))
  unfolding shift
  shift-cases mc h =
      let (before, last, e) = split_last-some mc.history h in (before, last, e, ground arith)
