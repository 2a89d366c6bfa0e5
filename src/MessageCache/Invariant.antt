-- ===== src/MessageCache/Invariant.antt =====
-- What holds of the cache between two operations, and that everything it advertises can be served.
use mathlib.Core.Option.{some-injective}
use go_libp2p_pubsub.Prelude.{
  ℕ, zero, suc, ◌+◌, ◌≤◌, ◌<◌, ◌≡◌, refl, subst, inl, inr, true, List, [], ◌∷◌, ◌++◌, some,
  if◌then◌else◌, ltb, Option-cases, ◌==◌, arith, has, is_some, lookup, lookup-insert, lookup_or,
  member, member-append, take, insert,
}
use go_libp2p_pubsub.MessageCache.{
  CacheEntry, MessageCache, split_last, append_first, slot_ids, window_ids, put, get, get_for_peer,
  get_gossip_ids, shift, new_message_cache, empty_slots,
}
use go_libp2p_pubsub.MessageCache.Listing.{
  names, oldest, Op, puts, asks, shifts, step, run, lookup-delete_entries, oldest-append_first,
  oldest-split_last,
}

-- How many times a slot, and the history, list a message.
abbrev slot_listings : ℕ → List CacheEntry → ℕ
slot_listings j [] = 0
slot_listings j (e ∷ es) = (if e.mid == j then 1 else 0) + slot_listings j es

abbrev pub listings : ℕ → List (List CacheEntry) → ℕ
listings j [] = 0
listings j (slot ∷ slots) = slot_listings j slot + listings j slots

names-slot_listings : (j : ℕ) (es : List CacheEntry) → names j es ≡ ltb 0 (slot_listings j es)
names-slot_listings j [] = ground arith
names-slot_listings j (e ∷ es) = ground (arith, names-slot_listings j es)

slot_listings-append :
    (j : ℕ) (es : List CacheEntry) (e : CacheEntry)
    → slot_listings j (es ++ e ∷ []) ≡ slot_listings j es + (if e.mid == j then 1 else 0)
slot_listings-append j [] e = ground arith
slot_listings-append j (f ∷ es) e = ground (arith, slot_listings-append j es e)

listings-append_first :
    (j : ℕ) (e : CacheEntry) (h h' : List (List CacheEntry))
    → append_first e h ≡ some h'
    → listings j h' ≡ listings j h + (if e.mid == j then 1 else 0)
listings-append_first j e [] h' p = absurd (ground arith)
listings-append_first j e (slot ∷ slots) h' p = ground (arith, slot_listings-append j slot e)

listings-split_last :
    (j : ℕ) (h before : List (List CacheEntry)) (last : List CacheEntry)
    → split_last h ≡ some (before, last)
    → listings j h ≡ listings j before + slot_listings j last
listings-split_last j [] before last e = absurd (ground arith)
listings-split_last j (x ∷ []) before last e = ground arith
listings-split_last j (x ∷ y ∷ ys) before last e = elim (Option-cases (split_last (y ∷ ys))) [
  | inl miss ↦ absurd (ground arith)
  | inr ((b, l), hit) ↦ ground (arith, listings-split_last j (y ∷ ys) b l hit)
]

member-slot_ids :
    (j t : ℕ) (es : List CacheEntry) → member j (slot_ids t es) ≡ true → 0 < slot_listings j es
member-slot_ids j t [] h = absurd (ground arith)
member-slot_ids j t (e ∷ es) h = ground (arith, member-slot_ids j t es)

member-window_ids :
    (j t n : ℕ) (h : List (List CacheEntry))
    → member j (window_ids t (take n h)) ≡ true
    → 0 < listings j h
member-window_ids j t zero h p = absurd (ground arith)
member-window_ids j t (suc n) [] p = absurd (ground arith)
member-window_ids j t (suc n) (slot ∷ slots) p = ground (
  arith,
  member-append j (slot_ids t slot) (window_ids t (take n slots)),
  member-slot_ids j t slot,
  member-window_ids j t n slots,
)

-- A cached message is listed, and only cached messages have their transmissions counted.
pub record Inv {M : Type 0} (mc : MessageCache M) : Type 0 where
  pub listed : (j : ℕ) → has j mc.msgs ≡ true → is_some (oldest j mc.history) ≡ true
  pub counted : (j : ℕ) → has j mc.peertx ≡ true → has j mc.msgs ≡ true

module _ {M : Type 0} (topic : M → ℕ) where
  put-Inv :
      (mc : MessageCache M) (m : M) {mc' : MessageCache M}
      → Inv mc
      → put topic mc m ≡ some mc'
      → Inv mc'
  unfolding put
  put-Inv mc m v e =
      elim (Option-cases
        (append_first (record { mid = mc.msg_id m; topic = topic m }) mc.history)) [
          | inl miss ↦ absurd (ground arith)
          | inr (h', hit) ↦ record {
            listed = λ j p. ground (
              arith,
              oldest-append_first j _ mc.history h' hit,
              v.listed j,
              lookup-insert (mc.msg_id m) j m mc.msgs,
            );
            counted = λ j p. ground (arith, v.counted j, lookup-insert (mc.msg_id m) j m mc.msgs);
          }
        ]

  get_for_peer-Inv : (mc : MessageCache M) (mid p : ℕ) → Inv mc → Inv (get_for_peer mc mid p).1
  unfolding get_for_peer
  get_for_peer-Inv mc mid p v = elim (Option-cases (lookup mid mc.msgs)) [
    | inl miss ↦ rw (miss, get_for_peer) v
    | inr (m, hit) ↦
        rw (hit, get_for_peer)
          (record {
            listed = v.listed;
            counted = λ j q. ground (
              arith,
              v.counted j,
              lookup-insert mid j
                  (insert p (lookup_or 0 p (lookup_or [] mid mc.peertx) + 1)
                    (lookup_or [] mid mc.peertx))
                  mc.peertx,
            );
          })
  ]

  shift-Inv : (mc : MessageCache M) {mc' : MessageCache M} → Inv mc → shift mc ≡ some mc' → Inv mc'
  unfolding shift
  shift-Inv mc v e = elim (Option-cases (split_last mc.history)) [
    | inl miss ↦ absurd (ground arith)
    | inr ((before, last), hit) ↦ record {
      listed = λ j p. ground (
        arith,
        oldest-split_last j mc.history before last hit,
        v.listed j,
        lookup-delete_entries j last mc.msgs,
      );
      counted = λ j p. ground (
        arith,
        v.counted j,
        lookup-delete_entries j last mc.msgs,
        lookup-delete_entries j last mc.peertx,
      );
    }
  ]

  step-Inv :
      (op : Op M) (mc : MessageCache M) {mc' : MessageCache M}
      → Inv mc
      → step topic mc op ≡ some mc'
      → Inv mc'
  unfolding step
  step-Inv (puts m) mc v e = put-Inv mc m v e
  step-Inv (asks mid p) mc v e = subst Inv (some-injective _ _ e) (get_for_peer-Inv mc mid p v)
  step-Inv shifts mc v e = shift-Inv mc v e

  run-Inv :
      (ops : List (Op M)) (mc : MessageCache M) {mc' : MessageCache M}
      → Inv mc
      → run topic mc ops ≡ some mc'
      → Inv mc'
  unfolding run
  run-Inv [] mc v e = subst Inv (some-injective _ _ e) v
  run-Inv (op ∷ ops) mc v e = elim (Option-cases (step topic mc op)) [
    | inl miss ↦ absurd (ground arith)
    | inr (mc1, hit) ↦ run-Inv ops mc1 (step-Inv op mc v hit) (ground arith)
  ]

  -- Each id is listed at most once, and exactly the listed messages are cached.
  pub record Exact (mc : MessageCache M) : Type 0 where
    pub single : (j : ℕ) → listings j mc.history ≤ 1
    pub cached : (j : ℕ) → has j mc.msgs ≡ ltb 0 (listings j mc.history)

  abbrev pub IsFresh : MessageCache M → Op M → Type 0
  IsFresh mc (puts m) = listings (mc.msg_id m) mc.history ≡ 0
  IsFresh mc (asks mid p) = Unit {0}
  IsFresh mc shifts = Unit {0}

  step-Exact :
      (op : Op M) (mc mc' : MessageCache M)
      → Exact mc
      → IsFresh mc op
      → step topic mc op ≡ some mc'
      → Exact mc'
  unfolding step put shift get_for_peer
  step-Exact (puts m) mc mc' v f e =
      elim (Option-cases
        (append_first (record { mid = mc.msg_id m; topic = topic m }) mc.history)) [
          | inl miss ↦ absurd (ground arith)
          | inr (h', hit) ↦ record {
            single = λ j. ground (arith, listings-append_first j _ mc.history h' hit, v.single j);
            cached = λ j. ground (
              arith,
              listings-append_first j _ mc.history h' hit,
              v.cached j,
              lookup-insert (mc.msg_id m) j m mc.msgs,
            );
          }
        ]
  step-Exact (asks mid p) mc mc' v f e = record {
    single = λ j. ground (arith, v.single j);
    cached = λ j. ground (arith, v.cached j);
  }
  step-Exact shifts mc mc' v f e = elim (Option-cases (split_last mc.history)) [
    | inl miss ↦ absurd (ground arith)
    | inr ((before, last), hit) ↦ record {
      single = λ j. ground (arith, listings-split_last j mc.history before last hit, v.single j);
      cached = λ j. ground (
        arith,
        listings-split_last j mc.history before last hit,
        v.cached j,
        v.single j,
        names-slot_listings j last,
        lookup-delete_entries j last mc.msgs,
      );
    }
  ]

  -- Every put is of a message that the history does not list.
  abbrev pub FreshRun : MessageCache M → List (Op M) → Type 0
  FreshRun mc [] = Unit {0}
  FreshRun mc (op ∷ ops) =
      IsFresh mc op × ((mc' : MessageCache M) → step topic mc op ≡ some mc' → FreshRun mc' ops)

  run-Exact :
      (ops : List (Op M)) (mc mc' : MessageCache M)
      → Exact mc
      → FreshRun mc ops
      → run topic mc ops ≡ some mc'
      → Exact mc'
  unfolding run
  run-Exact [] mc mc' v f e = subst Exact (some-injective _ _ e) v
  run-Exact (op ∷ ops) mc mc' v f e = elim (Option-cases (step topic mc op)) [
    | inl miss ↦ absurd (ground arith)
    | inr (mc1, hit) ↦
        run-Exact ops mc1 mc' (step-Exact op mc mc1 v f.0 hit) (f.1 mc1 hit) (ground arith)
  ]

  listings-empty_slots : (j n : ℕ) → listings j (empty_slots n) ≡ 0
  listings-empty_slots j zero = refl
  listings-empty_slots j (suc n) = omega (arith, listings-empty_slots j n)

  new-Exact :
      (msg_id : M → ℕ) (gossip history : ℕ) (mc : MessageCache M)
      → new_message_cache msg_id gossip history ≡ some mc
      → Exact mc
  unfolding new_message_cache
  new-Exact msg_id gossip history mc e = record {
    single = λ j. ground (arith, listings-empty_slots j history);
    cached = λ j. ground (arith, listings-empty_slots j history);
  }

  -- From a new cache, and as long as no message is put again while the history lists it: every id
  -- that `get_gossip_ids` advertises, for any topic, is one that `get` finds.
  pub gossip-served :
      (msg_id : M → ℕ) (gossip history : ℕ) (mc mc' : MessageCache M) (ops : List (Op M)) (t j : ℕ)
      → new_message_cache msg_id gossip history ≡ some mc
      → FreshRun mc ops
      → run topic mc ops ≡ some mc'
      → member j (get_gossip_ids mc' t) ≡ true
      → is_some (get mc' j) ≡ true
  unfolding get get_gossip_ids
  gossip-served msg_id gossip history mc mc' ops t j n f e h =
      let v = run-Exact ops mc mc' (new-Exact msg_id gossip history mc n) f e in
      ground (arith, v.cached j, member-window_ids j t mc'.gossip mc'.history h)
