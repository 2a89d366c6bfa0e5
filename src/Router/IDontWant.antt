-- ===== src/Router/IDontWant.antt =====
-- gossipsub.go: `handleIDontWant` and `clearIDontWantCounters`: the ids that peers do not want.
use Prim.Native.Nat.{min}
use go_libp2p_pubsub.Prelude.{
  ℕ, zero, suc, ◌+◌, ◌-◌, ◌≤◌, ◌≡◌, refl, inl, inr, Bool, false, ◌&&◌, ◌||◌, sym, List, [], ◌∷◌,
  ◌++◌, Option, none, some, Bool-cases, Map, lookup, lookup_or, lookup-insert, lookup-delete,
  insert, delete, length, take, ltb, leb, if◌then◌else◌, ◌==◌, arith,
}
use go_libp2p_pubsub.Router.Env.{Params, ControlMessage, Router}

-- The loops over the ids; `total` counts those marked, and at the limit both loops end.
unfoldable pub mark_mids : (ℕ → ℕ) → ℕ → ℕ → ℕ → List ℕ → Map ℕ → ℕ × Map ℕ
mark_mids checksum limit ttl total [] unwanted = (total, unwanted)
mark_mids checksum limit ttl total (mid ∷ mids) unwanted =
    let rest = mark_mids checksum limit ttl (suc total) mids (insert (checksum mid) ttl unwanted) in
    if leb limit total then (total, unwanted) else rest

unfoldable pub mark_all : (ℕ → ℕ) → ℕ → ℕ → ℕ → List (List ℕ) → Map ℕ → ℕ × Map ℕ
unfolding mark_mids
mark_all checksum limit ttl total [] unwanted = (total, unwanted)
mark_all checksum limit ttl total (mids ∷ more) unwanted =
    let (total', unwanted') = mark_mids checksum limit ttl total mids unwanted in
    mark_all checksum limit ttl total' more unwanted'

-- The peer's map is made when the first id is marked.
unfoldable pub handle_idontwant : Params → (ℕ → ℕ) → Router → ℕ → ControlMessage → Router
unfolding mark_all
handle_idontwant params checksum gs p ctl =
    let counted = record gs {
      peerdontwant = insert p (lookup_or 0 p gs.peerdontwant + 1) gs.peerdontwant;
    } in
    let (total, unwanted) =
      mark_all checksum params.max_idontwant_length params.idontwant_message_ttl 0 ctl.idontwant
        (lookup_or [] p gs.unwanted) in
    if length ctl.idontwant == 0
    then gs
    else if leb params.max_idontwant_messages (lookup_or 0 p gs.peerdontwant)
    then gs
    else if total == 0
    then counted
    else record counted { unwanted = insert p unwanted gs.unwanted }

-- `mids[mid]--`, and the entry goes when it reaches 0.
decay_entries : Map ℕ → Map ℕ
decay_entries [] = []
decay_entries ((c, n) ∷ rest) =
    if leb n 1 then delete c (decay_entries rest) else (c, n - 1) ∷ decay_entries rest

keep_peer : ℕ → Map ℕ → Map (Map ℕ) → Map (Map ℕ)
keep_peer p [] rest = delete p rest
keep_peer p (e ∷ es) rest = (p, e ∷ es) ∷ rest

decay_peers : Map (Map ℕ) → Map (Map ℕ)
unfolding decay_entries keep_peer
decay_peers [] = []
decay_peers ((p, mids) ∷ rest) = keep_peer p (decay_entries mids) (decay_peers rest)

unfoldable pub clear_idontwant_counters : Router → Router
unfolding decay_peers
clear_idontwant_counters gs = record gs { peerdontwant = []; unwanted = decay_peers gs.unwanted }

-- How many heartbeats a peer's mark on a message has left.
abbrev pub mark : Router → ℕ → ℕ → Option ℕ
mark gs p c = lookup c (lookup_or [] p gs.unwanted)

abbrev pub aged : Option ℕ → Option ℕ
aged none = none
aged (some n) = if leb n 1 then none else some (n - 1)

lookup-decay_entries : (c : ℕ) (m : Map ℕ) → lookup c (decay_entries m) ≡ aged (lookup c m)
unfolding decay_entries
lookup-decay_entries c [] = refl
lookup-decay_entries c ((k, n) ∷ rest) =
    ground (arith, lookup-decay_entries c rest, lookup-delete k c (decay_entries rest))

lookup_or-decay_peers :
    (p : ℕ) (m : Map (Map ℕ)) → lookup_or [] p (decay_peers m) ≡ decay_entries (lookup_or [] p m)
unfolding decay_peers
lookup_or-decay_peers p [] = unfold decay_entries in refl
lookup_or-decay_peers p ((q, mids) ∷ rest) = ground (
  arith,
  lookup_or-keep_peer q p (decay_entries mids) (decay_peers rest),
  lookup_or-decay_peers p rest,
)
  where
    lookup_or-keep_peer :
        (q p : ℕ) (b : Map ℕ) (rest : Map (Map ℕ))
        → lookup_or [] p (keep_peer q b rest) ≡ (if q == p then b else lookup_or [] p rest)
    lookup_or-keep_peer q p [] rest = unfold keep_peer in ground (arith, lookup-delete q p rest)
    lookup_or-keep_peer q p (e ∷ es) rest = unfold keep_peer in ground arith

-- Heartbeats, one after another.
unfoldable pub heartbeats : ℕ → Router → Router
heartbeats zero gs = gs
heartbeats (suc n) gs = heartbeats n (clear_idontwant_counters gs)

mark-clear : (gs : Router) (p c : ℕ) → mark (clear_idontwant_counters gs) p c ≡ aged (mark gs p c)
unfolding clear_idontwant_counters
mark-clear gs p c = ground (
  arith,
  lookup_or-decay_peers p gs.unwanted,
  lookup-decay_entries c (lookup_or [] p gs.unwanted),
)

gone-heartbeats :
    (n : ℕ) (gs : Router) (p c : ℕ) → mark gs p c ≡ none → mark (heartbeats n gs) p c ≡ none
unfolding heartbeats
gone-heartbeats zero gs p c h = h
gone-heartbeats (suc n) gs p c h =
    gone-heartbeats n (clear_idontwant_counters gs) p c (ground (arith, mark-clear gs p c))

-- A mark with some heartbeats left stands through one fewer than those, one less each time, and is
-- gone from then on.
pub mark-heartbeats :
    (n k : ℕ) (gs : Router) (p c : ℕ)
    → mark gs p c ≡ some (suc k)
    → mark (heartbeats n gs) p c ≡ (if leb n k then some (suc k - n) else none)
unfolding heartbeats
mark-heartbeats zero k gs p c h = ground arith
mark-heartbeats (suc n) zero gs p c h =
    ground (arith, gone-heartbeats n (clear_idontwant_counters gs) p c, mark-clear gs p c)
mark-heartbeats (suc n) (suc k) gs p c h =
    ground (arith, mark-heartbeats n k (clear_idontwant_counters gs) p c, mark-clear gs p c)

abbrev pub all_mids : List (List ℕ) → List ℕ
all_mids [] = []
all_mids (mids ∷ more) = mids ++ all_mids more

-- Whether one of the ids has a checksum.
abbrev pub marks : (ℕ → ℕ) → ℕ → List ℕ → Bool
marks checksum c [] = false
marks checksum c (mid ∷ mids) = (checksum mid == c) || marks checksum c mids

module _ (checksum : ℕ → ℕ) (limit ttl : ℕ) where
  mark_mids_full :
      (total : ℕ) (mids : List ℕ) (unwanted : Map ℕ)
      → limit ≤ total
      → mark_mids checksum limit ttl total mids unwanted ≡ (total, unwanted)
  unfolding mark_mids
  mark_mids_full total [] unwanted h = refl
  mark_mids_full total (mid ∷ mids) unwanted h = ground arith

  mark_mids-append :
      (total : ℕ) (xs ys : List ℕ) (unwanted : Map ℕ)
      → mark_mids checksum limit ttl total (xs ++ ys) unwanted ≡ (
          let (t, u) = mark_mids checksum limit ttl total xs unwanted in
          mark_mids checksum limit ttl t ys u)
  unfolding mark_mids
  mark_mids-append total [] ys unwanted = refl
  mark_mids-append total (x ∷ xs) ys unwanted = elim (Bool-cases (leb limit total)) [
    | inl stop ↦ rw (stop, mark_mids) (sym (mark_mids_full total ys unwanted (ground arith)))
    | inr go ↦
        rw (go, mark_mids) (mark_mids-append (suc total) xs ys (insert (checksum x) ttl unwanted))
  ]

  mark_all-mids :
      (total : ℕ) (lists : List (List ℕ)) (unwanted : Map ℕ)
      → mark_all checksum limit ttl total lists unwanted
        ≡ mark_mids checksum limit ttl total (all_mids lists) unwanted
  unfolding mark_all
  mark_all-mids total [] unwanted = unfold mark_mids in refl
  mark_all-mids total (mids ∷ more) unwanted =
      rw (mark_mids-append total mids (all_mids more) unwanted) (
        mark_all-mids (mark_mids checksum limit ttl total mids unwanted).0 more
          (mark_mids checksum limit ttl total mids unwanted).1)

  mark_mids_lem :
      (left total : ℕ) (mids : List ℕ) (unwanted : Map ℕ) (c : ℕ)
      → total + left ≡ limit
      → let (total', unwanted') = mark_mids checksum limit ttl total mids unwanted in
        (total' ≡ total + min left (length mids))
        × (lookup c unwanted'
            ≡ (if marks checksum c (take left mids) then some ttl else lookup c unwanted))
  unfolding mark_mids
  mark_mids_lem zero total [] unwanted c e = ground arith
  mark_mids_lem (suc left) total [] unwanted c e = ground arith
  mark_mids_lem zero total (mid ∷ mids) unwanted c e = ground arith
  mark_mids_lem (suc left) total (mid ∷ mids) unwanted c e = ground (
    arith,
    mark_mids_lem left (suc total) mids (insert (checksum mid) ttl unwanted) c,
    lookup-insert (checksum mid) c ttl unwanted,
  )

all_mids_of_none : (lists : List (List ℕ)) → length lists ≡ 0 → all_mids lists ≡ []
all_mids_of_none [] h = refl
all_mids_of_none (mids ∷ more) h = absurd (omega arith)

marks_of_none :
    (checksum : ℕ → ℕ) (c left : ℕ) (mids : List ℕ)
    → min left (length mids) ≡ 0
    → marks checksum c (take left mids) ≡ false
marks_of_none checksum c zero mids h = refl
marks_of_none checksum c (suc left) [] h = refl
marks_of_none checksum c (suc left) (mid ∷ mids) h = absurd (omega arith)

-- An IDONTWANT marks, for its sender alone and for the full time to live, exactly its first
-- `MaxIDontWantLength` ids, over all its lists; from a sender that has used up its messages of this
-- heartbeat it marks none.
pub mark-handle_idontwant :
    (params : Params) (checksum : ℕ → ℕ) (gs : Router) (p q c : ℕ) (ctl : ControlMessage)
    → mark (handle_idontwant params checksum gs p ctl) q c ≡ (
        if (p == q)
          && ltb (lookup_or 0 p gs.peerdontwant) params.max_idontwant_messages
          && marks checksum c (take params.max_idontwant_length (all_mids ctl.idontwant))
        then some params.idontwant_message_ttl
        else mark gs q c)
unfolding handle_idontwant
mark-handle_idontwant params checksum gs p q c ctl =
    let limit = params.max_idontwant_length in
    let ttl = params.idontwant_message_ttl in
    let old = lookup_or [] p gs.unwanted in
    let mids = all_mids ctl.idontwant in
    ground (
      arith,
      mark_all-mids checksum limit ttl 0 ctl.idontwant old,
      mark_mids_lem checksum limit ttl limit 0 mids old c (omega arith),
      all_mids_of_none ctl.idontwant,
      marks_of_none checksum c limit mids,
      lookup-insert p q (mark_mids checksum limit ttl 0 mids old).1 gs.unwanted,
    )
