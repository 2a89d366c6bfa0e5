-- ===== src/MessageCache/Window.antt =====
-- How long a message stays: exactly as many shifts as there are slots, from its first `put`.
use go_libp2p_pubsub.Prelude.{
  ℕ, ◌+◌, ◌<◌, ◌≡◌, refl, inl, inr, true, List, [], ◌∷◌, none, some, length, if◌then◌else◌,
  Option-cases, arith, has, is_some, lookup, lookup-insert,
}
use go_libp2p_pubsub.MessageCache.{CacheEntry, MessageCache, split_last, get, get_for_peer, shift}
use go_libp2p_pubsub.MessageCache.Listing.{
  names, oldest, is_last, Op, puts, asks, shifts, step, run, shift_count, shift_count-cons,
  put-cases, shift-cases, lookup-delete_entries, oldest-append_first, oldest-split_last,
  oldest-lt-length,
}

module _ {M : Type 0} (topic : M → ℕ) where
  step_retains :
      (op : Op M) (mc : MessageCache M) (j k : ℕ)
      → oldest j mc.history ≡ some k
      → k + shift_count (op ∷ []) < length mc.history
      → has j mc.msgs ≡ true
      → (mc' : MessageCache M) × (step topic mc op ≡ some mc')
        × (oldest j mc'.history ≡ some (k + shift_count (op ∷ [])))
        × (has j mc'.msgs ≡ true)
        × (length mc'.history ≡ length mc.history)
        × (mc'.msg_id ≡ mc.msg_id)
  unfolding step get_for_peer
  step_retains (puts m) mc j k o l h =
      let (mc', e, a, em, _, _, ei) = put-cases topic mc m (omega arith) in
      (
        mc',
        e,
        ground (arith, oldest-append_first j _ mc.history mc'.history a),
        ground (arith, lookup-insert (mc.msg_id m) j m mc.msgs),
        (oldest-append_first j _ mc.history mc'.history a).0,
        ei,
      )
  step_retains (asks mid p) mc j k o l h =
      ((get_for_peer mc mid p).1, refl, ground arith, ground arith, ground arith, ground arith)
  step_retains shifts mc j k o l h =
      let (before, last, s, e) = shift-cases topic mc (omega arith) in
      (
        _,
        e,
        ground (arith, oldest-split_last j mc.history before last s),
        ground (
          arith,
          oldest-split_last j mc.history before last s,
          lookup-delete_entries j last mc.msgs,
        ),
        ground (arith, oldest-split_last j mc.history before last s),
        refl,
      )

  run_retains :
      (ops : List (Op M)) (mc : MessageCache M) (j k : ℕ)
      → oldest j mc.history ≡ some k
      → k + shift_count ops < length mc.history
      → has j mc.msgs ≡ true
      → (mc' : MessageCache M) × (run topic mc ops ≡ some mc')
        × (oldest j mc'.history ≡ some (k + shift_count ops))
        × (has j mc'.msgs ≡ true)
        × (length mc'.history ≡ length mc.history)
  unfolding run
  run_retains [] mc j k o l h = (mc, refl, ground arith, h, refl)
  run_retains (op ∷ ops) mc j k o l h =
      let split : shift_count (op ∷ ops) ≡ shift_count (op ∷ []) + shift_count ops =
        shift_count-cons op ops in
      let (mc1, e1, o1, h1, l1, _) = step_retains op mc j k o (omega arith) h in
      let (mc2, e2, o2, h2, l2) =
        run_retains ops mc1 j (k + shift_count (op ∷ [])) o1 (omega arith) h1 in
      (mc2, ground (arith, e1, e2), ground arith, h2, omega arith)

  -- A message put into a cache with slots, none of which lists it, stays retrievable for as many
  -- further operations as advance the window by less than its length, whatever else is put or asked
  -- for; and no operation on the way panics.
  pub put-retained :
      (mc : MessageCache M) (m : M) (ops : List (Op M))
      → oldest (mc.msg_id m) mc.history ≡ none
      → shift_count ops < length mc.history
      → (mc' : MessageCache M) × (run topic mc (puts m ∷ ops) ≡ some mc')
        × (oldest (mc.msg_id m) mc'.history ≡ some (shift_count ops))
        × (is_some (get mc' (mc.msg_id m)) ≡ true)
  unfolding run step get
  put-retained mc m ops o l =
      let (mc1, e1, a, em, _, _, _) = put-cases topic mc m (omega arith) in
      let aged = oldest-append_first (mc.msg_id m) _ mc.history mc1.history a in
      let (mc2, e2, o2, h2, _) =
        run_retains ops mc1 (mc.msg_id m) 0 (ground (arith, aged)) (omega (arith, aged.0))
          (ground (arith, lookup-insert (mc.msg_id m) (mc.msg_id m) m mc.msgs)) in
      (mc2, ground (arith, e1, e2), ground arith, h2)

  -- A shift drops exactly the messages that the last slot lists: one whose oldest listing is there
  -- is gone, with its transmission counts; every other is as it was.
  pub shift-drops :
      (mc mc' : MessageCache M) (j : ℕ)
      → shift mc ≡ some mc'
      → (get mc' j ≡ (if is_last (oldest j mc.history) (length mc.history) then none else get mc j))
        × (lookup j mc'.peertx ≡ (
            if is_last (oldest j mc.history) (length mc.history) then none else lookup j mc.peertx))
  unfolding get shift
  shift-drops mc mc' j e = elim (Option-cases (split_last mc.history)) [
    | inl miss ↦ absurd (ground arith)
    | inr ((before, last), hit) ↦ (
      ground (arith, dropped before last hit, lookup-delete_entries j last mc.msgs),
      ground (arith, dropped before last hit, lookup-delete_entries j last mc.peertx),
    )
  ]
    where
      dropped :
          (before : List (List CacheEntry)) (last : List CacheEntry)
          → split_last mc.history ≡ some (before, last)
          → is_last (oldest j mc.history) (length mc.history) ≡ names j last
      dropped before last hit =
          ground (arith, oldest-split_last j mc.history before last hit, oldest-lt-length j before)
