-- ===== src/SeqnoValidator/Replay.antt =====
-- A sequence number is accepted once.
use go_libp2p_pubsub.Prelude.{
  ℕ, zero, suc, ◌^◌, ◌/◌, ◌%◌, ◌≤◌, ◌<◌, ◌≡◌, refl, sym, ap, ◌∙◌, inl, inr, ◌⊎◌, true, List, [],
  ◌∷◌, Option, none, some, leb, Bool-cases, Option-cases, arith, ◌==◌, ==_iff,
}
use go_libp2p_pubsub.Validation.{ValidationResult, ignore}
use go_libp2p_pubsub.SeqnoValidator.{
  PeerMetadataStore, decode, encode, uint64, put_uint64, read_nonce, commit,
}

decode-encode :
    (k n : ℕ) (bytes : List ℕ) → n < 256 ^ k → decode 0 (encode k n bytes) ≡ decode n bytes
unfolding decode encode
decode-encode zero n bytes h = ap (λ m. decode m bytes) (omega arith)
decode-encode (suc k) n bytes h =
    decode-encode k (n / 256) (n % 256 ∷ bytes) (ground arith)
    ∙ ap (λ m. decode m bytes) (omega arith)

read_nonce-put_uint64 : (nonce n : ℕ) → n < 2 ^ 64 → read_nonce nonce (put_uint64 n) ≡ some n
unfolding read_nonce uint64 put_uint64 encode
read_nonce-put_uint64 nonce n h = ap some (decode-encode 8 n [] h)

module _ (v : PeerMetadataStore) where
  open v use {Store, get, put, get-put, get-put_other}

  -- The store has a nonce of the peer that is at least the number, unless reading it fails.
  Holds : Store → ℕ → ℕ → Type 0
  Holds meta p n =
      (get meta p ≡ none) ⊎ ((m : ℕ) × (get meta p ≡ some (put_uint64 m)) × (m < 2 ^ 64) × (n ≤ m))

  Holds-put :
      (meta meta' : Store) (p n q nonce seqno old : ℕ) (bytes : List ℕ)
      → get meta q ≡ some bytes
      → read_nonce nonce bytes ≡ some old
      → old < seqno
      → seqno < 2 ^ 64
      → put meta q (put_uint64 seqno) ≡ some meta'
      → Holds meta p n
      → Holds meta' p n
  unfolding Holds
  Holds-put meta meta' p n q nonce seqno old bytes found read new small written h =
      elim (Bool-cases (q == p)) [
        | inl same ↦
            let e : q ≡ p = (==_iff q p).0 same in
            let now : get meta' p ≡ some (put_uint64 seqno) =
              ap (get meta') (sym e) ∙ get-put meta meta' q (put_uint64 seqno) written in
            elim h [
              | inl fails ↦ absurd (ground (arith, ap (get meta) e, found, fails))
              | inr (m, at, bound, le) ↦
                  let stored : some bytes ≡ some (put_uint64 m) =
                    sym found ∙ ap (get meta) e ∙ at in
                  let bytes_m : bytes ≡ put_uint64 m = ground (arith, stored) in
                  let old_m : some old ≡ some m =
                    sym read
                    ∙ ap (read_nonce nonce) bytes_m
                    ∙ read_nonce-put_uint64 nonce m bound in
                  inr (seqno, now, small, ground (arith, old_m))
            ]
        | inr other ↦
            let stays =
              get-put_other meta meta' q p (put_uint64 seqno) written
                (λ e. absurd (ground (arith, other, e))) in
            elim h [
              | inl fails ↦ inl (stays ∙ fails)
              | inr (m, at, bound, le) ↦ inr (m, stays ∙ at, bound, le)
            ]
      ]

  abbrev store_of : Store → Option (ValidationResult × Store) → Store
  store_of meta none = meta
  store_of meta (some (r, meta')) = meta'

  Holds-commit :
      (meta : Store) (p n q nonce seqno : ℕ)
      → seqno < 2 ^ 64
      → Holds meta p n
      → Holds (store_of meta (commit v meta q nonce seqno)) p n
  unfolding commit
  Holds-commit meta p n q nonce seqno small h = elim (Option-cases (get meta q)) [
    | inl fails ↦ rw (fails, commit) h
    | inr (bytes, found) ↦ elim (Option-cases (read_nonce nonce bytes)) [
      | inl short ↦ rw (found, commit) (rw short h)
      | inr (old, read) ↦ elim (Bool-cases (leb seqno old)) [
        | inl replay ↦ rw (found, commit) (rw read (rw replay h))
        | inr new ↦ elim (Option-cases (put meta q (put_uint64 seqno))) [
          | inl unwritten ↦ rw (found, commit) (rw read (rw new (rw unwritten h)))
          | inr (meta1, written) ↦
              rw (found, commit)
                (rw read (
                  rw new (
                    rw written (
                      Holds-put meta meta1 p n q nonce seqno old bytes found read (ground arith)
                        small written h))))
        ]
      ]
    ]
  ]

  -- Commits of any calls, each of a peer, a nonce that it read before, and a sequence number.
  unfoldable pub commits : Store → List (ℕ × ℕ × ℕ) → Store
  commits meta [] = meta
  commits meta ((q, nonce, seqno) ∷ more) =
      commits (store_of meta (commit v meta q nonce seqno)) more

  abbrev pub AllSmall : List (ℕ × ℕ × ℕ) → Type 0
  AllSmall [] = Unit {0}
  AllSmall ((q, nonce, seqno) ∷ more) = (seqno < 2 ^ 64) × AllSmall more

  Holds-commits :
      (meta : Store) (p n : ℕ) (calls : List (ℕ × ℕ × ℕ))
      → AllSmall calls
      → Holds meta p n
      → Holds (commits meta calls) p n
  unfolding commits
  Holds-commits meta p n [] small h = h
  Holds-commits meta p n ((q, nonce, seqno) ∷ more) (first, rest) h =
      Holds-commits (store_of meta (commit v meta q nonce seqno)) p n more rest
        (Holds-commit meta p n q nonce seqno first h)

  commit-known :
      (meta : Store) (p nonce seqno old : ℕ) (bytes : List ℕ)
      → get meta p ≡ some bytes
      → read_nonce nonce bytes ≡ some old
      → seqno ≤ old
      → commit v meta p nonce seqno ≡ some (ignore, meta)
  unfolding commit
  commit-known meta p nonce seqno old bytes found read le =
      let replay : leb seqno old ≡ true = ground arith in
      rw (found, commit) (rw read (rw replay refl))

  -- Once the store has a peer's nonce from an accepted message, no message of that peer with that or
  -- a smaller sequence number is accepted, however many calls commit in between, for whatever peers,
  -- and whatever nonce the call itself had read before: its commit ignores the message and leaves the
  -- store as it is.
  pub commit-ignores_replay :
      (meta meta' : Store) (p n nonce seqno : ℕ) (calls : List (ℕ × ℕ × ℕ))
      → n < 2 ^ 64
      → put meta p (put_uint64 n) ≡ some meta'
      → AllSmall calls
      → seqno ≤ n
      → commit v (commits meta' calls) p nonce seqno ≡ some (ignore, commits meta' calls)
  unfolding commit Holds
  commit-ignores_replay meta meta' p n nonce seqno calls bound written small le =
      let start = inr (n, get-put meta meta' p (put_uint64 n) written, bound, omega arith) in
      elim (Holds-commits meta' p n calls small start) [
        | inl fails ↦ rw (fails, commit)
        | inr (m, at, bound', le') ↦
            commit-known (commits meta' calls) p nonce seqno m (put_uint64 m) at
              (read_nonce-put_uint64 nonce m bound') (omega (arith, le, le'))
      ]
