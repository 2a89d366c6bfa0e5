-- ===== src/SeqnoValidator/Tests.antt =====
-- The theorem about replays at a concrete input, and runs of the code.
use go_libp2p_pubsub.Prelude.{
  ℕ, ◌≡◌, ◌≢◌, refl, List, [], ◌∷◌, Option, none, some, Map, lookup_or, lookup-insert, insert,
  arith, ==_iff,
}
use go_libp2p_pubsub.Validation.{ignore}
use go_libp2p_pubsub.SeqnoValidator.{PeerMetadataStore, put_uint64, uint64, commit}
use go_libp2p_pubsub.SeqnoValidator.Replay.{commits, commit-ignores_replay}

-- A store in memory.
abbrev get_bytes : Map (List ℕ) → ℕ → Option (List ℕ)
get_bytes m p = some (lookup_or [] p m)

abbrev put_bytes : Map (List ℕ) → ℕ → List ℕ → Option (Map (List ℕ))
put_bytes m p bytes = some (insert p bytes m)

get-put_memory :
    (m m' : Map (List ℕ)) (p : ℕ) (bytes : List ℕ)
    → put_bytes m p bytes ≡ some m'
    → get_bytes m' p ≡ some bytes
get-put_memory m m' p bytes e = ground (arith, e, lookup-insert p p bytes m)

get-put_memory_other :
    (m m' : Map (List ℕ)) (p q : ℕ) (bytes : List ℕ)
    → put_bytes m p bytes ≡ some m'
    → p ≢ q
    → get_bytes m' q ≡ get_bytes m q
get-put_memory_other m m' p q bytes e ne =
    ground (arith, e, ne, (==_iff p q).0, lookup-insert p q bytes m)

abbrev memory : PeerMetadataStore
memory = record {
  Store = Map (List ℕ);
  get = get_bytes;
  put = put_bytes;
  get-put = get-put_memory;
  get-put_other = get-put_memory_other;
}

abbrev after_seven : Map (List ℕ)
unfolding put_uint64
after_seven = insert 1 (put_uint64 7) []

round_trip : uint64 (put_uint64 1_234_567_890_123) ≡ some 1_234_567_890_123
unfolding uint64 put_uint64
round_trip = refl

short_seqno_panics : uint64 (1 ∷ 2 ∷ []) ≡ none
unfolding uint64
short_seqno_panics = refl

commit-ignores_replay_example :
    commit memory (commits memory after_seven ((2, 0, 9) ∷ (1, 0, 8) ∷ [])) 1 0 7
    ≡ some (ignore, commits memory after_seven ((2, 0, 9) ∷ (1, 0, 8) ∷ []))
unfolding after_seven
commit-ignores_replay_example =
    commit-ignores_replay memory [] after_seven 1 7 0 7 ((2, 0, 9) ∷ (1, 0, 8) ∷ []) (omega arith)
      refl (omega arith, (omega arith, tt)) (omega arith)
