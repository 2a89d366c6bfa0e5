-- ===== src/Shuffle.antt =====
-- gossipsub.go: `shufflePeers`, `shufflePeerInfo` and `shuffleStrings`, which are one loop at three
-- types. `draws i` is what `rand.Intn(i + 1)` returns in round `i`; nothing is assumed of it, and a
-- swap with an index out of range, where Go would panic, changes nothing.
pub mod Counts
pub mod Tests
use go_libp2p_pubsub.Prelude.{ℕ, zero, suc, List, Option, none, some, get_elem?, set, length}

module _ {ℓ} {A : Type ℓ} where
  unfoldable pub swap : ℕ → ℕ → List A → List A
  swap i j xs = elim (get_elem? xs i) [
    | none ↦ xs
    | some a ↦ elim (get_elem? xs j) [ none ↦ xs | some b ↦ set (set xs i b) j a ]
  ]

  unfoldable pub shuffle_from : (ℕ → ℕ) → ℕ → ℕ → List A → List A
  unfolding swap
  shuffle_from draws i zero xs = xs
  shuffle_from draws i (suc rounds) xs = shuffle_from draws (suc i) rounds (swap i (draws i) xs)

  unfoldable pub shuffle : (ℕ → ℕ) → List A → List A
  unfolding shuffle_from
  shuffle draws xs = shuffle_from draws 0 (length xs) xs
