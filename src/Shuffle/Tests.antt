-- ===== src/Shuffle/Tests.antt =====
-- The shuffle at a concrete input.
use go_libp2p_pubsub.Prelude.{ℕ, ◌-◌, ◌≡◌, refl, [], ◌∷◌}
use go_libp2p_pubsub.Shuffle.{shuffle}

abbrev draws : ℕ → ℕ
draws i = i - 1

rotated : shuffle {A = ℕ} draws (1 ∷ 2 ∷ 3 ∷ []) ≡ 2 ∷ 3 ∷ 1 ∷ []
unfolding shuffle
rotated = refl
