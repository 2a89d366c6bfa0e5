-- ===== src/Shuffle/Counts.antt =====
-- A shuffle rearranges: every test is passed as often after it as before.
use go_libp2p_pubsub.Prelude.{
  ℕ, zero, suc, ◌+◌, ◌≡◌, refl, ◌∙◌, inl, inr, Bool, List, [], ◌∷◌, some, Option-cases, get_elem?,
  set, length, length-set, count_of, member, member-occurs, IsDistinct, IsDistinct-occurs,
  IsDistinct-of_occurs, if◌then◌else◌, ◌==◌, arith,
}
use go_libp2p_pubsub.Shuffle.{swap, shuffle_from, shuffle}

module _ {ℓ} {A : Type ℓ} where
  count_of-set :
      (p : A → Bool) (xs : List A) (i : ℕ) (a b : A)
      → get_elem? xs i ≡ some a
      → count_of p (set xs i b) + (if p a then 1 else 0) ≡ count_of p xs + (if p b then 1 else 0)
  count_of-set p [] i a b h = absurd (ground arith)
  count_of-set p (x ∷ xs) zero a b h = ground arith
  count_of-set p (x ∷ xs) (suc i) a b h = omega (arith, count_of-set p xs i a b h)

  get_elem?-set :
      (xs : List A) (i j : ℕ) (a b c : A)
      → get_elem? xs i ≡ some a
      → get_elem? xs j ≡ some b
      → get_elem? (set xs i b) j ≡ some b
  get_elem?-set [] i j a b c h k = absurd (ground arith)
  get_elem?-set (x ∷ xs) zero zero a b c h k = refl
  get_elem?-set (x ∷ xs) zero (suc j) a b c h k = k
  get_elem?-set (x ∷ xs) (suc i) zero a b c h k = k
  get_elem?-set (x ∷ xs) (suc i) (suc j) a b c h k = get_elem?-set xs i j a b c h k

  count_of-swap : (p : A → Bool) (i j : ℕ) (xs : List A) → count_of p (swap i j xs) ≡ count_of p xs
  unfolding swap
  count_of-swap p i j xs = elim (Option-cases (get_elem? xs i)) [
    | inl out ↦ rw (out, swap)
    | inr (a, at_i) ↦ elim (Option-cases (get_elem? xs j)) [
      | inl out ↦ rw (at_i, swap) (rw out)
      | inr (b, at_j) ↦ ground (
        arith,
        at_i,
        at_j,
        count_of-set p xs i a b at_i,
        count_of-set p (set xs i b) j b a (get_elem?-set xs i j a b a at_i at_j),
      )
    ]
  ]

  count_of-shuffle_from :
      (p : A → Bool) (draws : ℕ → ℕ) (i rounds : ℕ) (xs : List A)
      → count_of p (shuffle_from draws i rounds xs) ≡ count_of p xs
  unfolding shuffle_from
  count_of-shuffle_from p draws i zero xs = refl
  count_of-shuffle_from p draws i (suc rounds) xs =
      count_of-shuffle_from p draws (suc i) rounds (swap i (draws i) xs)
      ∙ count_of-swap p i (draws i) xs

  -- A shuffled list has as many elements with any property as the list had, whatever is drawn.
  pub count_of-shuffle :
      (p : A → Bool) (draws : ℕ → ℕ) (xs : List A) → count_of p (shuffle draws xs) ≡ count_of p xs
  unfolding shuffle
  count_of-shuffle p draws xs = count_of-shuffle_from p draws 0 (length xs) xs

  length-swap : (i j : ℕ) (xs : List A) → length (swap i j xs) ≡ length xs
  unfolding swap
  length-swap i j xs = elim (Option-cases (get_elem? xs i)) [
    | inl out ↦ rw (out, swap)
    | inr (a, at_i) ↦ elim (Option-cases (get_elem? xs j)) [
      | inl out ↦ rw (at_i, swap) (rw out)
      | inr (b, at_j) ↦ ground (arith, at_i, at_j, length-set (set xs i b) j a, length-set xs i b)
    ]
  ]

  length-shuffle_from :
      (draws : ℕ → ℕ) (i rounds : ℕ) (xs : List A)
      → length (shuffle_from draws i rounds xs) ≡ length xs
  unfolding shuffle_from
  length-shuffle_from draws i zero xs = refl
  length-shuffle_from draws i (suc rounds) xs =
      length-shuffle_from draws (suc i) rounds (swap i (draws i) xs) ∙ length-swap i (draws i) xs

  pub length-shuffle : (draws : ℕ → ℕ) (xs : List A) → length (shuffle draws xs) ≡ length xs
  unfolding shuffle
  length-shuffle draws xs = length-shuffle_from draws 0 (length xs) xs

pub member-shuffle :
    (draws : ℕ → ℕ) (k : ℕ) (xs : List ℕ) → member k (shuffle draws xs) ≡ member k xs
member-shuffle draws k xs = ground (
  arith,
  member-occurs k xs,
  member-occurs k (shuffle draws xs),
  count_of-shuffle (λ x. x == k) draws xs,
)

pub IsDistinct-shuffle :
    (draws : ℕ → ℕ) (xs : List ℕ) → IsDistinct xs → IsDistinct (shuffle draws xs)
IsDistinct-shuffle draws xs d =
    IsDistinct-of_occurs (shuffle draws xs)
      λ k. omega (arith, count_of-shuffle (λ x. x == k) draws xs, IsDistinct-occurs k xs d)
