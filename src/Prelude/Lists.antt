-- ===== src/Prelude/Lists.antt =====
-- Lists measured by native numbers, Boolean filters, and sets of identifiers as lists.
use Prim.Native.Nat.{ℕ, zero, suc, ◌+◌, ◌≤◌, min}
use mathlib.Core.Path.{◌≡◌, refl, ap}
use mathlib.Core.Bool.{Bool, true, false, not, ◌&&◌, ◌||◌}
use mathlib.Core.List.{List, [], ◌∷◌, ◌++◌}
use mathlib.Core.Option.{Option, none, some}
use native.Mathlib.Omega.{arith}
use go_libp2p_pubsub.Prelude.Tests.{◌==◌, ltb, if◌then◌else◌}

module _ {ℓ} {A : Type ℓ} where
  abbrev pub length : List A → ℕ
  length [] = 0
  length (x ∷ xs) = suc (length xs)

  abbrev pub take : ℕ → List A → List A
  take zero xs = []
  take (suc n) [] = []
  take (suc n) (x ∷ xs) = x ∷ take n xs

  abbrev pub drop : ℕ → List A → List A
  drop zero xs = xs
  drop (suc n) [] = []
  drop (suc n) (x ∷ xs) = drop n xs

  abbrev pub get_elem? : List A → ℕ → Option A
  get_elem? [] i = none
  get_elem? (x ∷ xs) zero = some x
  get_elem? (x ∷ xs) (suc i) = get_elem? xs i

  -- A write out of bounds changes nothing.
  abbrev pub set : List A → ℕ → A → List A
  set [] i v = []
  set (x ∷ xs) zero v = v ∷ xs
  set (x ∷ xs) (suc i) v = x ∷ set xs i v

  -- The elements that pass a test, in order.
  abbrev pub keep : (A → Bool) → List A → List A
  keep p [] = []
  keep p (x ∷ xs) = if p x then x ∷ keep p xs else keep p xs

  abbrev pub count_of : (A → Bool) → List A → ℕ
  count_of p [] = 0
  count_of p (x ∷ xs) = (if p x then 1 else 0) + count_of p xs

  pub length-set : (xs : List A) (i : ℕ) (v : A) → length (set xs i v) ≡ length xs
  length-set [] i v = refl
  length-set (x ∷ xs) zero v = refl
  length-set (x ∷ xs) (suc i) v = ap suc (length-set xs i v)

  pub count_of-append :
      (p : A → Bool) (xs ys : List A) → count_of p (xs ++ ys) ≡ count_of p xs + count_of p ys
  count_of-append p [] ys = omega arith
  count_of-append p (x ∷ xs) ys = omega (arith, count_of-append p xs ys)

  pub count_of-le-length : (p : A → Bool) (xs : List A) → count_of p xs ≤ length xs
  count_of-le-length p [] = omega arith
  count_of-le-length p (x ∷ xs) = ground (arith, count_of-le-length p xs)

  pub count_of-keep : (p : A → Bool) (xs : List A) → count_of p xs ≡ length (keep p xs)
  count_of-keep p [] = refl
  count_of-keep p (x ∷ xs) = ground (arith, count_of-keep p xs)

  pub length-append : (xs ys : List A) → length (xs ++ ys) ≡ length xs + length ys
  length-append [] ys = omega arith
  length-append (x ∷ xs) ys = omega (arith, length-append xs ys)

  pub length-take : (n : ℕ) (xs : List A) → length (take n xs) ≡ min n (length xs)
  length-take zero xs = omega arith
  length-take (suc n) [] = omega arith
  length-take (suc n) (x ∷ xs) = omega (arith, length-take n xs)

  pub length-keep : (p : A → Bool) (xs : List A) → length (keep p xs) ≤ length xs
  length-keep p [] = omega arith
  length-keep p (x ∷ xs) = ground (arith, length-keep p xs)

  pub take-append-drop : (n : ℕ) (xs : List A) → take n xs ++ drop n xs ≡ xs
  take-append-drop zero xs = refl
  take-append-drop (suc n) [] = refl
  take-append-drop (suc n) (x ∷ xs) = ap (◌∷◌ x) (take-append-drop n xs)

-- A set of identifiers, as a Go `map[K]struct{}`.
abbrev pub member : ℕ → List ℕ → Bool
member k [] = false
member k (x ∷ xs) = (x == k) || member k xs

abbrev pub add : ℕ → List ℕ → List ℕ
add k [] = k ∷ []
add k (x ∷ xs) = if x == k then x ∷ xs else x ∷ add k xs

abbrev pub remove : ℕ → List ℕ → List ℕ
remove k [] = []
remove k (x ∷ xs) = if x == k then remove k xs else x ∷ remove k xs

pub member-add : (k j : ℕ) (xs : List ℕ) → member j (add k xs) ≡ (k == j) || member j xs
member-add k j [] = ground arith
member-add k j (x ∷ xs) = ground (arith, member-add k j xs)

pub member-remove : (k j : ℕ) (xs : List ℕ) → member j (remove k xs) ≡ not (k == j) && member j xs
member-remove k j [] = ground arith
member-remove k j (x ∷ xs) = ground (arith, member-remove k j xs)

pub member-append : (k : ℕ) (xs ys : List ℕ) → member k (xs ++ ys) ≡ member k xs || member k ys
member-append k [] ys = refl
member-append k (x ∷ xs) ys = ground (arith, member-append k xs ys)

pub member-keep : (p : ℕ → Bool) (k : ℕ) (xs : List ℕ) → member k (keep p xs) ≡ p k && member k xs
member-keep p k [] = ground arith
member-keep p k (x ∷ xs) = ground (arith, member-keep p k xs)

pub member-take : (n k : ℕ) (xs : List ℕ) → member k (take n xs) ≡ true → member k xs ≡ true
member-take zero k xs h = absurd (ground arith)
member-take (suc n) k [] h = h
member-take (suc n) k (x ∷ xs) h = ground (arith, member-take n k xs)

pub length-add-le : (k : ℕ) (xs : List ℕ) → length (add k xs) ≤ length xs + 1
length-add-le k [] = omega arith
length-add-le k (x ∷ xs) = ground (arith, length-add-le k xs)

-- No identifier occurs twice.
abbrev pub IsDistinct : List ℕ → Type 0
IsDistinct [] = Unit {0}
IsDistinct (x ∷ xs) = (member x xs ≡ false) × IsDistinct xs

-- How often an identifier occurs.
abbrev pub occurs : ℕ → List ℕ → ℕ
occurs k = count_of (λ x. x == k)

pub member-occurs : (k : ℕ) (xs : List ℕ) → member k xs ≡ ltb 0 (occurs k xs)
member-occurs k [] = ground arith
member-occurs k (x ∷ xs) = ground (arith, member-occurs k xs)

pub IsDistinct-occurs : (k : ℕ) (xs : List ℕ) → IsDistinct xs → occurs k xs ≤ 1
IsDistinct-occurs k [] d = omega arith
IsDistinct-occurs k (x ∷ xs) d = ground (arith, IsDistinct-occurs k xs d.1, member-occurs k xs)

pub IsDistinct-of_occurs : (xs : List ℕ) → ((k : ℕ) → occurs k xs ≤ 1) → IsDistinct xs
IsDistinct-of_occurs [] h = tt
IsDistinct-of_occurs (x ∷ xs) h =
    (ground (arith, h x, member-occurs x xs), IsDistinct-of_occurs xs (λ k. ground (arith, h k)))

pub IsDistinct-add : (k : ℕ) (xs : List ℕ) → IsDistinct xs → IsDistinct (add k xs)
IsDistinct-add k [] d = (refl, tt)
IsDistinct-add k (x ∷ xs) d = ground (arith, IsDistinct-add k xs d.1, member-add k x xs)

pub IsDistinct-remove : (k : ℕ) (xs : List ℕ) → IsDistinct xs → IsDistinct (remove k xs)
IsDistinct-remove k [] d = tt
IsDistinct-remove k (x ∷ xs) d = ground (arith, IsDistinct-remove k xs d.1, member-remove k x xs)
