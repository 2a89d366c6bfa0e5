-- ===== src/Prelude/Maps.antt =====
-- A Go map with identifiers for keys, as an association list.
use Prim.Native.Nat.{ℕ}
use mathlib.Core.Path.{◌≡◌, refl, sym, ap}
use mathlib.Core.Bool.{Bool, true}
use mathlib.Core.Logic.{inl, inr}
use mathlib.Core.List.{List, [], ◌∷◌}
use mathlib.Core.Option.{Option, none, some}
use native.Mathlib.Omega.{arith}
use go_libp2p_pubsub.Prelude.Tests.{◌==◌, if◌then◌else◌, is_some, get_or_else, Bool-cases, ==_iff}
use go_libp2p_pubsub.Prelude.Lists.{member}

abbrev pub Map {ℓ} : Type ℓ → Type ℓ
Map V = List (ℕ × V)

module _ {ℓ} {V : Type ℓ} where
  abbrev pub lookup : ℕ → Map V → Option V
  lookup k [] = none
  lookup k ((j, v) ∷ m) = if j == k then some v else lookup k m

  abbrev pub insert : ℕ → V → Map V → Map V
  insert k v [] = (k, v) ∷ []
  insert k v ((j, w) ∷ m) = if j == k then (k, v) ∷ m else (j, w) ∷ insert k v m

  abbrev pub delete : ℕ → Map V → Map V
  delete k [] = []
  delete k ((j, w) ∷ m) = if j == k then delete k m else (j, w) ∷ delete k m

  abbrev pub has : ℕ → Map V → Bool
  has k m = is_some (lookup k m)

  -- `m[k]`, with Go's zero value for a missing key.
  abbrev pub lookup_or : V → ℕ → Map V → V
  lookup_or d k m = get_or_else (lookup k m) d

  pub lookup-insert :
      (k j : ℕ) (v : V) (m : Map V)
      → lookup j (insert k v m) ≡ (if k == j then some v else lookup j m)
  lookup-insert k j v [] = refl
  lookup-insert k j v ((i, w) ∷ m) = ground (arith, lookup-insert k j v m)

  pub lookup-delete :
      (k j : ℕ) (m : Map V) → lookup j (delete k m) ≡ (if k == j then none else lookup j m)
  lookup-delete k j [] = ground arith
  lookup-delete k j ((i, w) ∷ m) = ground (arith, lookup-delete k j m)

-- The keys of a map, in the order of its entries.
abbrev pub keys {ℓ} : {V : Type ℓ} → Map V → List ℕ
keys [] = []
keys ((k, v) ∷ m) = k ∷ keys m

module _ {ℓ} {V : Type ℓ} where
  pub has-member : (k : ℕ) (m : Map V) → has k m ≡ member k (keys m)
  has-member k [] = refl
  has-member k ((j, w) ∷ m) = ground (arith, has-member k m)

  -- `for k, v := range m { if !p(k, v) { delete(m, k) } }`.
  abbrev pub keep_entries : (ℕ → V → Bool) → Map V → Map V
  keep_entries p [] = []
  keep_entries p ((k, v) ∷ m) =
      if p k v then (k, v) ∷ keep_entries p m else delete k (keep_entries p m)

  abbrev pub filter_found : (V → Bool) → Option V → Option V
  filter_found p none = none
  filter_found p (some v) = if p v then some v else none

  pub lookup-keep_entries :
      (p : ℕ → V → Bool) (j : ℕ) (m : Map V)
      → lookup j (keep_entries p m) ≡ filter_found (p j) (lookup j m)
  lookup-keep_entries p j [] = refl
  lookup-keep_entries p j ((k, v) ∷ m) = elim (Bool-cases (k == j)) [
    | inl same ↦ rw (← (==_iff k j).0 same) (ground (arith, lookup-delete k k (keep_entries p m)))
    | inr other ↦ ground (arith, lookup-keep_entries p j m, lookup-delete k j (keep_entries p m))
  ]

  pub has_same : (k j : ℕ) (m : Map V) → (k == j) ≡ true → has j m ≡ has k m
  has_same k j m same = ap (λ i. has i m) (sym ((==_iff k j).0 same))
