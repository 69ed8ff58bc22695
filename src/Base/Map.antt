-- ===== src/Base/Map.antt =====
-- `std::map` over integer keys: a list of its entries in the order of iteration, by key.
use Prim.Native.Nat.{ℕ, ◌≤◌, ◌<◌}
use mathlib.Core.Path.{◌≡◌, refl}
use mathlib.Core.Bool.{Bool}
use mathlib.Core.Option.{Option, none, some}
use mathlib.Core.List.{List, [], ◌∷◌}
use native.Mathlib.Omega.{arith}
use ckriopassthru.Base.Tests.{ltb, ◌==◌, if◌then◌else◌, is_some}

abbrev pub Map {ℓ} : Type ℓ → Type ℓ
Map V = List (ℕ × V)

module _ {ℓ} {V : Type ℓ} where
  unfoldable pub lookup : ℕ → Map V → Option V
  lookup k [] = none
  lookup k ((j, v) ∷ m) = if k == j then some v else lookup k m

  -- `m.count(k)`, as the condition that the code takes it for.
  unfoldable pub has : ℕ → Map V → Bool
  unfolding lookup
  has k m = is_some (lookup k m)

  -- `m[k] = v`.
  unfoldable pub insert : ℕ → V → Map V → Map V
  insert k v [] = (k, v) ∷ []
  insert k v ((j, w) ∷ m) =
      if ltb k j then (k, v) ∷ (j, w) ∷ m else if k == j then (k, v) ∷ m else (j, w) ∷ insert k v m

  -- `m.erase(k)`: the keys of a map are distinct, so at most one entry goes.
  unfoldable pub erase : ℕ → Map V → Map V
  erase k [] = []
  erase k ((j, w) ∷ m) = let rest = erase k m in if k == j then rest else (j, w) ∷ rest

  -- The keys rise strictly, from `n` on.
  abbrev pub From : ℕ → Map V → Type 0
  From n [] = Unit {0}
  From n ((j, w) ∷ m) = (n ≤ j) × From (ℕ.suc j) m

  abbrev pub IsSorted : Map V → Type 0
  IsSorted m = From 0 m

  pub From-mono : {a b : ℕ} (m : Map V) → a ≤ b → From b m → From a m
  From-mono [] h s = tt
  From-mono ((j, w) ∷ m) h s = (omega arith, s.1)

  pub lookup-insert :
      (k j : ℕ) (v : V) (m : Map V)
      → lookup j (insert k v m) ≡ (if k == j then some v else lookup j m)
  unfolding lookup insert
  lookup-insert k j v [] = ground arith
  lookup-insert k j v ((i, w) ∷ m) = ground (arith, lookup-insert k j v m)

  pub lookup-erase :
      (k j : ℕ) (m : Map V) → lookup j (erase k m) ≡ (if k == j then none else lookup j m)
  unfolding lookup erase
  lookup-erase k j [] = ground arith
  lookup-erase k j ((i, w) ∷ m) = ground (arith, lookup-erase k j m)

  pub lookup_below : (n k : ℕ) (m : Map V) → From n m → k < n → lookup k m ≡ none
  unfolding lookup
  lookup_below n k [] s h = refl
  lookup_below n k ((j, w) ∷ m) s h = ground (arith, lookup_below (ℕ.suc j) k m s.1)

  pub insert-From : (n k : ℕ) (v : V) (m : Map V) → n ≤ k → From n m → From n (insert k v m)
  unfolding insert
  insert-From n k v [] h s = (h, tt)
  insert-From n k v ((j, w) ∷ m) h s = ground (arith, insert-From (ℕ.suc j) k v m)

  pub erase-From : (n k : ℕ) (m : Map V) → From n m → From n (erase k m)
  unfolding erase
  erase-From n k [] s = tt
  erase-From n k ((j, w) ∷ m) s =
      ground (arith, erase-From (ℕ.suc j) k m s.1, From-mono {a = n} {b = ℕ.suc j} (erase k m))
