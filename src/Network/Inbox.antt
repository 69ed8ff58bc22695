-- ===== src/Network/Inbox.antt =====
-- `std::map<std::string, ...>` as an association list with one entry to a key.
use Prim.Native.String.{String}
use text.Mathlib.Text.{◌==◌}
use text.Mathlib.TextEquality.{eq_iff}
use ckriopassthru.Base.{◌≡◌, refl, Option, none, some, List, [], ◌∷◌, arith, if◌then◌else◌}

abbrev pub MessageMap {ℓ} : Type ℓ → Type ℓ
MessageMap V = List (String × V)

module _ {ℓ} {V : Type ℓ} where
  unfoldable pub lookup : String → MessageMap V → Option V
  lookup k [] = none
  lookup k ((j, v) ∷ m) = if k == j then some v else lookup k m

  unfoldable pub insert : String → V → MessageMap V → MessageMap V
  insert k v [] = (k, v) ∷ []
  insert k v ((j, w) ∷ m) = if k == j then (k, v) ∷ m else (j, w) ∷ insert k v m

  unfoldable pub erase : String → MessageMap V → MessageMap V
  erase k [] = []
  erase k ((j, w) ∷ m) = let rest = erase k m in if k == j then rest else (j, w) ∷ rest

  pub lookup-insert :
      (k j : String) (v : V) (m : MessageMap V)
      → lookup j (insert k v m) ≡ (if j == k then some v else lookup j m)
  unfolding lookup insert
  lookup-insert k j v [] = refl
  lookup-insert k j v ((i, w) ∷ m) =
      ground (arith, eq_iff j k, eq_iff k i, eq_iff j i, lookup-insert k j v m)

  pub lookup-erase :
      (k j : String) (m : MessageMap V)
      → lookup j (erase k m) ≡ (if j == k then none else lookup j m)
  unfolding lookup erase
  lookup-erase k j [] = ground arith
  lookup-erase k j ((i, w) ∷ m) =
      ground (arith, eq_iff j k, eq_iff k i, eq_iff j i, lookup-erase k j m)
