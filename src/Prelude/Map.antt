-- ===== src/Prelude/Map.antt =====
-- std::unordered_map and std::map with integer keys, as association lists.
use mathlib.Core.Path.{◌≡◌, refl}
use mathlib.Core.List.{List, [], ◌∷◌}
use mathlib.Core.Option.{Option, none, some}
use native.Mathlib.Omega.{arith}
use aeron_cluster_cpp.Prelude.Tests.{if◌then◌else◌}
use aeron_cluster_cpp.Prelude.Int.{ℤ, ◌==ℤ◌, ==ℤ_iff}

module _ {ℓ} {V : Type ℓ} where
  -- `find`.
  unfoldable pub lookup : ℤ → List (ℤ × V) → Option V
  lookup k [] = none
  lookup k ((j, v) ∷ m) = if j ==ℤ k then some v else lookup k m

  -- `insert` leaves the value of a key that is there.
  unfoldable pub insert : ℤ → V → List (ℤ × V) → List (ℤ × V)
  insert k v [] = (k, v) ∷ []
  insert k v ((j, w) ∷ m) = if j ==ℤ k then (j, w) ∷ m else (j, w) ∷ insert k v m

  unfoldable pub erase : ℤ → List (ℤ × V) → List (ℤ × V)
  erase k [] = []
  erase k ((j, w) ∷ m) = let rest = erase k m in if j ==ℤ k then rest else (j, w) ∷ rest

  pub lookup-insert :
      (k j : ℤ) (v : V) (m : List (ℤ × V))
      → lookup k m ≡ none
      → lookup j (insert k v m) ≡ (if k ==ℤ j then some v else lookup j m)
  unfolding lookup insert
  lookup-insert k j v [] e = refl
  lookup-insert k j v ((i, w) ∷ m) e =
      ground (arith, ==ℤ_iff k j, ==ℤ_iff i k, ==ℤ_iff i j, lookup-insert k j v m)

  pub insert_present : (k : ℤ) (v w : V) (m : List (ℤ × V)) → lookup k m ≡ some w → insert k v m ≡ m
  unfolding lookup insert
  insert_present k v w [] e = cc
  insert_present k v w ((i, u) ∷ m) e = ground (arith, insert_present k v w m)

  pub lookup-erase :
      (k j : ℤ) (m : List (ℤ × V)) → lookup j (erase k m) ≡ (if k ==ℤ j then none else lookup j m)
  unfolding lookup erase
  lookup-erase k j [] = ground arith
  lookup-erase k j ((i, w) ∷ m) =
      ground (arith, ==ℤ_iff k j, ==ℤ_iff i k, ==ℤ_iff i j, lookup-erase k j m)
