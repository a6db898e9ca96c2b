-- ===== src/Prelude/Maps.antt =====
-- Go's maps as association lists: the first entry of a key counts, and a write replaces it.
-- A program that ranges over a map sees an order that Go leaves open.
use mathlib.Core.Path.{◌≡◌, refl}
use mathlib.Core.List.{List, [], ◌∷◌}
use mathlib.Core.Option.{Option, none, some}
use native.Mathlib.Omega.{arith}
use cilium_cli.Prelude.Tests.{Eq, ◌==◌, if◌then◌else◌}

abbrev pub Map {ℓ κ} : Type ℓ → Type κ → Type (ℓ ⊔ κ)
Map K V = List (K × V)

module _ {ℓ κ} {K : Type ℓ} {V : Type κ} ⦃e : Eq K⦄ where
  unfoldable pub insert : K → V → Map K V → Map K V
  insert key value [] = (key, value) ∷ []
  insert key value (entry ∷ m) =
      if entry.0 == key then (key, value) ∷ m else entry ∷ insert key value m

  unfoldable pub lookup : K → Map K V → Option V
  lookup key [] = none
  lookup key (entry ∷ m) = if entry.0 == key then some entry.1 else lookup key m

  unfoldable pub remove : K → Map K V → Map K V
  remove k [] = []
  remove k ((j, w) ∷ m) = let rest = remove k m in if j == k then rest else (j, w) ∷ rest

  -- `m[k]`, which is the zero value where the key is missing
  unfoldable pub get_or : V → K → Map K V → V
  unfolding lookup
  get_or zero_value k m = elim (lookup k m) [ none ↦ zero_value | some v ↦ v ]

  pub lookup-insert :
      (k j : K) (value : V) (m : Map K V)
      → lookup j (insert k value m) ≡ (if k == j then some value else lookup j m)
  unfolding insert lookup
  lookup-insert k j value [] = refl
  lookup-insert k j value (entry ∷ m) =
      let later = lookup-insert k j value m in
      ground (arith, later, e.same_iff k j, e.same_iff entry.0 k, e.same_iff entry.0 j)

  pub lookup-remove :
      (k j : K) (m : Map K V) → lookup j (remove k m) ≡ (if k == j then none else lookup j m)
  unfolding lookup remove
  lookup-remove k j [] = ground arith
  lookup-remove k j ((i, w) ∷ m) =
      ground (arith, e.same_iff k j, e.same_iff i k, e.same_iff i j, lookup-remove k j m)

  pub get_or-lookup : (d : V) (k : K) (v : V) (m : Map K V) → lookup k m ≡ some v → get_or d k m ≡ v
  unfolding get_or
  get_or-lookup d k v m h = rw (h, get_or)

  pub get_or-insert :
      (d : V) (k j : K) (v : V) (m : Map K V)
      → get_or d j (insert k v m) ≡ (if k == j then v else get_or d j m)
  unfolding get_or
  get_or-insert d k j v m = ground (arith, lookup-insert k j v m)

pub ruleset map_laws = (lookup-insert, lookup-remove, get_or-insert)
