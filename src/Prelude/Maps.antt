-- ===== src/Prelude/Maps.antt =====
-- A `HashMap` with numeric keys, as an association list: the first entry of a key counts.
use Prim.Native.Nat.{ℕ, ◌+◌}
use mathlib.Core.Path.{◌≡◌, refl}
use mathlib.Core.Bool.{Bool, true, false}
use mathlib.Core.Option.{Option, none, some}
use mathlib.Core.List.{List, [], ◌∷◌, map}
use native.Mathlib.Omega.{arith}
use velodag_core.Prelude.Tests.{◌==◌, if◌then◌else◌}

abbrev pub Map {ℓ} : Type ℓ → Type ℓ
Map V = List (ℕ × V)

module _ {ℓ} {V : Type ℓ} where
  unfoldable pub lookup : ℕ → Map V → Option V
  lookup k [] = none
  lookup k ((j, v) ∷ m) = if j == k then some v else lookup k m

  unfoldable pub insert : ℕ → V → Map V → Map V
  insert k v [] = (k, v) ∷ []
  insert k v ((j, w) ∷ m) = if j == k then (k, v) ∷ m else (j, w) ∷ insert k v m

  -- Every entry of the key goes, so the key is absent afterwards.
  unfoldable pub erase : ℕ → Map V → Map V
  erase k [] = []
  erase k ((j, w) ∷ m) = if j == k then erase k m else (j, w) ∷ erase k m

  unfoldable pub contains_key : ℕ → Map V → Bool
  unfolding lookup
  contains_key k m = elim (lookup k m) [ none ↦ false | some _ ↦ true ]

  unfoldable pub keys : Map V → List ℕ
  keys = map (λ e. e.0)

  -- `get(k).copied().unwrap_or(d)`
  unfoldable pub lookup_or : V → ℕ → Map V → V
  unfolding lookup
  lookup_or d k m = elim (lookup k m) [ none ↦ d | some v ↦ v ]

  pub lookup-insert :
      (at asked : ℕ) (new : V) (m : Map V)
      → lookup asked (insert at new m) ≡ (if at == asked then some new else lookup asked m)
  unfolding lookup insert
  lookup-insert at asked new [] = refl
  lookup-insert at asked new ((key, old) ∷ rest) = ground (arith, lookup-insert at asked new rest)

  pub lookup-erase :
      (k j : ℕ) (m : Map V) → lookup j (erase k m) ≡ (if k == j then none else lookup j m)
  unfolding lookup erase
  lookup-erase k j [] = ground arith
  lookup-erase k j ((i, w) ∷ m) = ground (arith, lookup-erase k j m)

  pub lookup_or-insert :
      (d : V) (k j : ℕ) (v : V) (m : Map V)
      → lookup_or d j (insert k v m) ≡ (if k == j then v else lookup_or d j m)
  unfolding lookup_or
  lookup_or-insert d k j v m = ground (arith, lookup-insert k j v m)

-- The sum of the values of a map of numbers.
unfoldable pub sum_values : Map ℕ → ℕ
sum_values [] = 0
sum_values ((k, v) ∷ m) = v + sum_values m

-- A write moves the sum by the new value less the old one.
pub sum_values-insert :
    (k v : ℕ) (m : Map ℕ) → sum_values (insert k v m) + lookup_or 0 k m ≡ sum_values m + v
unfolding sum_values insert lookup_or
sum_values-insert k v [] = omega arith
sum_values-insert k v ((j, w) ∷ m) = ground (arith, sum_values-insert k v m)

-- No key stands twice: what `insert` and `erase` keep, from the empty map on.
abbrev pub Distinct {ℓ} : {V : Type ℓ} → Map V → Type ℓ
Distinct [] = Unit
Distinct {V} ((k, v) ∷ m) = (lookup k m ≡ none) × Distinct m

module _ {ℓ} {V : Type ℓ} where
  pub insert-Distinct : (k : ℕ) (v : V) (m : Map V) → Distinct m → Distinct (insert k v m)
  unfolding insert lookup
  insert-Distinct k v [] h = (refl, tt)
  insert-Distinct k v ((j, w) ∷ m) h =
      ground (arith, insert-Distinct k v m h.1, lookup-insert k j v m)

  pub erase-Distinct : (k : ℕ) (m : Map V) → Distinct m → Distinct (erase k m)
  unfolding erase
  erase-Distinct k [] h = tt
  erase-Distinct k ((j, w) ∷ m) h = ground (arith, erase-Distinct k m h.1, lookup-erase k j m)

  module _ (size : V → ℕ) where
    -- The sizes of all values together, and the size of one key's value.
    abbrev pub total_size : Map V → ℕ
    total_size [] = 0
    total_size ((k, v) ∷ m) = size v + total_size m

    abbrev pub size_at : Option V → ℕ
    size_at none = 0
    size_at (some v) = size v

    pub total_size-insert :
        (k : ℕ) (v : V) (m : Map V)
        → total_size (insert k v m) + size_at (lookup k m) ≡ total_size m + size v
    unfolding insert lookup
    total_size-insert k v [] = omega arith
    total_size-insert k v ((j, w) ∷ m) = ground (arith, total_size-insert k v m)

    pub total_size-erase_absent :
        (k : ℕ) (m : Map V) → lookup k m ≡ none → total_size (erase k m) ≡ total_size m
    unfolding erase lookup
    total_size-erase_absent k [] h = refl
    total_size-erase_absent k ((j, w) ∷ m) h = ground (arith, total_size-erase_absent k m)

    pub total_size-erase :
        (k : ℕ) (m : Map V)
        → Distinct m
        → total_size (erase k m) + size_at (lookup k m) ≡ total_size m
    unfolding erase lookup
    total_size-erase k [] h = refl
    total_size-erase k ((j, w) ∷ m) h =
        ground (arith, total_size-erase k m h.1, total_size-erase_absent k m, same)
      where
        same : j ≡ k → lookup j m ≡ lookup k m
        same e = λ i. lookup (e i) m
