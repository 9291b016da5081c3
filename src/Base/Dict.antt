-- ===== src/Base/Dict.antt =====
-- A JavaScript `Map` keyed by texts: its entries in insertion order.
use Prim.Native.Nat.{ℕ, ◌+◌}
use Prim.Native.String.{String}
use mathlib.Core.Path.{◌≡◌, refl}
use mathlib.Core.Option.{Option, none, some}
use mathlib.Core.List.{List, [], ◌∷◌}
use native.Mathlib.Omega.{arith}
use text.Mathlib.TextEquality.{eq_iff}
use ai_trader_api.Base.Tests.{str_eq, if◌then◌else◌}

abbrev pub Dict {ℓ} : Type ℓ → Type ℓ
Dict V = List (String × V)

module _ {ℓ} {V : Type ℓ} where
  -- `m.get(k)`.
  abbrev pub lookup : String → Dict V → Option V
  lookup k [] = none
  lookup k ((j, v) ∷ d) = if str_eq j k then some v else lookup k d

  -- `m.set(k, v)`: a new key goes to the end.
  abbrev pub insert : String → V → Dict V → Dict V
  insert k v [] = (k, v) ∷ []
  insert k v ((j, w) ∷ d) = if str_eq j k then (j, v) ∷ d else (j, w) ∷ insert k v d

  -- `m.delete(k)`.
  abbrev pub erase : String → Dict V → Dict V
  erase k [] = []
  erase k ((j, w) ∷ d) = if str_eq j k then d else (j, w) ∷ erase k d

  -- No key is listed twice.
  abbrev pub HasUniqueKeys : Dict V → Type ℓ
  HasUniqueKeys [] = Unit
  HasUniqueKeys ((j, w) ∷ d) = (lookup j d ≡ none) × HasUniqueKeys d

module _ {ℓ} {V : Type ℓ} where
  pub lookup-insert :
      (k j : String) (v : V) (d : Dict V)
      → lookup j (insert k v d) ≡ (if str_eq k j then some v else lookup j d)
  lookup-insert k j v [] = refl
  lookup-insert k j v ((i, w) ∷ d) =
      ground (arith, eq_iff k j, eq_iff i k, eq_iff i j, lookup-insert k j v d)

  pub lookup-erase :
      (k j : String) (d : Dict V)
      → HasUniqueKeys d
      → lookup j (erase k d) ≡ (if str_eq k j then none else lookup j d)
  lookup-erase k j [] h = ground arith
  lookup-erase k j ((i, w) ∷ d) h =
      ground (arith, eq_iff k j, eq_iff i k, eq_iff i j, lookup-erase k j d)

  pub insert-HasUniqueKeys :
      (k : String) (v : V) (d : Dict V) → HasUniqueKeys d → HasUniqueKeys (insert k v d)
  insert-HasUniqueKeys k v [] h = (refl, tt)
  insert-HasUniqueKeys k v ((i, w) ∷ d) h =
      ground (arith, eq_iff i k, eq_iff k i, insert-HasUniqueKeys k v d, lookup-insert k i v d)

  pub erase-HasUniqueKeys : (k : String) (d : Dict V) → HasUniqueKeys d → HasUniqueKeys (erase k d)
  erase-HasUniqueKeys k [] h = tt
  erase-HasUniqueKeys k ((i, w) ∷ d) h =
      ground (arith, eq_iff i k, eq_iff k i, erase-HasUniqueKeys k d, lookup-erase k i d)

-- The sum of a weight over the entries, and how `insert` and `erase` change it.
module _ {ℓ} {V : Type ℓ} (weight : String → V → ℕ) where
  abbrev pub total : Dict V → ℕ
  total [] = 0
  total ((k, v) ∷ d) = weight k v + total d

  abbrev pub weight_of : String → Option V → ℕ
  weight_of k none = 0
  weight_of k (some v) = weight k v

  pub total-insert :
      (k : String) (v : V) (d : Dict V)
      → total (insert k v d) + weight_of k (lookup k d) ≡ total d + weight k v
  total-insert k v [] = omega arith
  total-insert k v ((j, w) ∷ d) = ground (arith, eq_iff j k, total-insert k v d)

  pub total-erase :
      (k : String) (d : Dict V) → total (erase k d) + weight_of k (lookup k d) ≡ total d
  total-erase k [] = omega arith
  total-erase k ((j, w) ∷ d) = ground (arith, eq_iff j k, total-erase k d)
