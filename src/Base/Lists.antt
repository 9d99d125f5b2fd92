-- ===== src/Base/Lists.antt =====
-- Lists measured by native numbers, predicates over lists, and rows found by a test.
use Prim.Native.Nat.{ℕ, suc}
use mathlib.Core.Bool.{Bool, false, ◌||◌}
use mathlib.Core.List.{List, [], ◌∷◌}
use mathlib.Core.Option.{Option, none, some}
use ccb_api.Base.Tests.{if◌then◌else◌, ◌==◌}

module _ {ℓ} {A : Type ℓ} where
  abbrev pub length : List A → ℕ
  length [] = 0
  length (x ∷ xs) = suc (length xs)

  abbrev pub All {κ} : (A → Type κ) → List A → Type κ
  All P [] = Unit
  All P (x ∷ xs) = P x × All P xs

  -- `Array.filter`
  abbrev pub filter : (A → Bool) → List A → List A
  filter p [] = []
  filter p (x ∷ xs) = if p x then x ∷ filter p xs else filter p xs

  -- `rows.filter(p).length`
  abbrev pub count_if : (A → Bool) → List A → ℕ
  count_if p xs = length (filter p xs)

  -- `Array.some`
  abbrev pub any : (A → Bool) → List A → Bool
  any p [] = false
  any p (x ∷ xs) = p x || any p xs

  -- `Array.find`
  abbrev pub find : (A → Bool) → List A → Option A
  find p [] = none
  find p (x ∷ xs) = if p x then some x else find p xs

-- The elements of `new Set(xs)` that are not in `seen`: the first of equal numbers stays.
abbrev pub distinct : List ℕ → List ℕ → List ℕ
distinct seen [] = []
distinct seen (x ∷ xs) =
    if any (λ y. y == x) seen then distinct seen xs else x ∷ distinct (x ∷ seen) xs
