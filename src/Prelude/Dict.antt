-- ===== src/Prelude/Dict.antt =====
-- Dictionaries with numbers for keys, in insertion order.
use Prim.Native.Nat.{ℕ}
use mathlib.Core.Path.{◌≡◌, refl}
use mathlib.Core.Option.{Option, none, some}
use mathlib.Core.List.{List, [], ◌∷◌}
use native.Mathlib.Omega.{arith}
use container_hackathon.Prelude.Tests.{◌==◌, if◌then◌else◌}

-- The pairs of a key and its value; no key stands in two of them.
abbrev pub Dict {ℓ} : (Value : Type ℓ) → Type ℓ
Dict Value = List (ℕ × Value)

module _ {ℓ} {Value : Type ℓ} where
  -- `items[key] = value`: a new key goes to the end, an old one keeps its place.
  abbrev pub insert : (key : ℕ) (value : Value) → Dict Value → Dict Value
  insert key value [] = (key, value) ∷ []
  insert key value ((other, held) ∷ items) =
      if key == other then (key, value) ∷ items else (other, held) ∷ insert key value items

  -- `items.get(key)`
  abbrev pub lookup : (key : ℕ) → Dict Value → Option Value
  lookup key [] = none
  lookup key ((other, held) ∷ items) = if key == other then some held else lookup key items

  pub lookup-insert :
      (asked key : ℕ) (value : Value) (items : Dict Value)
      → lookup asked (insert key value items)
        ≡ (if asked == key then some value else lookup asked items)
  lookup-insert asked key value [] = refl
  lookup-insert asked key value ((other, held) ∷ items) =
      ground (arith, lookup-insert asked key value items)
