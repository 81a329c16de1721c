-- ===== src/Prelude/Slices.antt =====
-- Python's slices `xs[a:b]`, with bounds that may be negative, and the last item `xs[-1]`.
use Prim.Native.Nat.{ℕ, zero, suc, ◌+◌, ◌-◌, ◌≤◌, min}
use mathlib.Core.Path.{◌≡◌, refl, sym, ap, ◌∙◌}
use mathlib.Core.List.{List, [], ◌∷◌, ◌++◌}
use mathlib.Core.Option.{Option, none, some}
use native.Mathlib.Omega.{arith}
use container_hackathon.Prelude.Lists.{length, take, drop}
use container_hackathon.Prelude.Int.{ℤ, pos, negsuc}

-- A bound in a list of `n` items: a negative one counts from the end.
abbrev pub bound : (n : ℕ) → ℤ → ℕ
bound n (pos k) = min k n
bound n (negsuc k) = n - suc k

module _ {ℓ} {A : Type ℓ} where
  abbrev pub slice : ℤ → ℤ → List A → List A
  slice a b xs = take (bound (length xs) b - bound (length xs) a) (drop (bound (length xs) a) xs)

  -- `xs[-1]`
  abbrev pub last_item : List A → Option A
  last_item [] = none
  last_item (x ∷ []) = some x
  last_item (x ∷ y ∷ ys) = last_item (y ∷ ys)

  pub last_item-append : (xs : List A) (x : A) → last_item (xs ++ (x ∷ [])) ≡ some x
  last_item-append [] x = refl
  last_item-append (y ∷ []) x = refl
  last_item-append (y ∷ z ∷ xs) x = last_item-append (z ∷ xs) x

  take-nil : (k : ℕ) → take {A = A} k [] ≡ []
  take-nil zero = refl
  take-nil (suc k) = refl

  -- Two slices that meet.
  pub take-join : (n m : ℕ) (xs : List A) → take n xs ++ take m (drop n xs) ≡ take (n + m) xs
  take-join zero m xs = ap (λ k. take k xs) (omega arith)
  take-join (suc n) zero [] = sym (take-nil (suc n + zero))
  take-join (suc n) (suc m) [] = sym (take-nil (suc n + suc m))
  take-join (suc n) m (x ∷ xs) =
      let same : suc (n + m) ≡ suc n + m = omega arith in
      ap (λ ys. x ∷ ys) (take-join n m xs) ∙ ap (λ k. take k (x ∷ xs)) same

-- A slice with bounds in order and in range.
pub slice_lem {ℓ} :
    {A : Type ℓ} (a b : ℕ) (xs : List A)
    → a ≤ b
    → b ≤ length xs
    → slice (pos a) (pos b) xs ≡ take (b - a) (drop a xs)
slice_lem a b xs low high =
    let bound_a : min a (length xs) ≡ a = omega arith in
    let bound_b : min b (length xs) ≡ b = omega arith in rw (bound_a, bound_b) refl
