-- ===== src/Prelude/Loops.antt =====
-- Loops over lists whose body may raise, and the assignment `xs[i] = x`.
use Prim.Native.Nat.{ℕ, zero, suc, ◌+◌, ◌<◌, ◌≤◌}
use mathlib.Core.Path.{◌≡◌, refl, ap, subst}
use mathlib.Core.List.{List, [], ◌∷◌, ◌++◌, map}
use mathlib.Core.Option.{Option, none, some}
use native.Mathlib.Omega.{arith}
use container_hackathon.Prelude.Lists.{length, All}
use container_hackathon.Prelude.Python.{Result, ok, ◌>>=◌, >>=-eq-ok}

-- `list(range(first, first + k))`
abbrev pub range : (first k : ℕ) → List ℕ
range first zero = []
range first (suc k) = first ∷ range (first + 1) k

pub length-range : (first k : ℕ) → length (range first k) ≡ k
length-range first zero = refl
length-range first (suc k) = ap suc (length-range (first + 1) k)

pub range-below : (first k : ℕ) → All (λ i. i < first + k) (range first k)
range-below first zero = tt
range-below first (suc k) =
    let same : first + 1 + k ≡ first + suc k = omega arith in
    (
      omega arith,
      subst (λ n. All (λ i. i < n) (range (first + 1) k)) same (range-below (first + 1) k),
    )

module _ {ℓ κ} {A : Type ℓ} {B : Type κ} where
  -- `[f(x) for x in xs]`, which ends with the first exception
  unfoldable pub for_each : (A → Result B) → List A → Result (List B)
  for_each f [] = ok []
  for_each f (x ∷ xs) = do y ← f x; ys ← for_each f xs; ok (y ∷ ys)

  pub for_each-map :
      (f : A → Result B) (g : A → B) (xs : List A)
      → All (λ x. f x ≡ ok (g x)) xs
      → for_each f xs ≡ ok (map g xs)
  unfolding for_each
  for_each-map f g [] h = refl
  for_each-map f g (x ∷ xs) h = rw (h.0, for_each-map f g xs h.1)

  pub for_each-total :
      (f : A → Result B) (xs : List A)
      → All (λ x. (y : B) × (f x ≡ ok y)) xs
      → (ys : List B) × (for_each f xs ≡ ok ys) × (length ys ≡ length xs)
  unfolding for_each
  for_each-total f [] h = ([], refl, refl)
  for_each-total f (x ∷ xs) ((y, e), h) =
      let (ys, run, same) = for_each-total f xs h in (y ∷ ys, rw (e, run) refl, ap suc same)

  -- The first round of a loop that has ended well.
  pub for_each-first :
      (f : A → Result B) (x : A) (xs : List A) (ys : List B)
      → for_each f (x ∷ xs) ≡ ok ys
      → (y : B) × (rest : List B) × (f x ≡ ok y) × (ys ≡ y ∷ rest)
  unfolding for_each
  for_each-first f x xs ys h =
      let (y, first, later) = >>=-eq-ok (f x) (λ y. do ys ← for_each f xs; ok (y ∷ ys)) h in
      let (rest, run, last) = >>=-eq-ok (for_each f xs) (λ ys. ok (y ∷ ys)) later in
      (y, rest, first, cc)

module _ {ℓ} {A : Type ℓ} where
  -- `xs[i] = x`, or nothing where the index is out of range
  unfoldable pub set_item : List A → ℕ → A → Option (List A)
  set_item [] i x = none
  set_item (y ∷ ys) zero x = some (x ∷ ys)
  set_item (y ∷ ys) (suc i) x = elim (set_item ys i x) [ none ↦ none | some zs ↦ some (y ∷ zs) ]

  pub set_item-append :
      (xs : List A) (y : A) (ys : List A) (x : A)
      → set_item (xs ++ (y ∷ ys)) (length xs) x ≡ some (xs ++ (x ∷ ys))
  unfolding set_item
  set_item-append [] y ys x = refl
  set_item-append (z ∷ xs) y ys x = rw (set_item-append xs y ys x)

  pub set_item-of_le : (xs : List A) (i : ℕ) (x : A) → length xs ≤ i → set_item xs i x ≡ none
  unfolding set_item
  set_item-of_le [] i x h = refl
  set_item-of_le (y ∷ ys) zero x h = absurd (omega arith)
  set_item-of_le (y ∷ ys) (suc i) x h = rw (set_item-of_le ys i x (omega arith))
