-- ===== src/Training/Evaluate/Scores.antt =====
-- The errors of a prediction in wfppdl/training/source/evaluate_multistep.py.
pub mod Perfect
use container_hackathon.Prelude.{
  ℕ, ◌≡◌, refl, sym, ap, ◌∙◌, Option, none, some, List, [], ◌∷◌, ◌++◌, map, drop, get_elem?,
  for_each, length, replicate,
}
use container_hackathon.Prelude.{
  index_error, value_error, Result, ok, raise, ◌>>=◌, or_raise, >>=-eq-ok, ok-injective,
}
use container_hackathon.Training.Numbers.{Numbers, Image, Pixel}

module _ (numbers : Numbers) where
  open numbers use {Number, sub, mul}

  -- An array of sequences of images.
  abbrev pub Sequences : Type 0
  Sequences = List (List (Image Number))

  abbrev pub flatten {ℓ} : {A : Type ℓ} → List (List A) → List A
  flatten [] = []
  flatten (xs ∷ rest) = xs ++ flatten rest

  -- `[..., 0]` at one place
  abbrev pub first_value : Pixel Number → Result Number
  first_value pixel = or_raise (get_elem? pixel 0) index_error

  -- `X[:, a:, :, :, 0]`, as one list
  unfoldable pub later_values : (a : ℕ) → Sequences → Result (List Number)
  later_values a sequences =
      for_each first_value (flatten (flatten (flatten (map (drop a) sequences))))

  -- `X[:, t, :, :, 0]`, as one list
  unfoldable pub step_values : (t : ℕ) → Sequences → Result (List Number)
  step_values t sequences = do
    images ← for_each (λ sequence. or_raise (get_elem? sequence t) index_error) sequences
    for_each first_value (flatten (flatten images))

  -- `(xs - ys)**2`
  unfoldable pub squares : (xs ys : List Number) → Result (List Number)
  squares [] [] = ok []
  squares (x ∷ xs) (y ∷ ys) = do rest ← squares xs ys; ok (mul (sub x y) (sub x y) ∷ rest)
  squares _ _ = raise value_error

  -- The three errors.
  pub record Score : Type 0 where
    pub mse_model : Number
    pub mse_model_last : Number
    pub mse_prev : Number

  module _ (mean : List Number → Number) where
    -- `np.mean((xs - ys)**2)`
    abbrev pub mean_squared : (xs ys : List Number) → Result Number
    mean_squared xs ys = do all ← squares xs ys; ok (mean all)

    -- The error of all steps but the first.
    unfoldable pub later_error : (x_test x_hat : Sequences) → Result Number
    later_error x_test x_hat = do
      xs ← later_values 1 x_test
      ys ← later_values 1 x_hat
      mean_squared xs ys

    -- The error of a step of one array with regard to a step of another.
    unfoldable pub step_error : (t : ℕ) → Sequences → (u : ℕ) → Sequences → Result Number
    step_error t x u y = do xs ← step_values t x; ys ← step_values u y; mean_squared xs ys

    unfoldable pub scores : (x_test x_hat : Sequences) → Result Score
    scores x_test x_hat = do
      mse_model ← later_error x_test x_hat
      mse_model_last ← step_error 9 x_test 14 x_hat
      mse_prev ← step_error 9 x_test 14 x_test
      ok (record { mse_model = mse_model; mse_model_last = mse_model_last; mse_prev = mse_prev })
