-- ===== src/Training/Evaluate/Scores/Perfect.antt =====
-- The scores that wfppdl/training/source/evaluate_multistep.py gives a prediction without an error.
use container_hackathon.Prelude.{ℕ, ◌≡◌, refl, sym, ap, ◌∙◌, List, [], ◌∷◌, length, replicate}
use container_hackathon.Prelude.{Result, ok, raise, ◌>>=◌, >>=-eq-ok, ok-injective}
use container_hackathon.Training.Numbers.{Numbers}
use container_hackathon.Training.Evaluate.Scores.{
  Sequences, later_values, squares, Score, mean_squared, later_error, step_error, scores,
}

module _ (numbers : Numbers) where
  open numbers use {Number, sub, mul}

  squares-same :
      (xs : List Number)
      → ((x : Number) → sub x x ≡ numbers.zero)
      → mul numbers.zero numbers.zero ≡ numbers.zero
      → squares numbers xs xs ≡ ok (replicate (length xs) numbers.zero)
  unfolding squares
  squares-same [] same square = refl
  squares-same (x ∷ xs) same square = rw (squares-same xs same square, same x, square) refl

  module _ (mean : List Number → Number) where
    same_error :
        (error : Result Number) (m : Number) (s : Score numbers)
        → (do
          last ← error
          prev ← error
          ok (record { mse_model = m; mse_model_last = last; mse_prev = prev }))
          ≡ ok s
        → (s.mse_model ≡ m) × (s.mse_model_last ≡ s.mse_prev)
    same_error (raise e) m s h = absurd cc
    same_error (ok n) m s h =
        let same : record { mse_model = m; mse_model_last = n; mse_prev = n } ≡ s = cc in
        (
          ap (λ t. t.mse_model) (sym same),
          sym (ap (λ t. t.mse_model_last) same) ∙ ap (λ t. t.mse_prev) same,
        )

    later_error-same :
        (x : Sequences numbers) (m : Number)
        → ((v : Number) → sub v v ≡ numbers.zero)
        → mul numbers.zero numbers.zero ≡ numbers.zero
        → later_error numbers mean x x ≡ ok m
        → (k : ℕ) × (m ≡ mean (replicate k numbers.zero))
    unfolding later_error
    later_error-same x m same square h = go (later_values numbers 1 x) h
      where
        go :
            (values : Result (List Number))
            → (do xs ← values; ys ← values; mean_squared numbers mean xs ys) ≡ ok m
            → (k : ℕ) × (m ≡ mean (replicate k numbers.zero))
        go (raise e) k = absurd cc
        go (ok xs) k =
            let run : ok (mean (replicate (length xs) numbers.zero)) ≡ ok m =
              rw (squares-same xs same square) at k in
            (length xs, sym (ok-injective run))

    -- Where a number less itself is zero, and zero times zero too: of a prediction that is the truth, the
    -- first score is the mean of zeros, but the score of its last step is that of the frame five steps
    -- before.
    pub scores-perfect :
        (x : Sequences numbers) (s : Score numbers)
        → ((v : Number) → sub v v ≡ numbers.zero)
        → mul numbers.zero numbers.zero ≡ numbers.zero
        → scores numbers mean x x ≡ ok s
        → ((k : ℕ) × (s.mse_model ≡ mean (replicate k numbers.zero)))
          × (s.mse_model_last ≡ s.mse_prev)
    unfolding scores
    scores-perfect x s same square h =
        let (m, first, rest) = >>=-eq-ok (later_error numbers mean x x) _ h in
        let (model, equal) = same_error (step_error numbers mean 9 x 14 x) m s rest in
        let (k, zeros) = later_error-same x m same square first in ((k, model ∙ zeros), equal)
