-- ===== src/Training/Evaluate/Figures.antt =====
-- The plots of wfppdl/training/source/evaluate_multistep.py.
use container_hackathon.Prelude.{
  ℕ, ◌+◌, Option, none, some, if◌then◌else◌, ◌==◌, List, [], ◌∷◌, ◌++◌, get_elem?, for_each,
}
use container_hackathon.Prelude.{index_error, Result, ok, ◌>>=◌, or_raise}
use container_hackathon.Prelude.Text.{Text, codes}
use container_hackathon.Files.{join_path}
use container_hackathon.Training.Settings.{results_save_dir}
use container_hackathon.Training.Numbers.{Numbers}
use container_hackathon.Training.PredNet.{str}
use container_hackathon.Training.Evaluate.Scores.{Sequences, first_value}

-- `plot_save_dir +  'plot_' + str(i) + '.jpg'`
abbrev pub plot_path : (i : ℕ) → Text
plot_path i =
    join_path results_save_dir (codes "prediction_plots/")
    ++ (codes "plot_" ++ (str i ++ codes ".jpg"))

module _ (numbers : Numbers) where
  open numbers use {Number}

  -- A subplot: its place in the grid, what `imshow` shows, and its label.
  pub record Panel : Type 0 where
    pub place : ℕ
    pub plane : List (List Number)
    pub label : Option Text

  -- `X[i,t,:,:,0]`
  unfoldable pub plane_at : Sequences numbers → (i t : ℕ) → Result (List (List Number))
  plane_at sequences i t = do
    sequence ← or_raise (get_elem? sequences i) index_error
    image ← or_raise (get_elem? sequence t) index_error
    for_each (for_each (first_value numbers)) image

  abbrev pub label_at : (t : ℕ) → Text → Option Text
  label_at t name = if t == 0 then some name else none

  -- The loop over the steps: the actual image in the upper row, the predicted one below it.
  unfoldable pub figure :
      (nt : ℕ) (x_test x_hat : Sequences numbers) → (i : ℕ) → List ℕ → Result (List Panel)
  figure nt x_test x_hat i [] = ok []
  figure nt x_test x_hat i (t ∷ ts) = do
    actual ← plane_at x_test i t
    predicted ← plane_at x_hat i t
    rest ← figure nt x_test x_hat i ts
    ok (
        record { place = t; plane = actual; label = label_at t (codes "Actual") }
        ∷ record { place = t + nt; plane = predicted; label = label_at t (codes "Predicted") }
        ∷ rest)
