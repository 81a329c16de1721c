-- ===== src/Training/EvaluateSamples.antt =====
-- The theorems on the evaluation, the conversion and the extrema at concrete data.
use container_hackathon.Prelude.{
  ℕ, ◌+◌, ◌-◌, ◌*◌, ◌/◌, ◌≡◌, refl, arith, Bool, true, List, [], ◌∷◌, ◌++◌, length, map, replicate,
  All, All-replicate, for_each, ok, some,
}
use container_hackathon.Prelude.Text.{Text, codes}
use container_hackathon.Files.{World, dir, file, entry, end}
use container_hackathon.Training.Numbers.{Numbers, Image}
use container_hackathon.Training.Generator.{Generator}
use container_hackathon.Training.Generator.Batches.{IsColoured, processed, window}
use container_hackathon.Training.Generator.Valid.{IsValid}
use container_hackathon.Training.PredNet.{PredNet, new_prednet}
use container_hackathon.Training.PredNet.Config.{get_config}
use container_hackathon.Training.Model.Outputs.{training_prednet}
use container_hackathon.Training.Evaluate.{Libraries, prepare, steps}
use container_hackathon.Training.Evaluate.Prepared.{IsTrained, testing_layer, prepare-runs}
use container_hackathon.Training.Evaluate.Scores.{
  Sequences, Score, scores, later_error, step_error, later_values, step_values, squares,
}
use container_hackathon.Training.Evaluate.Scores.Perfect.{scores-perfect}
use container_hackathon.Training.PredNet.Checks.{IsSized}
use container_hackathon.Training.PredNet.Build.{Built, build, trainable_weights}
use container_hackathon.Training.Convert.{Array, convert_weights}
use container_hackathon.Training.Convert.Layout.{convert_weights-built}
use container_hackathon.Training.Extrema.{Statistics, extract}
use container_hackathon.Training.Extrema.Printed.{extract-lines}

abbrev numbers : Numbers
numbers = record {
  Number = ℕ;
  literal = length;
  zero = 0;
  of_nat = λ n. n;
  add = λ a b. a + b;
  mul = λ a b. a * b;
  sub = λ a b. a - b;
  div = λ a b. a / b;
  float32 = λ a. a;
}

abbrev all_known : Text → Bool
all_known name = true

-- The layer that kitti_train.py trains.
abbrev net : PredNet
net = training_prednet (codes "channels_last")

-- One row of one place.
abbrev image : ℕ → Image ℕ
image n = ((n ∷ (n + 1) ∷ (n + 2) ∷ []) ∷ []) ∷ []

abbrev weights : Text
weights = codes "weights"

abbrev mean : List ℕ → ℕ
mean = length

abbrev libraries : Libraries numbers Text
libraries = record {
  image_data_format = codes "channels_last";
  known = all_known;
  base_config = [];
  load_images = λ w path. ok (replicate 20 (image 10));
  load_sources = λ w path. ok (replicate 20 (codes "a"));
  permutation = λ starts. starts;
  from_json = λ text. ok (10 ∷ 128 ∷ 160 ∷ 3 ∷ [], get_config [] net);
  load_weights = λ w path. ok weights;
  predict = λ shape layer held sequences size. sequences;
  mean = mean;
  decimal = λ n. codes "0";
  shape_text = λ sequences. codes "()";
  render = λ panels. [];
}

abbrev disk : World
disk = record {
  root = dir (
      entry (codes "model_data_keras2")
        (dir (entry (codes "prednet_kitti_model-extrapfinetuned.json") (file (codes "model")) end))
        end);
  cwd = [];
}

trained : IsTrained numbers Text libraries disk net 10 (128 ∷ 160 ∷ 3 ∷ []) weights
unfolding new_prednet
trained = record {
  json_string = codes "model";
  json_read = refl;
  json_parsed = refl;
  weights_loaded = refl;
  made = refl;
}

coloured : (k : ℕ) → All (IsColoured numbers) (replicate k (image 10))
coloured k = All-replicate (IsColoured numbers) k (image 10) (((omega arith, tt), tt))

prepare-runs_example :
    (g : Generator numbers) × IsValid numbers g
    × (g.images ≡ replicate 20 (image 10))
    × (g.nt ≡ steps)
    × (prepare numbers Text libraries disk
        ≡ some (
            ok (record {
              test_prednet = testing_layer net;
              weights = weights;
              input_shape = steps ∷ 128 ∷ 160 ∷ 3 ∷ [];
              data_format = net.data_format;
              x_test = map (λ s. processed numbers (window numbers g s)) g.possible_starts;
            })))
prepare-runs_example =
    prepare-runs numbers Text libraries disk net 10 (128 ∷ 160 ∷ 3 ∷ []) weights trained refl
      (image 10) (replicate 19 (image 10)) (replicate 20 (codes "a")) refl refl refl (coloured 20)

-- One sequence of fifteen images.
abbrev film : Sequences numbers
film = replicate 15 (image 10) ∷ []

abbrev film_score : Score numbers
film_score = record { mse_model = 14; mse_model_last = 1; mse_prev = 1 }

scores-film : scores numbers mean film film ≡ ok film_score
unfolding scores later_error step_error later_values step_values squares for_each
scores-film = refl

scores-perfect_example :
    ((k : ℕ) × (14 ≡ mean (replicate k 0))) × (film_score.mse_model_last ≡ film_score.mse_prev)
scores-perfect_example =
    scores-perfect numbers mean film film_score (λ v. omega arith) refl scores-film

net-IsSized : IsSized net
unfolding IsSized
net-IsSized = (refl, refl, refl, refl, refl)

abbrev input_shape : List ℕ
input_shape = 5 ∷ 10 ∷ 128 ∷ 160 ∷ 3 ∷ []

convert_weights-built_example :
    (kinds : List (List Built)) × (build net input_shape ≡ ok kinds)
    × ((weights : List (Array ℕ))
        → map (λ a. a.shape) weights ≡ trainable_weights kinds
        → convert_weights ℕ net weights ≡ ok weights)
convert_weights-built_example =
    convert_weights-built ℕ net net-IsSized input_shape 128 160 5 3 3 48 refl refl refl refl refl
      refl (λ h. omega (arith, h))

-- Statistics of values that are all the same but for a deviation of one; a number is one character.
abbrev of_all : List ℕ → ℕ
of_all [] = 0
of_all (x ∷ xs) = x

abbrev statistics : Statistics numbers
statistics = record {
  load = λ w path. ok (replicate 2 (image 10));
  amax = of_all;
  amin = of_all;
  mean = of_all;
  std = λ xs. 1;
  number_text = λ n. n ∷ [];
  shape_text = λ images. codes "()";
}

-- The lines for a channel whose values are all `x`.
abbrev lines_of : (name mean_label : Text) → (x : ℕ) → List Text
lines_of name mean_label x =
    (codes "max" ++ (name ++ (codes ": " ++ (x ∷ []))))
    ∷ (codes "min" ++ (name ++ (codes ": " ++ (x ∷ []))))
    ∷ (mean_label ++ (codes ": " ++ (x ∷ [])))
    ∷ (codes "std" ++ (name ++ (codes ": " ++ (1 ∷ []))))
    ∷ (codes "highCut" ++ (name ++ (codes ": " ++ ((x + 3) ∷ []))))
    ∷ (codes "lowCut" ++ (name ++ (codes ": " ++ ((x - 3) ∷ []))))
    ∷ []
    ∷ []

extract-lines_example :
    extract numbers statistics disk
    ≡ ok (
        codes "Shape of X:"
        ∷ codes "()"
        ∷ []
        ∷ (lines_of (codes "T2") (codes "meanT2") 10
            ++ (lines_of (codes "GP") (codes "meanGP") 11
                ++ lines_of (codes "GPH") (codes "meanGP") 12)))
extract-lines_example =
    extract-lines numbers statistics disk (replicate 2 (image 10)) refl (coloured 2) (omega arith)
