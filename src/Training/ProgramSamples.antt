-- ===== src/Training/ProgramSamples.antt =====
-- The theorems on the training programs at concrete data.
use mathlib.Core.List.Perm
use container_hackathon.Prelude.{
  ℕ, ◌+◌, ◌-◌, ◌*◌, ◌/◌, ◌≡◌, refl, arith, Bool, true, if◌then◌else◌, List, [], ◌∷◌, length,
  replicate, set_item, ok, some, raise, os_error, Result, ◌>>=◌, All, All-replicate,
}
use container_hackathon.Prelude.Text.{Text, codes, text_eq}
use container_hackathon.Files.{World, dir, file, entry, end}
use container_hackathon.Files.Edit.{ensure_directory}
use container_hackathon.Training.Settings.{weights_dir}
use container_hackathon.Training.Numbers.{Numbers, Image}
use container_hackathon.Training.Generator.{Generator, next_batch}
use container_hackathon.Training.Generator.Batches.{IsColoured}
use container_hackathon.Training.PredNet.{whole, new_prednet, compute_output_shape, out_shape}
use container_hackathon.Training.Model.{
  Model, new_model, input_shape, make_prednet, time_loss_weights, output_shape, final_error,
  layer_loss_weights, equal_weight,
}
use container_hackathon.Training.Model.Outputs.{training_prednet, new_model-output_shape}
use container_hackathon.Training.Model.Loss.{IsUnital, mean_of_nine, final_error_lem}
use container_hackathon.Training.Train.{Fit, Libraries, train}
use container_hackathon.Training.Train.Run.{IsLoaded}
use container_hackathon.Training.Distributed
use container_hackathon.Training.Distributed.{Horovod, Moments}

-- Natural numbers, of which one and nought can be written.
abbrev numbers : Numbers
numbers = record {
  Number = ℕ;
  literal = λ text. if text_eq text (codes "1.") then 1 else 0;
  zero = 0;
  of_nat = λ n. n;
  add = λ a b. a + b;
  mul = λ a b. a * b;
  sub = λ a b. a - b;
  div = λ a b. a / b;
  float32 = λ a. a;
}

abbrev all_known : Text → Bool
all_known name = true

abbrev last : Text
last = codes "channels_last"

new_model-output_shape_example :
    (model : Model numbers) × (new_model numbers all_known last ≡ ok model)
    × (output_shape numbers model 5 ≡ ok (whole 5 ∷ whole 1 ∷ []))
new_model-output_shape_example = new_model-output_shape numbers all_known last 5 refl refl

abbrev model : Model numbers
model = record {
  batch_input_shape = 10 ∷ 128 ∷ 160 ∷ 3 ∷ [];
  prednet = training_prednet last;
  by_layer = layer_loss_weights numbers;
  by_time = numbers.zero ∷ replicate 9 (equal_weight numbers 10);
}

model_set_up : new_model numbers all_known last ≡ ok model
unfolding new_model time_loss_weights set_item make_prednet new_prednet output_shape
    compute_output_shape out_shape input_shape
model_set_up = refl

-- Fractions, which are not reduced.
abbrev fractions : Numbers
fractions = record {
  Number = ℕ × ℕ;
  literal = λ text. if text_eq text (codes "1.") then (1, 1) else (0, 1);
  zero = (0, 1);
  of_nat = λ n. (n, 1);
  add = λ a b. (a.0 * b.1 + b.0 * a.1, a.1 * b.1);
  mul = λ a b. (a.0 * b.0, a.1 * b.1);
  sub = λ a b. (a.0 * b.1 - b.0 * a.1, a.1 * b.1);
  div = λ a b. (a.0 * b.1, a.1 * b.0);
  float32 = λ a. a;
}

abbrev IsWhole : ℕ × ℕ → Type 0
IsWhole x = x.1 ≡ 1

same_pair : {a b c d : ℕ} → a ≡ c → b ≡ d → ◌≡◌ {A = ℕ × ℕ} (a, b) (c, d)
same_pair e f = λ i. (e i, f i)

unital : IsUnital fractions IsWhole
unital = record {
  mul_one = λ x. same_pair (omega arith) (omega arith);
  mul_nought = λ x whole. same_pair (omega arith) (omega (arith, whole));
  mul_zero = λ x whole. same_pair (omega arith) (omega (arith, whole));
  add_zero = λ x whole. same_pair (omega (arith, whole)) (omega (arith, whole));
  zero_small = refl;
}

abbrev in_fractions : Model fractions
in_fractions = record {
  batch_input_shape = 10 ∷ 128 ∷ 160 ∷ 3 ∷ [];
  prednet = training_prednet last;
  by_layer = layer_loss_weights fractions;
  by_time = (0, 1) ∷ replicate 9 (equal_weight fractions 10);
}

fractions_set_up : new_model fractions all_known last ≡ ok in_fractions
unfolding new_model time_loss_weights set_item make_prednet new_prednet output_shape
    compute_output_shape out_shape input_shape
fractions_set_up = refl

abbrev row : List (ℕ × ℕ)
row = (7, 1) ∷ (8, 1) ∷ (9, 1) ∷ (10, 1) ∷ []

final_error_lem_example :
    final_error fractions in_fractions (row ∷ replicate 9 row)
    ≡ fractions.add (fractions.add (0, 1) (mean_of_nine fractions (replicate 9 (7, 1)))) (0, 1)
final_error_lem_example =
    final_error_lem fractions IsWhole unital all_known last in_fractions fractions_set_up row
      (replicate 9 row) refl (All-replicate (λ r. length r ≡ 4) 10 row refl)
      (All-replicate (All IsWhole) 10 row (refl, (refl, (refl, (refl, tt)))))

-- It is seven: sixty-three ninths, over a ninth power of nine.
seven :
    (mean_of_nine fractions (replicate 9 (7, 1))).0
    ≡ 7 * (mean_of_nine fractions (replicate 9 (7, 1))).1
seven = refl

-- One row of one place.
abbrev image : ℕ → Image ℕ
image n = ((n ∷ (n + 1) ∷ (n + 2) ∷ []) ∷ []) ∷ []

-- A call that takes one batch of each generator, and leaves the files as they are.
abbrev fitting : Fit numbers → World → Result World
fitting call w = do
  trained ← next_batch numbers call.generator []
  validated ← next_batch numbers call.validation_data []
  ok w

abbrev libraries : Libraries numbers
libraries = record {
  image_data_format = last;
  known = all_known;
  base_config = [];
  load_images = λ w path. ok (replicate 12 (image 10));
  load_sources = λ w path. ok (replicate 12 (codes "a"));
  permutation = λ starts. starts;
  fit_generator = fitting;
  to_json = λ shape config. codes "model";
}

-- An empty directory, and what it has after the program has made its own.
abbrev before : World
before = record { root = dir end; cwd = [] }

abbrev after : World
after = record { root = dir (entry (codes "model_data_keras2") (dir end) end); cwd = [] }

abbrev saved : World
saved = record {
  root = dir (
      entry (codes "model_data_keras2")
        (dir (entry (codes "prednet_kitti_model.json") (file (codes "model")) end)) end);
  cwd = [];
}

made : ensure_directory weights_dir before ≡ ok after
unfolding ensure_directory
made = refl

coloured : All (IsColoured numbers) (replicate 12 (image 10))
coloured = All-replicate (IsColoured numbers) 12 (image 10) ((omega arith, tt), tt)

abbrev loaded :
    (w : World) (data_file source_file : Text) → IsLoaded numbers libraries w data_file source_file
loaded w data_file source_file = record {
  first = image 10;
  others = replicate 11 (image 10);
  sources = replicate 12 (codes "a");
  images_loaded = refl;
  sources_loaded = refl;
  counted = refl;
  enough = omega arith;
  coloured = coloured;
}

-- A process that looks for the directory and makes it while no other does.
abbrev alone : Moments
alone = record {
  testing = before;
  making = before;
  loading = after;
  fitting = after;
  saving = after;
}

-- The same, but another process makes the directory in between.
abbrev overtaken : Moments
overtaken = record {
  testing = before;
  making = after;
  loading = after;
  fitting = after;
  saving = after;
}

abbrev second : Horovod
second = record { size = 2; rank = 1; local_rank = 1 }

overtaken_raises : Distributed.train numbers libraries second overtaken ≡ some (raise os_error)
unfolding Distributed.train Distributed.make_weights_dir
overtaken_raises = refl
