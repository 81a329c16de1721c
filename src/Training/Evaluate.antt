-- ===== src/Training/Evaluate.antt =====
-- wfppdl/training/source/evaluate_multistep.py.
pub mod Prepared
pub mod Scores
pub mod Figures
use container_hackathon.Prelude.{
  ℕ, zero, suc, ◌+◌, Bool, Option, none, some, if◌then◌else◌, List, [], ◌∷◌, ◌++◌, length, map,
  drop, take, get_elem?, range, for_each, set_item,
}
use container_hackathon.Prelude.{
  index_error, key_error, value_error, type_error, Result, ok, raise, ◌>>=◌, or_raise,
}
use container_hackathon.Prelude.Text.{Text, codes, text_eq}
use container_hackathon.Prelude.Keyed.{get_key, set_key}
use container_hackathon.Files.{World, read_file, join_path}
use container_hackathon.Files.Edit.{ensure_directory, write_file}
use container_hackathon.Training.Settings.{data_dir, weights_dir, results_save_dir}
use container_hackathon.Training.Numbers.{Numbers, Image, Pixel, shape}
use container_hackathon.Training.Generator.{Generator, new_generator, create_all, value_at}
use container_hackathon.Training.PredNet.{PredNet}
use container_hackathon.Training.PredNet.Config.{
  Value, count, string, Config, get_config, prednet_of, as_string,
}
use container_hackathon.Training.Train.{continue}
use container_hackathon.Training.Evaluate.Figures.{Panel, figure, plot_path}
use container_hackathon.Training.Evaluate.Scores.{Sequences, Score, scores}

-- `nt`
abbrev pub steps : ℕ
steps = 15

abbrev pub n_plot : ℕ
n_plot = 10

abbrev pub batch_size : ℕ
batch_size = 10

abbrev pub extrap : ℕ
extrap = 10

abbrev pub weights_file : Text
weights_file =
    join_path weights_dir (codes "tensorflow_weights/prednet_kitti_weights-extrapfinetuned.hdf5")

abbrev pub json_file : Text
json_file = join_path weights_dir (codes "prednet_kitti_model-extrapfinetuned.json")

abbrev pub test_file : Text
test_file = join_path data_dir (codes "X_test.hkl")

abbrev pub test_sources : Text
test_sources = join_path data_dir (codes "sources_test.hkl")

-- The two assignments to `layer_config`.
unfoldable pub testing_config : Config → Config
testing_config layer_config =
    set_key (codes "extrap_start_time") (count extrap)
      (set_key (codes "output_mode") (string (codes "prediction")) layer_config)

-- `data_format`, from the values of `data_format` and of `dim_ordering`
abbrev pub format_from : (data_format dim_ordering : Option Value) → Result Text
format_from (some value) dim_ordering = as_string [] (some value)
format_from none dim_ordering = do
  value ← or_raise dim_ordering key_error
  as_string [] (some value)

unfoldable pub format_of : Config → Result Text
format_of layer_config =
    format_from (get_key (codes "data_format") layer_config)
      (get_key (codes "dim_ordering") layer_config)

module _ (numbers : Numbers) where
  open numbers use {Number}

  -- The value at a place of a plane.
  abbrev pub value_in : (i j : ℕ) → List (List Number) → Number
  value_in i j plane = elim (get_elem? plane i) [
    | none ↦ numbers.zero
    | some line ↦ value_at numbers j line
  ]

  -- `np.transpose(X, (0, 1, 3, 4, 2))`, for one image
  abbrev pub to_channels_last : Image Number → Image Number
  to_channels_last image =
      map (λ i. map (λ j. map (value_in i j) image) (range 0 (shape image).channels))
        (range 0 (shape image).columns)

  unfoldable pub rearranged : (data_format : Text) → Sequences numbers → Sequences numbers
  rearranged data_format sequences =
      if text_eq data_format (codes "channels_first")
      then map (map to_channels_last) sequences
      else sequences

  module _ (Weights : Type 0) where
    -- What the program uses of other libraries.
    pub record Libraries : Type 0 where
      pub image_data_format : Text
      pub known : Text → Bool
      pub base_config : Config
      pub load_images : World → Text → Result (List (Image Number))
      pub load_sources : World → Text → Result (List Text)
      pub permutation : List ℕ → List ℕ
      -- What `model_from_json` reads: the shape of a sequence, and the configuration of the second layer.
      pub from_json : Text → Result (List ℕ × Config)
      pub load_weights : World → Text → Result Weights
      -- `predict` of a model with an input of a shape, and a layer with weights
      pub predict :
          List ℕ → PredNet → Weights → Sequences numbers → (batch_size : ℕ) → Sequences numbers
      pub mean : List Number → Number
      -- `"%f"`, and `str` of the shape of an array
      pub decimal : Number → Text
      pub shape_text : Sequences numbers → Text
      -- What `savefig` writes.
      pub render : List (Panel numbers) → Text

    -- The variables before the prediction.
    pub record Testing : Type 0 where
      pub test_prednet : PredNet
      pub weights : Weights
      pub input_shape : List ℕ
      pub data_format : Text
      pub x_test : Sequences numbers

    module _ (libraries : Libraries) where
      open libraries use {
        image_data_format, known, base_config, load_images, load_sources, permutation, from_json,
        load_weights, predict, mean, decimal, shape_text, render,
      }

      -- The testing layer: the trained one with the mode and the start of extrapolation set.
      unfoldable pub make_testing_layer : World → Result (PredNet × (Weights × (List ℕ × Text)))
      make_testing_layer w = do
        json_string ← read_file w json_file
        read ← from_json json_string
        train_prednet ← prednet_of known image_data_format read.1
        weights ← load_weights w weights_file
        let layer_config = testing_config (get_config base_config train_prednet)
        data_format ← format_of layer_config
        test_prednet ← prednet_of known image_data_format layer_config
        input_shape ← or_raise (set_item read.0 0 steps) index_error
        ok (test_prednet, (weights, (input_shape, data_format)))

      -- `test_generator`
      unfoldable pub open_generator :
          World → (data_format : Text) → Option (Result (Generator numbers))
      open_generator w data_format =
          let loaded : Result (List (Image Number) × List Text) = (do
            images ← load_images w test_file
            sources ← load_sources w test_sources
            ok (images, sources)) in
          continue (some loaded) (λ arrays.
            new_generator numbers arrays.0 arrays.1 steps 8 (λ starts. starts) (codes "error")
              (codes "unique") none data_format)

      -- The program up to `X_test`.
      unfoldable pub prepare : World → Option (Result Testing)
      prepare w = continue (some (make_testing_layer w)) (λ made.
          continue (open_generator w made.1.1.1) (λ test_generator. some (do
            x_test ← create_all numbers test_generator
            ok (record {
              test_prednet = made.0;
              weights = made.1.0;
              input_shape = made.1.1.0;
              data_format = made.1.1.1;
              x_test = x_test;
            }))))

      -- The text of `prediction_scores.txt`.
      abbrev pub score_text : Score numbers → (x_test x_hat : Sequences numbers) → Text
      score_text s x_test x_hat =
          (codes "Model MSE: " ++ decimal s.mse_model ++ (b'\n' ∷ []))
          ++ ((codes
                  "Model MSE from only last prediction in sequence in comparison with extrap start time: "
                ++ decimal s.mse_model_last
                ++ (b'\n' ∷ []))
              ++ ((codes "Previous Frame MSE last frame vs extrap start time: "
                    ++ decimal s.mse_prev)
                  ++ ((codes "Shape of X_test: " ++ shape_text x_test)
                      ++ (codes "Shape of X_hat: " ++ shape_text x_hat))))

      -- The loop that saves plots.
      unfoldable pub save_plots : (x_test x_hat : Sequences numbers) → List ℕ → World → Result World
      save_plots x_test x_hat [] w = ok w
      save_plots x_test x_hat (i ∷ plot_idx) w = do
        panels ← figure numbers steps x_test x_hat i (range 0 steps)
        w' ← write_file (plot_path i) (render panels) w
        save_plots x_test x_hat plot_idx w'

      -- The program from the prediction on.
      unfoldable pub report : Testing → World → Result World
      report testing w = do
        let predicted =
            predict testing.input_shape testing.test_prednet testing.weights testing.x_test
              batch_size
        let x_test = rearranged testing.data_format testing.x_test
        let x_hat = rearranged testing.data_format predicted
        s ← scores numbers mean x_test x_hat
        w1 ← ensure_directory results_save_dir w
        w2 ←
            write_file (join_path results_save_dir (codes "prediction_scores.txt"))
              (score_text s x_test x_hat) w1
        w3 ← ensure_directory (join_path results_save_dir (codes "prediction_plots/")) w2
        save_plots x_test x_hat (take n_plot (permutation (range 0 (length x_test)))) w3

      -- The program, with the files that it leaves.
      unfoldable pub evaluate : World → Option (Result World)
      evaluate w = continue (prepare w) (λ testing. some (report testing w))
