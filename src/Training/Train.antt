-- ===== src/Training/Train.antt =====
-- wfppdl/training/source/kitti_train.py.
pub mod Run
use container_hackathon.Prelude.{
  ℕ, Bool, true, Option, none, some, if◌then◌else◌, ltb, List, [], ◌∷◌, Result, ok, raise, ◌>>=◌,
}
use container_hackathon.Prelude.Text.{Text, codes}
use container_hackathon.Files.{World, join_path}
use container_hackathon.Files.Edit.{ensure_directory, write_file}
use container_hackathon.Training.Settings.{data_dir, weights_dir}
use container_hackathon.Training.Numbers.{Numbers, Image}
use container_hackathon.Training.Generator.{Generator, new_generator}
use container_hackathon.Training.PredNet.{Size, whole, quotient}
use container_hackathon.Training.PredNet.Config.{Config, get_config}
use container_hackathon.Training.Model.{Model, new_model, steps}

abbrev pub weights_file : Text
weights_file = join_path weights_dir (codes "prednet_kitti_weights.hdf5")

abbrev pub json_file : Text
json_file = join_path weights_dir (codes "prednet_kitti_model.json")

abbrev pub train_file : Text
train_file = join_path data_dir (codes "X_train.hkl")

abbrev pub train_sources : Text
train_sources = join_path data_dir (codes "sources_train.hkl")

abbrev pub val_file : Text
val_file = join_path data_dir (codes "X_val.hkl")

abbrev pub val_sources : Text
val_sources = join_path data_dir (codes "sources_val.hkl")

abbrev pub save_model : Bool
save_model = true

abbrev pub nb_epoch : ℕ
nb_epoch = 2

abbrev pub batch_size : ℕ
batch_size = 5

-- `N_seq_val`
abbrev pub n_seq_val : ℕ
n_seq_val = 80

-- `lr_schedule`, as it is written
unfoldable pub lr_schedule : (epoch : ℕ) → Text
lr_schedule epoch = if ltb epoch 75 then codes "0.001" else codes "0.0001"

-- The callbacks of the two training programs.
pub data Callback : Type 0 where
  learning_rate_scheduler : (ℕ → Text) → Callback
  -- `ModelCheckpoint(filepath=..., monitor='val_loss', save_best_only=True)`
  model_checkpoint : Text → Callback
  broadcast_global_variables : (root_rank : ℕ) → Callback
  learning_rate_warmup : (warmup_epochs : ℕ) → Callback

-- `'adam'`, or `DistributedOptimizer(Adam(0.01 * size))`
pub data Optimizer : Type 0 where
  adam : Optimizer
  distributed_adam : (size : ℕ) → Optimizer

-- The next part of a program that may not end.
abbrev pub continue {ℓ κ} :
    {A : Type ℓ} {B : Type κ} → Option (Result A) → (A → Option (Result B)) → Option (Result B)
continue none rest = none
continue (some (raise e)) rest = some (raise e)
continue (some (ok a)) rest = rest a

module _ (numbers : Numbers) where
  -- What `fit_generator` is given, and the model that it is called on.
  pub record Fit : Type 0 where
    pub model : Model numbers
    pub optimizer : Optimizer
    pub generator : Generator numbers
    pub steps_per_epoch : Size
    pub epochs : ℕ
    pub callbacks : List Callback
    pub validation_data : Generator numbers
    pub validation_steps : Size

  -- What the programs use of other libraries.
  pub record Libraries : Type 0 where
    pub image_data_format : Text
    -- The names that `activations.get` takes.
    pub known : Text → Bool
    -- The configuration that the base class of `PredNet` gives.
    pub base_config : Config
    -- `hkl.load` of an array and of a list
    pub load_images : World → Text → Result (List (Image numbers.Number))
    pub load_sources : World → Text → Result (List Text)
    -- `np.random.permutation`
    pub permutation : List ℕ → List ℕ
    -- `fit_generator`, which saves weights where a callback says so; it raises what `next` of a
    -- generator raises
    pub fit_generator : Fit → World → Result World
    -- `to_json` of a model with an input of a shape, and `PredNet` for its second layer
    pub to_json : List ℕ → Config → Text

  module _ (libraries : Libraries) where
    open libraries use {
      image_data_format, known, base_config, load_images, load_sources, permutation, fit_generator,
      to_json,
    }

    -- `SequenceGenerator(...)` in the mode `all`, with the outputs `error`
    unfoldable pub open_generator :
        World
        → (data_file source_file : Text) (batch_size : ℕ) (shuffle : List ℕ → List ℕ)
        → (n_seq : Option ℕ) → Option (Result (Generator numbers))
    open_generator w data_file source_file batch_size shuffle n_seq =
        let loaded : Result (List (Image numbers.Number) × List Text) = (do
          images ← load_images w data_file
          sources ← load_sources w source_file
          ok (images, sources)) in
        continue (some loaded) (λ arrays.
          new_generator numbers arrays.0 arrays.1 steps batch_size shuffle (codes "error")
            (codes "all") n_seq image_data_format)

    -- `model.to_json()`
    abbrev pub json_of : Model numbers → Text
    json_of model = to_json model.batch_input_shape (get_config base_config model.prednet)

    -- `callbacks`
    abbrev pub callbacks : List Callback
    callbacks =
        let scheduler = learning_rate_scheduler lr_schedule in
        if save_model then scheduler ∷ model_checkpoint weights_file ∷ [] else scheduler ∷ []

    abbrev pub fit_call : Model numbers → (train_generator val_generator : Generator numbers) → Fit
    fit_call model train_generator val_generator = record {
      model = model;
      optimizer = adam;
      generator = train_generator;
      steps_per_epoch = whole 10;
      epochs = nb_epoch;
      callbacks = callbacks;
      validation_data = val_generator;
      validation_steps = quotient n_seq_val batch_size;
    }

    -- `if save_model:` and the writing of the model
    unfoldable pub save_json : Model numbers → World → Result World
    save_json model w = if save_model then write_file json_file (json_of model) w else ok w

    -- The program, with the call of `fit_generator` and the files that it leaves.
    unfoldable pub train : World → Option (Result (Fit × World))
    train w = continue (some (new_model numbers known image_data_format)) (λ model.
        continue (open_generator w train_file train_sources batch_size permutation none)
          (λ train_generator.
            continue
              (open_generator w val_file val_sources batch_size (λ starts. starts) (some n_seq_val))
              (λ val_generator. some (do
                w1 ← (if save_model then ensure_directory weights_dir w else ok w)
                let call = fit_call model train_generator val_generator
                fitted ← fit_generator call w1
                w2 ← save_json model fitted
                ok (call, w2)))))
