-- ===== src/Training/Distributed.antt =====
-- wfppdl/training/source/kitti_train_horovod.py: what each of its processes does. The processes share the
-- files, so that what one finds there may change from one of its actions to the next.
pub mod Ranks
use container_hackathon.Prelude.{
  ℕ, ◌*◌, Bool, true, Option, none, some, if◌then◌else◌, ◌==◌, List, [], ◌∷◌, ◌++◌, Result, ok,
  raise, ◌>>=◌,
}
use container_hackathon.Prelude.Text.{Text}
use container_hackathon.Files.{World, exists}
use container_hackathon.Files.Edit.{make_directory}
use container_hackathon.Training.Settings.{weights_dir}
use container_hackathon.Training.Numbers.{Numbers}
use container_hackathon.Training.Generator.{Generator}
use container_hackathon.Training.PredNet.{quotient, str}
use container_hackathon.Training.Model.{Model, new_model}
use container_hackathon.Training.Train.{
  Callback, broadcast_global_variables, learning_rate_warmup, model_checkpoint, distributed_adam,
  continue, Fit, Libraries, open_generator, save_json, train_file, train_sources, val_file,
  val_sources, weights_file, n_seq_val, save_model,
}

-- What `hvd` says to one process: the number of processes, its number, and that on its machine.
pub record Horovod : Type 0 where
  pub size : ℕ
  pub rank : ℕ
  pub local_rank : ℕ

abbrev pub nb_epoch : ℕ
nb_epoch = 10

abbrev pub batch_size : ℕ
batch_size = 15

abbrev pub samples_per_epoch : ℕ
samples_per_epoch = 500

-- `config.gpu_options.visible_device_list`
abbrev pub visible_devices : Horovod → Text
visible_devices hvd = str hvd.local_rank

-- `callbacks`
unfoldable pub callbacks : Horovod → List Callback
callbacks hvd =
    let first = broadcast_global_variables 0 ∷ learning_rate_warmup 5 ∷ [] in
    if hvd.rank == 0
    then (if save_model then first ++ (model_checkpoint weights_file ∷ []) else first)
    else first

-- The files as a process finds them: when it looks for the directory, when it makes it, when it loads
-- the arrays, when it begins to fit, and when it saves the model.
pub record Moments : Type 0 where
  pub testing : World
  pub making : World
  pub loading : World
  pub fitting : World
  pub saving : World

-- `if not os.path.exists(WEIGHTS_DIR): os.mkdir(WEIGHTS_DIR)`, where another process may come between
-- the two calls.
unfoldable pub make_weights_dir : Moments → Result World
make_weights_dir m =
    if exists m.testing weights_dir then ok m.making else make_directory weights_dir m.making

module _ (numbers : Numbers) where
  abbrev pub fit_call :
      Horovod → Model numbers → (train_generator val_generator : Generator numbers) → Fit numbers
  fit_call hvd model train_generator val_generator = record {
    model = model;
    optimizer = distributed_adam hvd.size;
    generator = train_generator;
    steps_per_epoch = quotient samples_per_epoch (batch_size * hvd.size);
    epochs = nb_epoch;
    callbacks = callbacks hvd;
    validation_data = val_generator;
    validation_steps = quotient n_seq_val (batch_size * hvd.size);
  }

  module _ (libraries : Libraries numbers) where
    open libraries use {image_data_format, known, permutation, fit_generator}

    -- The program, with the devices that it uses, the call of `fit_generator` and the files that it
    -- leaves.
    unfoldable pub train : Horovod → Moments → Option (Result (Text × (Fit numbers × World)))
    train hvd m = continue (some (make_weights_dir m)) (λ made.
        continue (some (new_model numbers known image_data_format)) (λ model.
          continue
            (open_generator numbers libraries m.loading train_file train_sources batch_size
              permutation none)
            (λ train_generator.
              continue
                (open_generator numbers libraries m.loading val_file val_sources batch_size
                  (λ starts. starts) (some n_seq_val))
                (λ val_generator. some (do
                  let call = fit_call hvd model train_generator val_generator
                  fitted ← fit_generator call m.fitting
                  w2 ← save_json numbers libraries model m.saving
                  ok (visible_devices hvd, (call, w2)))))))
