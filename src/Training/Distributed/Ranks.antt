-- ===== src/Training/Distributed/Ranks.antt =====
-- What the processes of wfppdl/training/source/kitti_train_horovod.py do in the same way, and how one of them
-- may fail.
use mathlib.Core.List.{Perm}
use mathlib.Core.List.Perm
use container_hackathon.Prelude.{◌<◌, ◌≡◌, Bool, List, ok, ◌&&◌, not}
use container_hackathon.Files.{World, exists}
use container_hackathon.Files.Edit.{write_file}
use container_hackathon.Training.Settings.{weights_dir}
use container_hackathon.Training.Numbers.{Numbers}
use container_hackathon.Training.Generator.{Generator}
use container_hackathon.Training.Model.{Model}
use container_hackathon.Training.Train.{Fit, Libraries, json_of, json_file}
use container_hackathon.Training.Train.Run.{Yields}
use container_hackathon.Training.Distributed.{Moments}

-- The directory is made by another process after this one has looked for it.
abbrev pub is_late : Moments → Bool
is_late m = not (exists m.testing weights_dir) && exists m.making weights_dir

module _ (numbers : Numbers) (libraries : Libraries numbers) where
  open libraries use {image_data_format, known, permutation, fit_generator}

  -- `fit_generator` ends where both generators have a sequence and yield their batches, and the JSON file
  -- can be written later.
  abbrev pub EndsAt : Moments → Type 0
  EndsAt m =
      (call : Fit numbers)
      → 0 < call.generator.n_sequences
      → Yields numbers libraries call.generator
      → 0 < call.validation_data.n_sequences
      → Yields numbers libraries call.validation_data
      → (fitted : World) × (w2 : World) × (fit_generator call m.fitting ≡ ok fitted)
        × (write_file json_file (json_of numbers libraries call.model) m.saving ≡ ok w2)
