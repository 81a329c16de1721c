-- ===== src/Training/Convert/Backend.antt =====
-- wfppdl/training/source/keras_utils.py with a backend other than Theano.
use container_hackathon.Prelude.{◌≡◌, refl, false, raise, ok, name_error}
use container_hackathon.Prelude.Text.{Text, codes, text_eq}
use container_hackathon.Files.{World}
use container_hackathon.Files.Edit.{ensure_directory}
use container_hackathon.Training.Convert.{Keras, convert_model_to_keras2, convert_tag, convert_all}

module _ (Number : Type 0) (keras : Keras Number) where
  -- With a backend other than Theano, no model is converted: whatever the files are, the conversion ends with a
  -- `NameError`, and the program does once it has its directory.
  pub convert_all-backend :
      (w w1 : World)
      → text_eq keras.backend (codes "theano") ≡ false
      → ensure_directory (codes "./model_data_keras2/") w ≡ ok w1
      → ((old_json old_weights new_json new_weights : Text)
          → convert_model_to_keras2 Number keras old_json old_weights new_json new_weights w
            ≡ raise name_error)
        × (convert_all Number keras w ≡ raise name_error)
  unfolding convert_model_to_keras2 convert_tag convert_all
  convert_all-backend w w1 other made = (λ a b c d. rw other refl, rw (made, other) refl)
