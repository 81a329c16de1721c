-- ===== src/Training/Convert.antt =====
-- wfppdl/training/source/keras_utils.py.
pub mod Layout
pub mod Backend
use container_hackathon.Prelude.{
  ℕ, Bool, Option, none, some, if◌then◌else◌, ◌==◌, List, [], ◌∷◌, ◌++◌, length, map, get_elem?,
}
use container_hackathon.Prelude.{
  index_error, name_error, value_error, Result, ok, raise, ◌>>=◌, ◌>>◌, guard, or_raise,
}
use container_hackathon.Prelude.Text.{Text, codes, text_eq}
use container_hackathon.Files.{World, read_file}
use container_hackathon.Files.Edit.{ensure_directory, write_file}
use container_hackathon.Training.PredNet.{PredNet}
use container_hackathon.Training.PredNet.Config.{
  Value, none_value, count, string, Config, get_config, prednet_of,
}

-- What `generate_legacy_interface` is given: the positional arguments, the new names of arguments, and the
-- new values of the renamed ones.
pub record LegacyInterface : Type 0 where
  pub allowed_positional_args : List Text
  pub conversions : List (Text × Text)
  pub value_conversions : List (Text × List (Text × Value))

abbrev pub legacy_prednet_support : LegacyInterface
legacy_prednet_support = record {
  allowed_positional_args =
      codes "stack_sizes"
      ∷ codes "R_stack_sizes"
      ∷ codes "A_filt_sizes"
      ∷ codes "Ahat_filt_sizes"
      ∷ codes "R_filt_sizes"
      ∷ [];
  conversions =
      (codes "dim_ordering", codes "data_format")
      ∷ (codes "consume_less", codes "implementation")
      ∷ [];
  value_conversions =
      (
        codes "dim_ordering",
        (codes "tf", string (codes "channels_last"))
            ∷ (codes "th", string (codes "channels_first"))
            ∷ (codes "default", none_value)
            ∷ [],
      )
      ∷ (
        codes "consume_less",
        (codes "cpu", count 0) ∷ (codes "mem", count 1) ∷ (codes "gpu", count 2) ∷ [],
      )
      ∷ [];
}

module _ (Number : Type 0) where
  -- An array: its shape, and its value at each index.
  pub record Array : Type 0 where
    pub shape : List ℕ
    pub at : List ℕ → Number

  -- The axes `(2, 3, 1, 0)` of a shape, and the index that they come from.
  abbrev pub moved : List ℕ → List ℕ
  moved (a ∷ b ∷ c ∷ d ∷ []) = c ∷ d ∷ b ∷ a ∷ []
  moved ns = ns

  abbrev pub moved_from : List ℕ → List ℕ
  moved_from (i ∷ j ∷ k ∷ l ∷ []) = l ∷ k ∷ i ∷ j ∷ []
  moved_from ns = ns

  -- `np.transpose(w, (2, 3, 1, 0))`
  abbrev pub transpose : Array → Array
  transpose w = record { shape = moved w.shape; at = λ index. w.at (moved_from index) }

  -- The body of the loop over the weights.
  abbrev pub convert_weight : Array → Array
  convert_weight w = if length w.shape == 4 then transpose w else w

  -- `weights[0].shape[0] == model.layers[1].stack_sizes[1]`
  unfoldable pub is_old : PredNet → List Array → Result Bool
  is_old net weights = do
    first ← or_raise (get_elem? weights 0) index_error
    size ← or_raise (get_elem? first.shape 0) index_error
    stack_size ← or_raise (get_elem? net.stack_sizes 1) index_error
    ok (size == stack_size)

  -- What `model.layers[1].set_weights` gets, where it is called.
  unfoldable pub convert_weights : PredNet → List Array → Result (List Array)
  convert_weights net weights = do
    old ← is_old net weights
    ok (if old then map convert_weight weights else weights)

  -- What the program uses of Keras.
  pub record Keras : Type 0 where
    -- `K.backend()`
    pub backend : Text
    pub image_data_format : Text
    pub known : Text → Bool
    pub base_config : Config
    pub from_json : Text → Result (List ℕ × Config)
    pub to_json : List ℕ → Config → Text
    -- The weights that a file has for a layer.
    pub load_weights : World → PredNet → Text → Result (List Array)
    -- Whether the shapes fit those of the layer.
    pub fits : PredNet → List (List ℕ) → Bool
    -- What `save_weights` writes.
    pub weights_bytes : List Array → Text

  module _ (keras : Keras) where
    open keras use {
      backend, image_data_format, known, base_config, from_json, to_json, load_weights, fits,
      weights_bytes,
    }

    -- `convert_model_to_keras2`. The name `backend` is defined neither in the function nor in the file.
    unfoldable pub convert_model_to_keras2 :
        (old_json_file old_weights_file new_json_file new_weights_file : Text)
        → World
        → Result World
    convert_model_to_keras2 old_json_file old_weights_file new_json_file new_weights_file w = do
      guard (text_eq backend (codes "theano")) name_error
      json_string ← read_file w old_json_file
      read ← from_json json_string
      net ← prednet_of known image_data_format read.1
      weights ← load_weights w net old_weights_file
      converted ← convert_weights net weights
      guard (fits net (map (λ a. a.shape) converted)) value_error
      w1 ← write_file new_weights_file (weights_bytes converted) w
      write_file new_json_file (to_json read.0 (get_config base_config net)) w1

    -- One round of the loop over the tags.
    unfoldable pub convert_tag : (w_tag : Text) → World → Result World
    convert_tag w_tag w =
        let m_tag = if text_eq w_tag (codes "-Lall") then [] else w_tag in
        convert_model_to_keras2
          (codes "./model_data/prednet_kitti_model" ++ (m_tag ++ codes ".json"))
          (codes "./model_data/prednet_kitti_weights" ++ (w_tag ++ codes ".hdf5"))
          (codes "./model_data_keras2/prednet_kitti_model" ++ (m_tag ++ codes ".json"))
          (codes "./model_data_keras2/prednet_kitti_weights" ++ (w_tag ++ codes ".hdf5")) w

    -- The program, with the files that it leaves.
    unfoldable pub convert_all : World → Result World
    convert_all w = do
      w1 ← ensure_directory (codes "./model_data_keras2/") w
      w2 ← convert_tag [] w1
      w3 ← convert_tag (codes "-Lall") w2
      convert_tag (codes "-extrapfinetuned") w3
