-- ===== src/Training/Model.antt =====
-- The network that kitti_train.py and kitti_train_horovod.py of wfppdl/training/source set up: `PredNet`,
-- and two fixed layers that weigh its errors.
pub mod Loss
pub mod Outputs
use container_hackathon.Prelude.{
  ℕ, ◌+◌, ◌-◌, ◌*◌, Bool, Option, none, some, ◌==◌, not, if◌then◌else◌, List, [], ◌∷◌, length, map,
  replicate, set_item,
}
use container_hackathon.Prelude.{
  index_error, value_error, zero_division_error, true, Result, ok, raise, ◌>>=◌, ◌>>◌, guard,
  or_raise,
}
use container_hackathon.Prelude.Text.{Text, codes, text_eq}
use container_hackathon.Training.Numbers.{Numbers}
use container_hackathon.Training.PredNet.{
  PredNet, Options, new_prednet, Size, whole, compute_output_shape,
}

-- `nt`
abbrev pub steps : ℕ
steps = 10

-- `input_shape`
unfoldable pub input_shape : (image_data_format : Text) → List ℕ
input_shape image_data_format =
    if text_eq image_data_format (codes "channels_first")
    then 3 ∷ 128 ∷ 160 ∷ []
    else 128 ∷ 160 ∷ 3 ∷ []

-- `stack_sizes`, which is `R_stack_sizes` too
abbrev pub stack_sizes : List ℕ
stack_sizes = 3 ∷ 48 ∷ 96 ∷ 192 ∷ []

abbrev pub a_filt_sizes : List ℕ
a_filt_sizes = 3 ∷ 3 ∷ 3 ∷ []

-- `Ahat_filt_sizes` and `R_filt_sizes`
abbrev pub filt_sizes : List ℕ
filt_sizes = 3 ∷ 3 ∷ 3 ∷ 3 ∷ []

-- The defaults of `PredNet.__init__`.
abbrev pub default_options : Options
default_options = record {
  pixel_max = codes "1.";
  error_activation = codes "relu";
  a_activation = codes "relu";
  lstm_activation = codes "tanh";
  lstm_inner_activation = codes "hard_sigmoid";
}

-- `prednet`
unfoldable pub make_prednet : (known : Text → Bool) (image_data_format : Text) → Result PredNet
make_prednet known image_data_format =
    new_prednet known stack_sizes stack_sizes a_filt_sizes filt_sizes filt_sizes default_options
      (codes "error") none image_data_format

-- The shape after `Dense(1)` on the last axis, whose weights have to be one for each entry there.
abbrev pub dense_shape : (nb_weights : ℕ) → List Size → Result (List Size)
dense_shape k [] = raise value_error
dense_shape k (whole n ∷ []) = do guard (n == k) value_error; ok (whole 1 ∷ [])
dense_shape k (n ∷ []) = raise value_error
dense_shape k (n ∷ m ∷ sizes) = do rest ← dense_shape k (m ∷ sizes); ok (n ∷ rest)

-- The shape after `Flatten()` of an array with three axes.
abbrev pub flat_shape : List Size → Result (List Size)
flat_shape (samples ∷ whole n ∷ whole m ∷ []) = ok (samples ∷ whole (n * m) ∷ [])
flat_shape sizes = raise value_error

module _ (numbers : Numbers) where
  open numbers use {Number, literal, add, mul, div, of_nat}

  -- `layer_loss_weights`
  abbrev pub layer_loss_weights : List Number
  layer_loss_weights =
      literal (codes "1.") ∷ literal (codes "0.") ∷ literal (codes "0.") ∷ literal (codes "0.") ∷ []

  -- `1./ (nt - 1) * np.ones((nt,1))`
  abbrev pub equal_weight : (nt : ℕ) → Number
  equal_weight nt = mul (div (literal (codes "1.")) (of_nat (nt - 1))) (literal (codes "1."))

  -- `time_loss_weights`
  unfoldable pub time_loss_weights : (nt : ℕ) → Result (List Number)
  time_loss_weights nt = do
    guard (not (nt == 1)) zero_division_error
    or_raise (set_item (replicate nt (equal_weight nt)) 0 numbers.zero) index_error

  -- `model`: the shape of a sequence, the layer, and the weights of the two fixed layers.
  pub record Model : Type 0 where
    pub batch_input_shape : List ℕ
    pub prednet : PredNet
    pub by_layer : List Number
    pub by_time : List Number

  -- The shapes of `errors`, `errors_by_time` and `final_errors`, for any number of samples.
  unfoldable pub output_shape : Model → (samples : ℕ) → Result (List Size)
  output_shape model samples = do
    errors ← compute_output_shape model.prednet true (samples ∷ model.batch_input_shape)
    errors_by_time ← dense_shape (length model.by_layer) errors
    flat ← flat_shape errors_by_time
    dense_shape (length model.by_time) flat

  -- `Model(inputs=inputs, outputs=final_errors)`
  unfoldable pub new_model : (known : Text → Bool) (image_data_format : Text) → Result Model
  new_model known image_data_format = do
    by_time ← time_loss_weights steps
    prednet ← make_prednet known image_data_format
    let model : Model = record {
      batch_input_shape = steps ∷ input_shape image_data_format;
      prednet = prednet;
      by_layer = layer_loss_weights;
      by_time = by_time;
    }
    shapes ← output_shape model 1
    ok model

  abbrev pub dot : List Number → List Number → Number
  dot (x ∷ xs) (w ∷ ws) = add (mul x w) (dot xs ws)
  dot _ _ = numbers.zero

  -- `Dense(1)` with a bias of `np.zeros(1)`
  abbrev pub dense : (weights inputs : List Number) → Number
  dense weights inputs = add (dot inputs weights) numbers.zero

  -- `final_errors` of a sequence, from the errors of each step by layer
  unfoldable pub final_error : Model → List (List Number) → Number
  final_error model errors = dense model.by_time (map (dense model.by_layer) errors)
