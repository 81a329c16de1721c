-- ===== src/Training/NetSamples.antt =====
-- The theorems on `PredNet` at concrete data.
use container_hackathon.Prelude.{
  ℕ, ◌≡◌, refl, arith, none, some, List, [], ◌∷◌, ◌++◌, length, ok, raise, assertion_error, Bool,
  true, false, for_each,
}
use container_hackathon.Prelude.Text.{Text, codes}
use container_hackathon.Training.PredNet.{
  PredNet, Options, new_prednet, read_output_layer, str, Size, whole, quotient, layer_shape,
  compute_output_shape, out_shape, e_state, state_shape, State, array, timestep, get_initial_state,
}
use container_hackathon.Training.PredNet.Shapes.{
  read_output_layer_lem, Agrees, layer_shape-state_shape,
}
use container_hackathon.Training.PredNet.Initial.{get_initial_state_lem}
use container_hackathon.Prelude.{◌+◌, ◌-◌, ◌*◌}
use container_hackathon.Training.PredNet.Step.{Tensors, Item, tensor, time, step}
use container_hackathon.Training.PredNet.Step.Sizes.{area, extents}
use container_hackathon.Training.PredNet.Step.Typed.{states_at, level_size, step-sizes}
use container_hackathon.Training.PredNet.Step.Total.{HasPlaces, IsExtra, step-HasPlaces}
use container_hackathon.Training.PredNet.Config.{get_config, prednet_of}
use container_hackathon.Training.PredNet.Config.Remade.{prednet_of-get_config}
use container_hackathon.Training.PredNet.Checks.{IsSized, new_prednet-IsSized}

abbrev options : Options
options = record {
  pixel_max = codes "1.";
  error_activation = codes "relu";
  a_activation = codes "relu";
  lstm_activation = codes "tanh";
  lstm_inner_activation = codes "hard_sigmoid";
}

abbrev all_known : Text → Bool
all_known name = true

-- Two layers, of 3 and 48 channels, with the errors of the second for output.
abbrev net : PredNet
net = record {
  stack_sizes = 3 ∷ 48 ∷ [];
  r_stack_sizes = 3 ∷ 48 ∷ [];
  a_filt_sizes = 3 ∷ [];
  ahat_filt_sizes = 3 ∷ 3 ∷ [];
  r_filt_sizes = 3 ∷ 3 ∷ [];
  options = options;
  nb_layers = 2;
  output_mode = codes "E1";
  output_layer = some (codes "E", 1);
  extrap_start_time = some 10;
  data_format = codes "channels_last";
}

abbrev input_shape : List ℕ
input_shape = 4 ∷ 10 ∷ 128 ∷ 160 ∷ 3 ∷ []

net_made :
    new_prednet all_known
      (3 ∷ 48 ∷ [])
      (3 ∷ 48 ∷ [])
      (3 ∷ [])
      (3 ∷ 3 ∷ [])
      (3 ∷ 3 ∷ [])
      options
      (codes "E1")
      (some 10)
      (codes "channels_last")
    ≡ ok net
unfolding new_prednet read_output_layer
net_made = refl

net_refused :
    new_prednet all_known
      (3 ∷ 48 ∷ [])
      (3 ∷ 48 ∷ [])
      (3 ∷ [])
      (3 ∷ 3 ∷ [])
      (3 ∷ 3 ∷ [])
      options
      (codes "E2")
      none
      (codes "channels_last")
    ≡ raise assertion_error
unfolding new_prednet
net_refused = refl

output_sample :
    compute_output_shape net false input_shape
    ≡ ok (whole 4 ∷ quotient 128 2 ∷ quotient 160 2 ∷ whole 96 ∷ [])
unfolding compute_output_shape out_shape layer_shape
output_sample = refl

states_sample :
    get_initial_state net input_shape
    ≡ ok (
        array (128 ∷ 160 ∷ 3 ∷ [])
        ∷ array (64 ∷ 80 ∷ 48 ∷ [])
        ∷ array (128 ∷ 160 ∷ 3 ∷ [])
        ∷ array (64 ∷ 80 ∷ 48 ∷ [])
        ∷ array (128 ∷ 160 ∷ 6 ∷ [])
        ∷ array (64 ∷ 80 ∷ 96 ∷ [])
        ∷ array (128 ∷ 160 ∷ 3 ∷ [])
        ∷ timestep
        ∷ [])
unfolding get_initial_state state_shape for_each
states_sample = refl

read_output_layer_lem_example : read_output_layer (codes "R" ++ str 10) ≡ ok (codes "R1", 0)
read_output_layer_lem_example = read_output_layer_lem (codes "R") 10

layer_shape-state_shape_example :
    (out : List Size) × (state : List ℕ) × (layer_shape net (codes "E", 1) input_shape ≡ ok out)
    × (state_shape net input_shape (e_state, 1) ≡ ok state)
    × Agrees out state
layer_shape-state_shape_example =
    layer_shape-state_shape net input_shape 128 160 refl refl e_state 1 96 refl refl refl

get_initial_state_lem_example :
    (states : List State) × (get_initial_state net input_shape ≡ ok states) × (length states ≡ 8)
get_initial_state_lem_example =
    get_initial_state_lem net input_shape 128 160 refl refl refl refl (omega arith)

net_sized : IsSized net
net_sized =
    new_prednet-IsSized all_known (3 ∷ 48 ∷ []) (3 ∷ 48 ∷ []) (3 ∷ []) (3 ∷ 3 ∷ []) (3 ∷ 3 ∷ [])
      options (codes "E1") (some 10) (codes "channels_last") net net_made

-- Tensors as single numbers.
abbrev tensors : Tensors
tensors = record {
  Tensor = ℕ;
  concatenate = λ xs. length xs;
  concatenate_last = λ a b. a + b;
  conv = λ c l x. x + l;
  add = λ a b. a + b;
  sub = λ a b. a - b;
  mul = λ a b. a * b;
  lstm_activation = λ a. a;
  error_activation = λ a. a;
  clip = λ a. a;
  upsample = λ a. a;
  pool = λ a. a;
  batch_flatten = λ a. a;
  mean = λ a. a;
}

abbrev states : List (Item tensors)
states = tensor 1 ∷ tensor 2 ∷ tensor 3 ∷ tensor 4 ∷ tensor 5 ∷ tensor 6 ∷ tensor 7 ∷ time 9 ∷ []

places : HasPlaces tensors net states
unfolding HasPlaces IsExtra
places = (
  1 ∷ 2 ∷ [],
  3 ∷ 4 ∷ [],
  5 ∷ 6 ∷ [],
  tensor 7 ∷ time 9 ∷ [],
  refl,
  refl,
  refl,
  refl,
  (7, 9, refl),
)

step-HasPlaces_example :
    (output : ℕ) × (after : List (Item tensors)) × (step tensors net 8 states ≡ ok (output, after))
    × HasPlaces tensors net after
step-HasPlaces_example =
    step-HasPlaces tensors net 8 states (omega arith) (omega arith, refl) places

prednet_of-get_config_example :
    prednet_of all_known (codes "channels_first") (get_config [] net) ≡ ok net
prednet_of-get_config_example =
    prednet_of-get_config all_known (3 ∷ 48 ∷ []) (3 ∷ 48 ∷ []) (3 ∷ []) (3 ∷ 3 ∷ []) (3 ∷ 3 ∷ [])
      options (codes "E1") (some 10) (codes "channels_last") (codes "channels_first") [] net
      net_made

net-IsSized : IsSized net
unfolding IsSized
net-IsSized = (refl, refl, refl, refl, refl)

-- Images of 128 rows and 160 columns.
step-sizes_example :
    step
      (extents net)
      net
      (area 3 128 160)
      (states_at net net-IsSized (level_size net 64) (level_size net 80) 9)
    ≡ ok (area 96 64 80, states_at net net-IsSized (level_size net 64) (level_size net 80) 10)
step-sizes_example = step-sizes net net-IsSized 64 80 9 (omega arith, refl)
