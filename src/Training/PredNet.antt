-- ===== src/Training/PredNet.antt =====
-- `PredNet` of wfppdl/training/source/prednet.py: its constructor and its shapes.
pub mod Shapes
pub mod Initial
pub mod Checks
pub mod Step
pub mod Config
pub mod Build
use container_hackathon.Prelude.{
  ℕ, zero, suc, ◌+◌, ◌-◌, ◌*◌, ◌/◌, ◌%◌, ◌^◌, Bool, true, false, ◌||◌, ◌&&◌, Option, none, some,
  ltb, leb, ◌==◌, if◌then◌else◌,
}
use mathlib.Core.Option
use container_hackathon.Prelude.{List, [], ◌∷◌, ◌++◌, length, get_elem?, map, drop, range, for_each}
use container_hackathon.Prelude.{
  index_error, value_error, type_error, assertion_error, Result, ok, ◌>>=◌, ◌>>◌, guard, or_raise,
}
use container_hackathon.Prelude.Int.{ℤ, pos, negsuc}
use container_hackathon.Prelude.Slices.{slice, last_item}
use container_hackathon.Prelude.Text.{Text, codes, text_eq, is_digit}

-- `str(n)`; more rounds than digits are of no effect.
abbrev pub decimal : (rounds n : ℕ) → Text
decimal zero n = []
decimal (suc rounds) n =
    let before = decimal rounds (n / 10) in
    if ltb n 10 then (b'0' + n) ∷ [] else before ++ ((b'0' + n % 10) ∷ [])

abbrev pub str : ℕ → Text
str n = decimal (suc n) n

-- `layer_output_modes`, from the numbers of the layers
abbrev pub layer_output_modes : List ℕ → List Text
layer_output_modes [] = []
layer_output_modes (n ∷ ns) =
    (codes "R" ++ str n)
    ∷ (codes "E" ++ str n)
    ∷ (codes "A" ++ str n)
    ∷ (codes "Ahat" ++ str n)
    ∷ layer_output_modes ns

-- `mode in modes`
abbrev pub is_in : Text → List Text → Bool
is_in mode [] = false
is_in mode (m ∷ modes) = text_eq mode m || is_in mode modes

abbrev pub default_output_modes : List Text
default_output_modes = codes "prediction" ∷ codes "error" ∷ codes "all" ∷ []

-- `xs[i]`, where a negative index counts from the end
abbrev pub item_at {ℓ} : {A : Type ℓ} → List A → ℤ → Option A
item_at xs (pos k) = get_elem? xs k
item_at xs (negsuc k) = if ltb k (length xs) then get_elem? xs (length xs - suc k) else none

-- The number that a pixel is clipped at, as it is written, and the activations, by their names.
pub record Options : Type 0 where
  pub pixel_max : Text
  pub error_activation : Text
  pub a_activation : Text
  pub lstm_activation : Text
  pub lstm_inner_activation : Text

-- The attributes of the layer. `output_layer` is the type and the number of the layer, where the mode
-- has them.
pub record PredNet : Type 0 where
  pub stack_sizes : List ℕ
  pub r_stack_sizes : List ℕ
  pub a_filt_sizes : List ℕ
  pub ahat_filt_sizes : List ℕ
  pub r_filt_sizes : List ℕ
  pub options : Options
  pub nb_layers : ℕ
  pub output_mode : Text
  pub output_layer : Option (Text × ℕ)
  pub extrap_start_time : Option ℕ
  pub data_format : Text

-- `self.output_mode[:-1]` and `int(self.output_mode[-1])`
unfoldable pub read_output_layer : Text → Result (Text × ℕ)
read_output_layer output_mode = do
  c ← or_raise (last_item output_mode) index_error
  guard (is_digit c) value_error
  ok (slice (pos 0) (negsuc 0) output_mode, c - b'0')

-- The names that `activations.get` takes are those of Keras.
abbrev pub activations_known : (known : Text → Bool) → Options → Bool
activations_known known options =
    known options.error_activation
    && known options.a_activation
    && known options.lstm_activation
    && known options.lstm_inner_activation

-- `__init__`
unfoldable pub new_prednet :
    (known : Text → Bool)
    → (stack_sizes r_stack_sizes a_filt_sizes ahat_filt_sizes r_filt_sizes : List ℕ) → Options
    → (output_mode : Text) → (extrap_start_time : Option ℕ) → (data_format : Text) → Result PredNet
new_prednet known stack_sizes r_stack_sizes a_filt_sizes ahat_filt_sizes r_filt_sizes options
      output_mode extrap_start_time data_format =
    do
      let nb_layers = length stack_sizes
      let layer_modes = layer_output_modes (range 0 nb_layers)
      guard (length r_stack_sizes == nb_layers) assertion_error
      guard (length a_filt_sizes + 1 == nb_layers) assertion_error
      guard (length ahat_filt_sizes == nb_layers) assertion_error
      guard (length r_filt_sizes == nb_layers) assertion_error
      guard (activations_known known options) value_error
      guard (is_in output_mode (default_output_modes ++ layer_modes)) assertion_error
      output_layer ←
          (if is_in output_mode layer_modes
            then (do layer ← read_output_layer output_mode; ok (some layer))
            else ok none)
      guard
          (text_eq data_format (codes "channels_last")
            || text_eq data_format (codes "channels_first"))
          assertion_error
      ok (record {
        stack_sizes = stack_sizes;
        r_stack_sizes = r_stack_sizes;
        a_filt_sizes = a_filt_sizes;
        ahat_filt_sizes = ahat_filt_sizes;
        r_filt_sizes = r_filt_sizes;
        options = options;
        nb_layers = nb_layers;
        output_mode = output_mode;
        output_layer = output_layer;
        extrap_start_time = extrap_start_time;
        data_format = data_format;
      })

abbrev pub is_first : PredNet → Bool
is_first net = text_eq net.data_format (codes "channels_first")

abbrev pub row_axis : PredNet → ℤ
row_axis net = if is_first net then negsuc 1 else negsuc 2

abbrev pub column_axis : PredNet → ℤ
column_axis net = if is_first net then negsuc 0 else negsuc 1

-- A number in a shape: an integer, or the float that `/` makes of two.
pub data Size : Type 0 where
  whole : ℕ → Size
  quotient : ℕ → ℕ → Size

abbrev pub prod : List ℕ → ℕ
prod [] = 1
prod (n ∷ ns) = n * prod ns

-- The part of `compute_output_shape` for a layer.
unfoldable pub layer_shape : PredNet → Text × ℕ → List ℕ → Result (List Size)
layer_shape net (layer_type, layer_num) input_shape = do
  let stack = if text_eq layer_type (codes "R") then net.r_stack_sizes else net.stack_sizes
  let stack_mult = if text_eq layer_type (codes "E") then 2 else 1
  channels ← or_raise (get_elem? stack layer_num) index_error
  rows ← or_raise (item_at input_shape (row_axis net)) index_error
  columns ← or_raise (item_at input_shape (column_axis net)) index_error
  let out_stack_size = whole (stack_mult * channels)
  let out_nb_row = quotient rows (2 ^ layer_num)
  let out_nb_col = quotient columns (2 ^ layer_num)
  ok (
      if is_first net
      then out_stack_size ∷ out_nb_row ∷ out_nb_col ∷ []
      else out_nb_row ∷ out_nb_col ∷ out_stack_size ∷ [])

-- What the frame has after the batch size and, where sequences are returned, the number of steps.
unfoldable pub out_shape : PredNet → List ℕ → Result (List Size)
out_shape net input_shape =
    if text_eq net.output_mode (codes "prediction")
    then ok (map whole (drop 2 input_shape))
    else if text_eq net.output_mode (codes "error")
    then ok (whole net.nb_layers ∷ [])
    else if text_eq net.output_mode (codes "all")
    then ok (whole (prod (drop 2 input_shape) + net.nb_layers) ∷ [])
    else (do layer ← or_raise net.output_layer type_error; layer_shape net layer input_shape)

unfoldable pub compute_output_shape :
    PredNet → (return_sequences : Bool) → List ℕ → Result (List Size)
compute_output_shape net return_sequences input_shape = do
  shape ← out_shape net input_shape
  samples ← or_raise (get_elem? input_shape 0) index_error
  if return_sequences
      then (do
        steps ← or_raise (get_elem? input_shape 1) index_error
        ok (whole samples ∷ whole steps ∷ shape))
      else ok (whole samples ∷ shape)

-- What a state stands for: `r`, `c`, `e`, or the last prediction.
pub data StateKind : Type 0 where
  r_state c_state e_state ahat_state : StateKind

-- `stack_size` in `get_initial_state`
abbrev pub stack_size : PredNet → StateKind → ℕ → Option ℕ
stack_size net r_state l = get_elem? net.r_stack_sizes l
stack_size net c_state l = get_elem? net.r_stack_sizes l
stack_size net e_state l = Option.map (λ n. 2 * n) (get_elem? net.stack_sizes l)
stack_size net ahat_state l = get_elem? net.stack_sizes l

-- The shape of one initial state, after the number of samples.
unfoldable pub state_shape : PredNet → List ℕ → StateKind × ℕ → Result (List ℕ)
state_shape net input_shape (u, l) = do
  init_nb_row ← or_raise (item_at input_shape (row_axis net)) index_error
  init_nb_col ← or_raise (item_at input_shape (column_axis net)) index_error
  channels ← or_raise (stack_size net u l) index_error
  let nb_row = init_nb_row / 2 ^ l
  let nb_col = init_nb_col / 2 ^ l
  ok (if is_first net then channels ∷ nb_row ∷ nb_col ∷ [] else nb_row ∷ nb_col ∷ channels ∷ [])

-- `states_to_pass.append('ahat')`, with one layer, where the layer extrapolates
abbrev pub ahat_states : Option ℕ → List (StateKind × ℕ)
ahat_states none = []
ahat_states (some start) = (ahat_state, 0) ∷ []

-- The pairs of the layers with a kind of state.
abbrev pub layer_states : (nb_layers : ℕ) → StateKind → List (StateKind × ℕ)
layer_states nb_layers u = map (λ l. (u, l)) (range 0 nb_layers)

-- `for u in states_to_pass: for l in range(nlayers_to_pass[u])`
abbrev pub states_to_pass : PredNet → List (StateKind × ℕ)
states_to_pass net =
    layer_states net.nb_layers r_state
    ++ (layer_states net.nb_layers c_state
        ++ (layer_states net.nb_layers e_state ++ ahat_states net.extrap_start_time))

-- An initial state: an array with a shape, or the step at which the layer stands.
pub data State : Type 0 where
  array : List ℕ → State
  timestep : State

-- `initial_states += [K.variable(0, ...)]`, where the layer extrapolates
abbrev pub timestep_states : Option ℕ → List State
timestep_states none = []
timestep_states (some start) = timestep ∷ []

unfoldable pub get_initial_state : PredNet → List ℕ → Result (List State)
get_initial_state net input_shape = do
  shapes ← for_each (state_shape net input_shape) (states_to_pass net)
  ok (map array shapes ++ timestep_states net.extrap_start_time)

-- `self.states += [None] * 2`, where the layer extrapolates
abbrev pub extra_states : Option ℕ → ℕ
extra_states none = 0
extra_states (some start) = 2

-- The number of items of `self.states` after `build`
abbrev pub nb_states : PredNet → ℕ
nb_states net = net.nb_layers * 3 + extra_states net.extrap_start_time
