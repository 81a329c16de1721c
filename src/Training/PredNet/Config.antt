-- ===== src/Training/PredNet/Config.antt =====
-- `PredNet.get_config` of wfppdl/training/source/prednet.py, and `PredNet(**config)`.
pub mod Remade
use container_hackathon.Prelude.{ℕ, Bool, Option, none, some, List, [], ◌∷◌}
use container_hackathon.Prelude.{type_error, Result, ok, raise, ◌>>=◌}
use container_hackathon.Prelude.Text.{Text, codes}
use container_hackathon.Prelude.Keyed.{Keyed, get_key, merge}
use container_hackathon.Training.PredNet.{PredNet, Options, new_prednet}

-- A value of a configuration.
pub data Value : Type 0 where
  none_value : Value
  sizes : List ℕ → Value
  count : ℕ → Value
  -- A number that is not used as an integer, as it is written.
  number : Text → Value
  string : Text → Value

abbrev pub Config : Type 0
Config = Keyed Value

abbrev pub start_value : Option ℕ → Value
start_value none = none_value
start_value (some t) = count t

-- `config` in `get_config`. The name of an activation is that which it was got by.
unfoldable pub own_config : PredNet → Config
own_config net =
    (codes "stack_sizes", sizes net.stack_sizes)
    ∷ (codes "R_stack_sizes", sizes net.r_stack_sizes)
    ∷ (codes "A_filt_sizes", sizes net.a_filt_sizes)
    ∷ (codes "Ahat_filt_sizes", sizes net.ahat_filt_sizes)
    ∷ (codes "R_filt_sizes", sizes net.r_filt_sizes)
    ∷ (codes "pixel_max", number net.options.pixel_max)
    ∷ (codes "error_activation", string net.options.error_activation)
    ∷ (codes "A_activation", string net.options.a_activation)
    ∷ (codes "LSTM_activation", string net.options.lstm_activation)
    ∷ (codes "LSTM_inner_activation", string net.options.lstm_inner_activation)
    ∷ (codes "data_format", string net.data_format)
    ∷ (codes "extrap_start_time", start_value net.extrap_start_time)
    ∷ (codes "output_mode", string net.output_mode)
    ∷ []

-- `get_config`, where the base class has the configuration `base_config`
unfoldable pub get_config : (base_config : Config) → PredNet → Config
get_config base_config net = merge base_config (own_config net)

-- The arguments of a call by keywords. A parameter without a default has to be there.
abbrev pub as_sizes : Option Value → Result (List ℕ)
as_sizes (some (sizes ns)) = ok ns
as_sizes _ = raise type_error

abbrev pub as_string : Text → Option Value → Result Text
as_string default none = ok default
as_string default (some (string s)) = ok s
as_string default (some _) = raise type_error

abbrev pub as_number : Text → Option Value → Result Text
as_number default none = ok default
as_number default (some (number s)) = ok s
as_number default (some _) = raise type_error

abbrev pub as_start : Option Value → Result (Option ℕ)
as_start none = ok none
as_start (some none_value) = ok none
as_start (some (count t)) = ok (some t)
as_start (some _) = raise type_error

-- `PredNet(**config)`; `K.image_data_format()` is the default of the format. What the constructor does
-- not name goes to the base class.
unfoldable pub prednet_of :
    (known : Text → Bool) (image_data_format : Text) → Config → Result PredNet
prednet_of known image_data_format config = do
  stack_sizes ← as_sizes (get_key (codes "stack_sizes") config)
  r_stack_sizes ← as_sizes (get_key (codes "R_stack_sizes") config)
  a_filt_sizes ← as_sizes (get_key (codes "A_filt_sizes") config)
  ahat_filt_sizes ← as_sizes (get_key (codes "Ahat_filt_sizes") config)
  r_filt_sizes ← as_sizes (get_key (codes "R_filt_sizes") config)
  pixel_max ← as_number (codes "1.") (get_key (codes "pixel_max") config)
  error_activation ← as_string (codes "relu") (get_key (codes "error_activation") config)
  a_activation ← as_string (codes "relu") (get_key (codes "A_activation") config)
  lstm_activation ← as_string (codes "tanh") (get_key (codes "LSTM_activation") config)
  lstm_inner_activation ←
      as_string (codes "hard_sigmoid") (get_key (codes "LSTM_inner_activation") config)
  output_mode ← as_string (codes "error") (get_key (codes "output_mode") config)
  extrap_start_time ← as_start (get_key (codes "extrap_start_time") config)
  data_format ← as_string image_data_format (get_key (codes "data_format") config)
  let options : Options = record {
    pixel_max = pixel_max;
    error_activation = error_activation;
    a_activation = a_activation;
    lstm_activation = lstm_activation;
    lstm_inner_activation = lstm_inner_activation;
  }
  new_prednet known stack_sizes r_stack_sizes a_filt_sizes ahat_filt_sizes r_filt_sizes options
      output_mode extrap_start_time data_format
