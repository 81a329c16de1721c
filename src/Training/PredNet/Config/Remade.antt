-- ===== src/Training/PredNet/Config/Remade.antt =====
-- A layer made again from its configuration.
use container_hackathon.Prelude.{
  ℕ, ◌≡◌, refl, ◌∙◌, Bool, Option, none, some, List, [], ◌∷◌, ok, arith, false, length, range,
}
use container_hackathon.Prelude.Text.{Text, codes}
use container_hackathon.Prelude.Keyed.{merge, get_key-set_key}
use container_hackathon.Training.PredNet.{PredNet, Options, is_in, layer_output_modes, new_prednet}
use container_hackathon.Training.PredNet.Config.{
  Config, start_value, as_start, own_config, get_config, prednet_of,
}

-- The arguments of the constructor are the attributes that it sets.
pub new_prednet-again :
    (known : Text → Bool) (stacks r_stacks a_filts ahat_filts r_filts : List ℕ) (options : Options)
    (mode : Text) (start : Option ℕ) (data_format : Text) (net : PredNet)
    → new_prednet known stacks r_stacks a_filts ahat_filts r_filts options mode start data_format
      ≡ ok net
    → new_prednet known net.stack_sizes net.r_stack_sizes net.a_filt_sizes net.ahat_filt_sizes
        net.r_filt_sizes net.options net.output_mode net.extrap_start_time net.data_format
      ≡ ok net
unfolding new_prednet
new_prednet-again known stacks r_stacks a_filts ahat_filts r_filts options mode start data_format
      net h =
    ground arith

pub as_start-start_value : (start : Option ℕ) → as_start (some (start_value start)) ≡ ok start
as_start-start_value none = refl
as_start-start_value (some t) = refl

module _ (known : Text → Bool) (image_data_format : Text) (base : Config) (net : PredNet) where
  -- The layer that the arguments of a configuration make.
  arguments_lem :
      prednet_of known image_data_format (get_config base net)
      ≡ new_prednet known net.stack_sizes net.r_stack_sizes net.a_filt_sizes net.ahat_filt_sizes
          net.r_filt_sizes net.options net.output_mode net.extrap_start_time net.data_format
  unfolding prednet_of get_config own_config merge
  arguments_lem = simp (get_key-set_key, as_start-start_value)

-- A layer that the constructor has made is made again, as it was, from the configuration that it gives,
-- whatever the base class has in it and whatever the default format is.
pub prednet_of-get_config :
    (known : Text → Bool) (stacks r_stacks a_filts ahat_filts r_filts : List ℕ) (options : Options)
    (mode : Text) (start : Option ℕ) (data_format image_data_format : Text) (base : Config)
    (net : PredNet)
    → new_prednet known stacks r_stacks a_filts ahat_filts r_filts options mode start data_format
      ≡ ok net
    → prednet_of known image_data_format (get_config base net) ≡ ok net
prednet_of-get_config known stacks r_stacks a_filts ahat_filts r_filts options mode start
      data_format image_data_format base net h =
    arguments_lem known image_data_format base net
    ∙ new_prednet-again known stacks r_stacks a_filts ahat_filts r_filts options mode start
        data_format net h

no_layer_prediction : (ns : List ℕ) → is_in (codes "prediction") (layer_output_modes ns) ≡ false
no_layer_prediction [] = refl
no_layer_prediction (n ∷ ns) = no_layer_prediction ns

-- The constructor with the mode `prediction` and a start of extrapolation in place of those of a layer
-- that it has made.
pub new_prednet-prediction :
    (known : Text → Bool) (net : PredNet) (extrap : ℕ)
    → new_prednet known net.stack_sizes net.r_stack_sizes net.a_filt_sizes net.ahat_filt_sizes
        net.r_filt_sizes net.options net.output_mode net.extrap_start_time net.data_format
      ≡ ok net
    → new_prednet known net.stack_sizes net.r_stack_sizes net.a_filt_sizes net.ahat_filt_sizes
        net.r_filt_sizes net.options
        (codes "prediction")
        (some extrap)
        net.data_format
      ≡ ok (record net {
        output_mode = codes "prediction";
        output_layer = none;
        extrap_start_time = some extrap;
      })
unfolding new_prednet
new_prednet-prediction known net extrap h =
    ground (arith, no_layer_prediction (range 0 (length net.stack_sizes)))
