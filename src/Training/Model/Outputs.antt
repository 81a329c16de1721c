-- ===== src/Training/Model/Outputs.antt =====
-- The shapes in the network of the training programs, in wfppdl/training/source.
use container_hackathon.Prelude.{
  ℕ, ◌≡◌, refl, Bool, ◌||◌, true, none, [], ◌∷◌, replicate, set_item, ok,
}
use container_hackathon.Prelude.Text.{Text, codes, text_eq}
use container_hackathon.Training.Numbers.{Numbers}
use container_hackathon.Training.PredNet.{
  PredNet, activations_known, new_prednet, compute_output_shape, out_shape, whole,
}
use container_hackathon.Training.Model.{
  Model, input_shape, stack_sizes, a_filt_sizes, filt_sizes, default_options, layer_loss_weights,
  equal_weight, time_loss_weights, make_prednet, new_model, output_shape,
}

-- The layer of the training programs.
abbrev pub training_prednet : (image_data_format : Text) → PredNet
training_prednet image_data_format = record {
  stack_sizes = stack_sizes;
  r_stack_sizes = stack_sizes;
  a_filt_sizes = a_filt_sizes;
  ahat_filt_sizes = filt_sizes;
  r_filt_sizes = filt_sizes;
  options = default_options;
  nb_layers = 4;
  output_mode = codes "error";
  output_layer = none;
  extrap_start_time = none;
  data_format = image_data_format;
}

-- With the activations known and either data format, the network is set up, and for any number of
-- samples its output has that number of rows and one column: the weights of the two fixed layers fit the
-- errors that `PredNet` puts out.
pub new_model-output_shape :
    (numbers : Numbers) (known : Text → Bool) (image_data_format : Text) (samples : ℕ)
    → activations_known known default_options ≡ true
    → text_eq image_data_format (codes "channels_last")
        || text_eq image_data_format (codes "channels_first")
      ≡ true
    → (model : Model numbers) × (new_model numbers known image_data_format ≡ ok model)
      × (output_shape numbers model samples ≡ ok (whole samples ∷ whole 1 ∷ []))
unfolding new_model make_prednet new_prednet output_shape compute_output_shape out_shape
    time_loss_weights set_item
new_model-output_shape numbers known image_data_format samples activations format = (
  record {
    batch_input_shape = 10 ∷ input_shape image_data_format;
    prednet = training_prednet image_data_format;
    by_layer = layer_loss_weights numbers;
    by_time = numbers.zero ∷ replicate 9 (equal_weight numbers 10);
  },
  rw (activations, format) refl,
  refl,
)
