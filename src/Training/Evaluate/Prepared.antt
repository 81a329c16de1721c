-- ===== src/Training/Evaluate/Prepared.antt =====
-- What wfppdl/training/source/evaluate_multistep.py has before it predicts.
use mathlib.Core.List.Perm
use container_hackathon.Prelude.{
  ℕ, ◌≡◌, refl, sym, subst, ◌∙◌, arith, Bool, false, none, some, List, ◌∷◌, length, map, All, ok,
  set_item,
}
use container_hackathon.Prelude.Text.{Text, codes, text_eq}
use container_hackathon.Prelude.Keyed.{merge, get_key-set_key}
use container_hackathon.Files.{World, read_file}
use container_hackathon.Training.Numbers.{Numbers, Image}
use container_hackathon.Training.Generator.{Generator}
use container_hackathon.Training.Generator.Batches.{IsColoured, processed, window}
use container_hackathon.Training.Generator.Valid.{IsValid, new_generator-IsValid, create_all_lem}
use container_hackathon.Training.PredNet.{PredNet, new_prednet}
use container_hackathon.Training.PredNet.Config.{Config, own_config, get_config, prednet_of}
use container_hackathon.Training.PredNet.Config.Remade.{
  new_prednet-prediction, prednet_of-get_config,
}
use container_hackathon.Training.Evaluate.{
  steps, extrap, json_file, weights_file, test_file, test_sources, testing_config, format_of,
  Libraries, make_testing_layer, open_generator, prepare,
}

-- The layer that is tested, from the one that was trained.
abbrev pub testing_layer : PredNet → PredNet
testing_layer net = record net {
  output_mode = codes "prediction";
  output_layer = none;
  extrap_start_time = some extrap;
}

module _ (known : Text → Bool) (image_data_format : Text) (base : Config) (net : PredNet) where
  testing_arguments :
      prednet_of known image_data_format (testing_config (get_config base net))
      ≡ new_prednet known net.stack_sizes net.r_stack_sizes net.a_filt_sizes net.ahat_filt_sizes
          net.r_filt_sizes net.options
          (codes "prediction")
          (some extrap)
          net.data_format
  unfolding prednet_of testing_config get_config own_config merge
  testing_arguments = simp (get_key-set_key)

  format_of-testing_config : format_of (testing_config (get_config base net)) ≡ ok net.data_format
  unfolding format_of testing_config get_config own_config merge
  format_of-testing_config = simp (get_key-set_key)

module _ (numbers : Numbers) (Weights : Type 0) (libraries : Libraries numbers Weights) where
  open libraries use {
    image_data_format, known, base_config, load_images, load_sources, from_json, load_weights,
  }

  -- A trained layer and its weights can be loaded: the JSON file has the configuration of a layer that the
  -- constructor has made.
  pub record IsTrained (w : World) (net : PredNet) (frames : ℕ) (shape : List ℕ) (weights : Weights)
      : Type 0 where
    pub json_string : Text
    pub json_read : read_file w json_file ≡ ok json_string
    pub json_parsed : from_json json_string ≡ ok (frames ∷ shape, get_config base_config net)
    pub weights_loaded : load_weights w weights_file ≡ ok weights
    pub made :
        new_prednet known net.stack_sizes net.r_stack_sizes net.a_filt_sizes net.ahat_filt_sizes
          net.r_filt_sizes net.options net.output_mode net.extrap_start_time net.data_format
        ≡ ok net

  make_testing_layer_lem :
      (w : World) (net : PredNet) (frames : ℕ) (shape : List ℕ) (weights : Weights)
      → IsTrained w net frames shape weights
      → make_testing_layer numbers Weights libraries w
        ≡ ok (testing_layer net, (weights, (steps ∷ shape, net.data_format)))
  unfolding make_testing_layer set_item
  make_testing_layer_lem w net frames shape weights trained =
      let again : prednet_of known image_data_format (get_config base_config net) ≡ ok net =
        prednet_of-get_config known net.stack_sizes net.r_stack_sizes net.a_filt_sizes
          net.ahat_filt_sizes net.r_filt_sizes net.options net.output_mode net.extrap_start_time
          net.data_format image_data_format base_config net trained.made in
      let tested : prednet_of known image_data_format (testing_config (get_config base_config net))
          ≡ ok (testing_layer net) =
        testing_arguments known image_data_format base_config net
        ∙ new_prednet-prediction known net extrap trained.made in
      rw
        (
          trained.json_read,
          trained.json_parsed,
          again,
          trained.weights_loaded,
          format_of-testing_config known image_data_format base_config net,
          tested,
        )
        refl

  -- Where the JSON file has the configuration of a layer that the constructor has made, with a format other than
  -- `channels_first`, the weights can be loaded, and there is a coloured image or more, with a source each, the
  -- program comes as far as the prediction. The layer that it tests is the trained one but for the mode and the
  -- start of extrapolation, it takes sequences of fifteen steps, and what it is tested on are the sequences
  -- that a generator cuts out of these images, none beyond their end.
  pub prepare-runs :
      (w : World) (net : PredNet) (frames : ℕ) (shape : List ℕ) (weights : Weights)
      → IsTrained w net frames shape weights
      → text_eq net.data_format (codes "channels_first") ≡ false
      → (first : Image numbers.Number) (others : List (Image numbers.Number)) (sources : List Text)
      → load_images w test_file ≡ ok (first ∷ others)
      → load_sources w test_sources ≡ ok sources
      → length sources ≡ length (first ∷ others)
      → All (IsColoured numbers) (first ∷ others)
      → (g : Generator numbers) × IsValid numbers g
        × (g.images ≡ first ∷ others)
        × (g.nt ≡ steps)
        × (prepare numbers Weights libraries w
            ≡ some (
                ok (record {
                  test_prednet = testing_layer net;
                  weights = weights;
                  input_shape = steps ∷ shape;
                  data_format = net.data_format;
                  x_test = map (λ s. processed numbers (window numbers g s)) g.possible_starts;
                })))
  unfolding prepare open_generator
  prepare-runs w net frames shape weights trained last first others sources images_loaded
        sources_loaded counted coloured =
      let (g, run, valid, images, nt) =
        new_generator-IsValid numbers first others sources steps 8 (λ starts. starts)
          (codes "error") (codes "unique") none net.data_format Perm.refl (omega arith) counted last
          refl refl in
      let created =
        create_all_lem numbers g valid (subst (All (IsColoured numbers)) (sym images) coloured) in
      (
        g,
        valid,
        images,
        nt,
        rw
            (
              make_testing_layer_lem w net frames shape weights trained,
              images_loaded,
              sources_loaded,
              run,
              created,
            )
            refl,
      )
