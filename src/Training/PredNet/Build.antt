-- ===== src/Training/PredNet/Build.antt =====
-- `PredNet.build` of wfppdl/training/source/prednet.py: the convolutions and the shapes they are built for.
pub mod Kernels
use container_hackathon.Prelude.{
  ℕ, ◌+◌, ◌-◌, ◌*◌, ◌/◌, ◌^◌, Option, none, some, ltb, ◌==◌, if◌then◌else◌, List, [], ◌∷◌, ◌++◌,
  get_elem?, range,
}
use container_hackathon.Prelude.{index_error, Result, ok, ◌>>=◌, or_raise, for_each}
use container_hackathon.Prelude.Text.{Text, codes}
use container_hackathon.Training.PredNet.{PredNet, is_first, row_axis, column_axis, item_at}
use container_hackathon.Training.PredNet.Step.{
  Conv, conv_i, conv_f, conv_c, conv_o, conv_a, conv_ahat,
}

-- What `Conv2D` is given.
pub record Conv2d : Type 0 where
  pub filters : ℕ
  pub kernel_size : ℕ
  pub activation : Text

-- The list that has the number of filters for layer `l`, at its place.
abbrev pub filters_at : PredNet → Conv → ℕ → Option ℕ
filters_at net conv_ahat l = get_elem? net.stack_sizes l
filters_at net conv_a l = get_elem? net.stack_sizes (l + 1)
filters_at net _ l = get_elem? net.r_stack_sizes l

abbrev pub kernel_sizes : PredNet → Conv → List ℕ
kernel_sizes net conv_ahat = net.ahat_filt_sizes
kernel_sizes net conv_a = net.a_filt_sizes
kernel_sizes net _ = net.r_filt_sizes

-- `act`
abbrev pub activation_of : PredNet → Conv → ℕ → Text
activation_of net conv_c l = net.options.lstm_activation
activation_of net conv_ahat l = if l == 0 then codes "relu" else net.options.a_activation
activation_of net conv_a l = net.options.a_activation
activation_of net _ l = net.options.lstm_inner_activation

-- One call of `Conv2D`.
unfoldable pub new_conv : PredNet → Conv → ℕ → Result Conv2d
new_conv net c l = do
  filters ← or_raise (filters_at net c l) index_error
  kernel_size ← or_raise (get_elem? (kernel_sizes net c) l) index_error
  ok (record { filters = filters; kernel_size = kernel_size; activation = activation_of net c l })

-- The number of layers that have a convolution of a kind.
abbrev pub nb_convs : PredNet → Conv → ℕ
nb_convs net conv_a = net.nb_layers - 1
nb_convs net _ = net.nb_layers

-- `self.conv_layers[c]`. The kinds are independent, and the only exception is that of an index.
unfoldable pub conv_layers : PredNet → Conv → Result (List Conv2d)
conv_layers net c = for_each (new_conv net c) (range 0 (nb_convs net c))

-- The channels of the layer above, where there is one.
unfoldable pub above_channels : PredNet → ℕ → Result ℕ
above_channels net l =
    if ltb l (net.nb_layers - 1)
    then or_raise (get_elem? net.r_stack_sizes (l + 1)) index_error
    else ok 0

-- `nb_channels`
unfoldable pub nb_channels : PredNet → Conv → ℕ → Result ℕ
nb_channels net conv_ahat l = or_raise (get_elem? net.r_stack_sizes l) index_error
nb_channels net conv_a l = do
  stack ← or_raise (get_elem? net.stack_sizes l) index_error
  ok (2 * stack)
nb_channels net _ l = do
  stack ← or_raise (get_elem? net.stack_sizes l) index_error
  r_stack ← or_raise (get_elem? net.r_stack_sizes l) index_error
  above ← above_channels net l
  ok (stack * 2 + r_stack + above)

-- A convolution that has been built.
pub record Built : Type 0 where
  pub kind : Conv
  pub layer : ℕ
  pub conv : Conv2d
  pub channels : ℕ
  pub in_shape : List ℕ

abbrev pub built :
    PredNet → (nb_samples nb_row nb_col : ℕ) → Conv → ℕ → Conv2d → (channels : ℕ) → Built
built net nb_samples nb_row nb_col c l conv channels =
    let rows = nb_row / 2 ^ l in
    let columns = nb_col / 2 ^ l in
    record {
      kind = c;
      layer = l;
      conv = conv;
      channels = channels;
      in_shape =
          if is_first net
          then nb_samples ∷ channels ∷ rows ∷ columns ∷ []
          else nb_samples ∷ rows ∷ columns ∷ channels ∷ [];
    }

-- One round of the loop that builds the convolutions.
unfoldable pub build_conv : PredNet → (nb_samples nb_row nb_col : ℕ) → Conv → ℕ → Result Built
build_conv net nb_samples nb_row nb_col c l = do
  conv ← new_conv net c l
  channels ← nb_channels net c l
  ok (built net nb_samples nb_row nb_col c l conv channels)

-- `sorted(self.conv_layers.keys())`
abbrev pub sorted_keys : List Conv
sorted_keys = conv_a ∷ conv_ahat ∷ conv_c ∷ conv_f ∷ conv_i ∷ conv_o ∷ []

-- `build`: the convolutions of each kind, in the order of their weights.
unfoldable pub build : PredNet → List ℕ → Result (List (List Built))
build net input_shape = do
  layers ← for_each (conv_layers net) (conv_i ∷ conv_f ∷ conv_c ∷ conv_o ∷ conv_ahat ∷ conv_a ∷ [])
  nb_row ← or_raise (item_at input_shape (row_axis net)) index_error
  nb_col ← or_raise (item_at input_shape (column_axis net)) index_error
  nb_samples ← or_raise (get_elem? input_shape 0) index_error
  for_each (λ c. for_each (build_conv net nb_samples nb_row nb_col c) (range 0 (nb_convs net c)))
      sorted_keys

-- The shape of the kernel of a convolution, as Keras 2 has it, and of its bias.
abbrev pub weight_shapes : Built → List (List ℕ)
weight_shapes b =
    (b.conv.kernel_size ∷ b.conv.kernel_size ∷ b.channels ∷ b.conv.filters ∷ [])
    ∷ (b.conv.filters ∷ [])
    ∷ []

-- `self.trainable_weights`, by their shapes
abbrev pub layer_weights : List Built → List (List ℕ)
layer_weights [] = []
layer_weights (b ∷ bs) = weight_shapes b ++ layer_weights bs

abbrev pub trainable_weights : List (List Built) → List (List ℕ)
trainable_weights [] = []
trainable_weights (bs ∷ kinds) = layer_weights bs ++ trainable_weights kinds
