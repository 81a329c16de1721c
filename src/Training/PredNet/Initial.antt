-- ===== src/Training/PredNet/Initial.antt =====
-- The initial states of `PredNet` of wfppdl/training/source/prednet.py.
use mathlib.Core.Option
use container_hackathon.Prelude.{ℕ, ◌+◌, ◌*◌, ◌<◌, ◌≡◌, refl, ◌∙◌, ap, arith}
use container_hackathon.Prelude.{
  Option, none, some, List, ◌++◌, length, length-append, length-map, length-range, map, range,
  range-below, get_elem?-of_lt, All, All-append, All-of_map, for_each-total, ok,
}
use container_hackathon.Prelude.{All-map}
use container_hackathon.Training.PredNet.{
  PredNet, item_at, row_axis, column_axis, StateKind, r_state, c_state, e_state, ahat_state,
  stack_size, state_shape, states_to_pass, layer_states, ahat_states, timestep_states, extra_states,
  State, array, get_initial_state, nb_states,
}
use container_hackathon.Training.PredNet.Shapes.{dims, state_shape_lem}

length-layer_states :
    (nb_layers : ℕ) (u : StateKind) → length (layer_states nb_layers u) ≡ nb_layers
length-layer_states nb_layers u = length-map (range 0 nb_layers) _ ∙ length-range 0 nb_layers

length-extra_states :
    (start : Option ℕ)
    → length (ahat_states start) + length (timestep_states start) ≡ extra_states start
length-extra_states none = refl
length-extra_states (some t) = refl

length-states_to_pass :
    (net : PredNet)
    → length (states_to_pass net) + length (timestep_states net.extrap_start_time) ≡ nb_states net
length-states_to_pass net =
    let n = net.nb_layers in
    let last = ahat_states net.extrap_start_time in
    omega (
      arith,
      length-append (layer_states n r_state)
          (layer_states n c_state ++ (layer_states n e_state ++ last)),
      length-append (layer_states n c_state) (layer_states n e_state ++ last),
      length-append (layer_states n e_state) last,
      length-layer_states n r_state,
      length-layer_states n c_state,
      length-layer_states n e_state,
      length-extra_states net.extrap_start_time,
    )

module _ (net : PredNet) (input_shape : List ℕ) (rows columns : ℕ)
    (has_rows : item_at input_shape (row_axis net) ≡ some rows)
    (has_columns : item_at input_shape (column_axis net) ≡ some columns)
    (stacked : length net.stack_sizes ≡ net.nb_layers)
    (represented : length net.r_stack_sizes ≡ net.nb_layers) where
  abbrev HasShape : StateKind × ℕ → Type 0
  HasShape s = (shape : List ℕ) × (state_shape net input_shape s ≡ ok shape)

  stack_size-total :
      (u : StateKind) (l : ℕ) → l < net.nb_layers → (n : ℕ) × (stack_size net u l ≡ some n)
  stack_size-total r_state l less = get_elem?-of_lt net.r_stack_sizes l (omega (arith, represented))
  stack_size-total c_state l less = get_elem?-of_lt net.r_stack_sizes l (omega (arith, represented))
  stack_size-total e_state l less =
      let (n, e) = get_elem?-of_lt net.stack_sizes l (omega (arith, stacked)) in
      (2 * n, ap (Option.map (λ k. 2 * k)) e)
  stack_size-total ahat_state l less = get_elem?-of_lt net.stack_sizes l (omega (arith, stacked))

  state_shape-total : (u : StateKind) (l : ℕ) → l < net.nb_layers → HasShape (u, l)
  state_shape-total u l less =
      let (n, e) = stack_size-total u l less in
      (
        dims net input_shape rows columns has_rows has_columns l n,
        state_shape_lem net input_shape rows columns has_rows has_columns u l n e,
      )

  layers-total : (u : StateKind) → All HasShape (layer_states net.nb_layers u)
  layers-total u =
      All-of_map HasShape (λ l. (u, l)) (range 0 net.nb_layers)
        (All-map (range 0 net.nb_layers) (λ l less. state_shape-total u l (omega arith))
          (range-below 0 net.nb_layers))

  ahat_states-total : (start : Option ℕ) → 0 < net.nb_layers → All HasShape (ahat_states start)
  ahat_states-total none some_layer = tt
  ahat_states-total (some t) some_layer = (state_shape-total ahat_state 0 some_layer, tt)

  states_to_pass-total : 0 < net.nb_layers → All HasShape (states_to_pass net)
  states_to_pass-total some_layer = All-append HasShape _ _ (layers-total r_state) (
      All-append HasShape _ _ (layers-total c_state) (
        All-append HasShape _ _ (layers-total e_state)
          (ahat_states-total net.extrap_start_time some_layer)))

  -- Where the input has rows and columns, there is a layer, and both lists of channels have an entry for
  -- each layer: `get_initial_state` raises nothing and yields as many states as `build` makes places for.
  pub get_initial_state_lem :
      0 < net.nb_layers
      → (states : List State) × (get_initial_state net input_shape ≡ ok states)
        × (length states ≡ nb_states net)
  unfolding get_initial_state
  get_initial_state_lem some_layer =
      let (shapes, run, same) =
        for_each-total (state_shape net input_shape) (states_to_pass net)
          (states_to_pass-total some_layer) in
      (
        map array shapes ++ timestep_states net.extrap_start_time,
        rw run refl,
        length-append (map array shapes) (timestep_states net.extrap_start_time)
            ∙ omega (arith, length-map shapes array, same, length-states_to_pass net),
      )
