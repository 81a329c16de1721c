-- ===== src/Training/PredNet/Build/Kernels.antt =====
-- That the convolutions of `PredNet` are built, and the shapes of their kernels.
use container_hackathon.Prelude.{
  ℕ, suc, ◌+◌, ◌-◌, ◌*◌, ◌<◌, ◌≡◌, refl, sym, ap, subst, ◌∙◌, arith, some, List, [], ◌∷◌, ◌++◌,
  length, get_elem?, range, get_elem?-of_lt, get_elem?-lt, length-range, range-below, All-map,
  All-of_each, map, ltb, Bool-cases, inl, inr,
}
use container_hackathon.Prelude.{
  Result, ok, ◌>>=◌, or_raise, index_error, for_each, for_each-total, for_each-first, ok-injective,
}
use container_hackathon.Training.PredNet.{PredNet, item_at, row_axis, column_axis}
use container_hackathon.Training.PredNet.Checks.{IsSized}
use container_hackathon.Training.PredNet.Step.{
  Conv, conv_i, conv_f, conv_c, conv_o, conv_a, conv_ahat,
}
use container_hackathon.Training.PredNet.Build.{
  Conv2d, new_conv, activation_of, nb_convs, filters_at, kernel_sizes, conv_layers, above_channels,
  nb_channels, Built, built, build_conv, sorted_keys, build, weight_shapes, layer_weights,
  trainable_weights,
}

-- A loop over six items.
for_each-six :
    {A B : Type 0} (f : A → Result B) {x y z u v w : A} {a b c d g h : B}
    → f x ≡ ok a
    → f y ≡ ok b
    → f z ≡ ok c
    → f u ≡ ok d
    → f v ≡ ok g
    → f w ≡ ok h
    → for_each f (x ∷ y ∷ z ∷ u ∷ v ∷ w ∷ []) ≡ ok (a ∷ b ∷ c ∷ d ∷ g ∷ h ∷ [])
unfolding for_each
for_each-six f p q r s t o = rw (p, q, r, s, t, o) refl

module _ (net : PredNet) (sized : IsSized net) where
  filters_at-in : (c : Conv) (l : ℕ) → l < nb_convs net c → (n : ℕ) × (filters_at net c l ≡ some n)
  unfolding IsSized
  filters_at-in conv_ahat l h = get_elem?-of_lt net.stack_sizes l (omega arith)
  filters_at-in conv_a l h = get_elem?-of_lt net.stack_sizes (l + 1) (omega arith)
  filters_at-in conv_i l h = get_elem?-of_lt net.r_stack_sizes l (omega arith)
  filters_at-in conv_f l h = get_elem?-of_lt net.r_stack_sizes l (omega arith)
  filters_at-in conv_c l h = get_elem?-of_lt net.r_stack_sizes l (omega arith)
  filters_at-in conv_o l h = get_elem?-of_lt net.r_stack_sizes l (omega arith)

  pub kernel_sizes-length : (c : Conv) → nb_convs net c ≡ length (kernel_sizes net c)
  unfolding IsSized
  kernel_sizes-length conv_ahat = omega arith
  kernel_sizes-length conv_a = omega arith
  kernel_sizes-length conv_i = omega arith
  kernel_sizes-length conv_f = omega arith
  kernel_sizes-length conv_c = omega arith
  kernel_sizes-length conv_o = omega arith

  pub new_conv-total :
      (c : Conv) (l : ℕ) → l < nb_convs net c → (conv : Conv2d) × (new_conv net c l ≡ ok conv)
  unfolding new_conv
  new_conv-total c l h =
      let (n, e) = filters_at-in c l h in
      let (k, f) =
        get_elem?-of_lt (kernel_sizes net c) l (subst (λ m. l < m) (kernel_sizes-length c) h) in
      (record { filters = n; kernel_size = k; activation = activation_of net c l }, rw (e, f) refl)

  above_channels-total : (l : ℕ) → (n : ℕ) × (above_channels net l ≡ ok n)
  unfolding above_channels IsSized
  above_channels-total l = elim (Bool-cases (ltb l (net.nb_layers - 1))) [
    | inl e ↦
        let less : l < net.nb_layers - 1 = ground (arith, e) in
        let (n, f) = get_elem?-of_lt net.r_stack_sizes (l + 1) (omega arith) in (n, rw (e, f) refl)
    | inr e ↦ (0, rw e refl)
  ]

  gate_channels :
      (l : ℕ)
      → l < net.nb_layers
      → (n : ℕ) × ((do
        stack ← or_raise (get_elem? net.stack_sizes l) index_error
        r_stack ← or_raise (get_elem? net.r_stack_sizes l) index_error
        above ← above_channels net l
        ok (stack * 2 + r_stack + above))
          ≡ ok n)
  unfolding IsSized
  gate_channels l h =
      let (s, e) = get_elem?-of_lt net.stack_sizes l (omega arith) in
      let (r, f) = get_elem?-of_lt net.r_stack_sizes l (omega arith) in
      let (a, g) = above_channels-total l in (s * 2 + r + a, rw (e, f, g) refl)

  nb_channels-total :
      (c : Conv) (l : ℕ) → l < nb_convs net c → (n : ℕ) × (nb_channels net c l ≡ ok n)
  unfolding nb_channels IsSized
  nb_channels-total conv_ahat l h =
      let (n, e) = get_elem?-of_lt net.r_stack_sizes l (omega arith) in (n, rw e refl)
  nb_channels-total conv_a l h =
      let (n, e) = get_elem?-of_lt net.stack_sizes l (omega arith) in (2 * n, rw e refl)
  nb_channels-total conv_i l h = gate_channels l h
  nb_channels-total conv_f l h = gate_channels l h
  nb_channels-total conv_c l h = gate_channels l h
  nb_channels-total conv_o l h = gate_channels l h

  conv_layers-total :
      (c : Conv)
      → (convs : List Conv2d) × (conv_layers net c ≡ ok convs) × (length convs ≡ nb_convs net c)
  unfolding conv_layers
  conv_layers-total c =
      let (convs, e, n) = for_each-total (new_conv net c) (range 0 (nb_convs net c)) (
        All-map (range 0 (nb_convs net c)) (λ l h. new_conv-total c l (omega (arith, h)))
          (range-below 0 (nb_convs net c))) in
      (convs, e, n ∙ length-range 0 (nb_convs net c))

  conv_layers-ok : (c : Conv) → (convs : List Conv2d) × (conv_layers net c ≡ ok convs)
  conv_layers-ok c = let (convs, e, n) = conv_layers-total c in (convs, e)

  module _ (nb_samples nb_row nb_col : ℕ) where
    build_conv-total :
        (c : Conv) (l : ℕ)
        → l < nb_convs net c
        → (b : Built) × (build_conv net nb_samples nb_row nb_col c l ≡ ok b)
    unfolding build_conv
    build_conv-total c l h =
        let (conv, e) = new_conv-total c l h in
        let (n, f) = nb_channels-total c l h in
        (built net nb_samples nb_row nb_col c l conv n, rw (e, f) refl)

    pub build_kind-total :
        (c : Conv)
        → (bs : List Built) × (for_each
              (build_conv net nb_samples nb_row nb_col c)
              (range 0 (nb_convs net c))
            ≡ ok bs)
          × (length bs ≡ nb_convs net c)
    build_kind-total c =
        let (bs, e, n) =
          for_each-total (build_conv net nb_samples nb_row nb_col c) (range 0 (nb_convs net c)) (
            All-map (range 0 (nb_convs net c)) (λ l h. build_conv-total c l (omega (arith, h)))
              (range-below 0 (nb_convs net c))) in
        (bs, e, n ∙ length-range 0 (nb_convs net c))

  -- Every kind of convolution is built, with one for each layer, or for each layer but the last.
  pub build-total :
      (input_shape : List ℕ) (nb_row nb_col nb_samples : ℕ)
      → item_at input_shape (row_axis net) ≡ some nb_row
      → item_at input_shape (column_axis net) ≡ some nb_col
      → get_elem? input_shape 0 ≡ some nb_samples
      → (a : List Built) × (others : List (List Built)) × (build net input_shape ≡ ok (a ∷ others))
        × (map length (a ∷ others) ≡ map (nb_convs net) sorted_keys)
        × (for_each (build_conv net nb_samples nb_row nb_col conv_a) (range 0 (net.nb_layers - 1))
            ≡ ok a)
  unfolding build
  build-total input_shape nb_row nb_col nb_samples hr hc hs =
      let (xs, e, n) =
        for_each-total (conv_layers net)
          (conv_i ∷ conv_f ∷ conv_c ∷ conv_o ∷ conv_ahat ∷ conv_a ∷ [])
          (All-of_each (λ c. (convs : List Conv2d) × (conv_layers net c ≡ ok convs)) conv_layers-ok
            (conv_i ∷ conv_f ∷ conv_c ∷ conv_o ∷ conv_ahat ∷ conv_a ∷ [])) in
      let (a, ea, na) = build_kind-total nb_samples nb_row nb_col conv_a in
      let (b, eb, nb) = build_kind-total nb_samples nb_row nb_col conv_ahat in
      let (c, ec, nc) = build_kind-total nb_samples nb_row nb_col conv_c in
      let (d, ed, nd) = build_kind-total nb_samples nb_row nb_col conv_f in
      let (g, eg, ng) = build_kind-total nb_samples nb_row nb_col conv_i in
      let (h, eh, nh) = build_kind-total nb_samples nb_row nb_col conv_o in
      (a, b ∷ c ∷ d ∷ g ∷ h ∷ [], rw (e, hr, hc, hs) (for_each-six _ ea eb ec ed eg eh), cc, ea)

-- The first convolution that a layer with more than one level has: it makes the targets of the second
-- level from the errors of the first.
first_weights :
    (net : PredNet) (nb_samples nb_row nb_col kernel stack above : ℕ) (b : Built)
    → get_elem? net.a_filt_sizes 0 ≡ some kernel
    → get_elem? net.stack_sizes 0 ≡ some stack
    → get_elem? net.stack_sizes 1 ≡ some above
    → build_conv net nb_samples nb_row nb_col conv_a 0 ≡ ok b
    → weight_shapes b ≡ (kernel ∷ kernel ∷ 2 * stack ∷ above ∷ []) ∷ (above ∷ []) ∷ []
unfolding build_conv new_conv nb_channels
first_weights net nb_samples nb_row nb_col kernel stack above b hk hs ha h =
    let run : ok (
          built net nb_samples nb_row nb_col conv_a 0
            (record {
              filters = above;
              kernel_size = kernel;
              activation = net.options.a_activation;
            })
            (2 * stack))
        ≡ ok b =
      sym (rw (ha, hk, hs) refl) ∙ h in
    ap weight_shapes (sym (ok-injective run))

trainable_weights-first :
    (a : List Built) (others : List (List Built)) (b : Built) (rest : List Built) {x y : List ℕ}
    → a ≡ b ∷ rest
    → weight_shapes b ≡ x ∷ y ∷ []
    → trainable_weights (a ∷ others) ≡ x ∷ y ∷ (layer_weights rest ++ trainable_weights others)
trainable_weights-first a others b rest same h =
    ap (λ bs. trainable_weights (bs ∷ others)) same
    ∙ ap (λ ws. (ws ++ layer_weights rest) ++ trainable_weights others) h

-- A sized layer of two levels or more builds whatever input has a number of samples, rows and columns:
-- each kind of convolution once for each level, but the one between two levels once less. The first
-- weight is the kernel, in the order rows, columns, channels, filters, of the targets of the second level.
pub build-trainable_weights :
    (net : PredNet)
    → IsSized net
    → (input_shape : List ℕ) (nb_row nb_col nb_samples kernel stack above : ℕ)
    → item_at input_shape (row_axis net) ≡ some nb_row
    → item_at input_shape (column_axis net) ≡ some nb_col
    → get_elem? input_shape 0 ≡ some nb_samples
    → get_elem? net.a_filt_sizes 0 ≡ some kernel
    → get_elem? net.stack_sizes 0 ≡ some stack
    → get_elem? net.stack_sizes 1 ≡ some above
    → (kinds : List (List Built)) × (weights : List (List ℕ)) × (build net input_shape ≡ ok kinds)
      × (map length kinds ≡ map (nb_convs net) sorted_keys)
      × (trainable_weights kinds ≡ (kernel ∷ kernel ∷ 2 * stack ∷ above ∷ []) ∷ weights)
unfolding IsSized
build-trainable_weights net sized input_shape nb_row nb_col nb_samples kernel stack above hr hc hs
      hk h0 h1 =
    let (a, others, run, lengths, loop) =
      build-total net sized input_shape nb_row nb_col nb_samples hr hc hs in
    let more : net.nb_layers - 1 ≡ suc (net.nb_layers - 2) =
      omega (arith, get_elem?-lt net.stack_sizes 1 h1) in
    let (b, rest, first, same) =
      for_each-first (build_conv net nb_samples nb_row nb_col conv_a) 0
        (range 1 (net.nb_layers - 2)) a
        (subst (λ k. for_each (build_conv net nb_samples nb_row nb_col conv_a) (range 0 k) ≡ ok a)
          more loop) in
    (
      a ∷ others,
      (above ∷ []) ∷ (layer_weights rest ++ trainable_weights others),
      run,
      lengths,
      trainable_weights-first a others b rest same
          (first_weights net nb_samples nb_row nb_col kernel stack above b hk h0 h1 first),
    )
