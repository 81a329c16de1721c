-- ===== src/Training/Convert/Layout.antt =====
-- The order of the axes of a kernel, before and after wfppdl/training/source/keras_utils.py.
use container_hackathon.Prelude.{
  ℕ, ◌*◌, ◌≡◌, ◌≢◌, refl, ap, ◌∙◌, arith, true, false, Bool-cases, inl, inr, ◌==◌, ==_iff, some,
  List, [], ◌∷◌, length, map, get_elem?, ok,
}
use container_hackathon.Training.PredNet.{PredNet, item_at, row_axis, column_axis}
use container_hackathon.Training.PredNet.Checks.{IsSized}
use container_hackathon.Training.PredNet.Build.{Built, build, trainable_weights}
use container_hackathon.Training.PredNet.Build.Kernels.{build-trainable_weights}
use container_hackathon.Training.Convert.{
  Array, moved, transpose, convert_weight, is_old, convert_weights,
}

not_equal : (a b : ℕ) → a ≢ b → (a == b) ≡ false
not_equal a b h = ground arith

module _ (Number : Type 0) where
  moved-length : (ns : List ℕ) → length (moved Number ns) ≡ length ns
  moved-length [] = refl
  moved-length (a ∷ []) = refl
  moved-length (a ∷ b ∷ []) = refl
  moved-length (a ∷ b ∷ c ∷ []) = refl
  moved-length (a ∷ b ∷ c ∷ d ∷ []) = refl
  moved-length (a ∷ b ∷ c ∷ d ∷ e ∷ ns) = refl

  same_rank : (w : Array Number) → length (convert_weight Number w).shape ≡ length w.shape
  same_rank w = elim (Bool-cases (length w.shape == 4)) [
    | inl e ↦ rw e (moved-length w.shape)
    | inr e ↦ rw e refl
  ]

  same_ranks :
      (ws : List (Array Number))
      → map (λ a. length a.shape) (map (convert_weight Number) ws) ≡ map (λ a. length a.shape) ws
  same_ranks [] = refl
  same_ranks (w ∷ ws) = rw (same_rank w, same_ranks ws) refl

module _ (Number : Type 0) (net : PredNet) where
  -- Weights whose first array does not have as many entries along its first axis as the second level has
  -- channels are left as they are.
  convert_weights-new :
      (w : Array Number) (weights : List (Array Number)) (size stack : ℕ) (shape : List ℕ)
      → w.shape ≡ size ∷ shape
      → get_elem? net.stack_sizes 1 ≡ some stack
      → size ≢ stack
      → convert_weights Number net (w ∷ weights) ≡ ok (w ∷ weights)
  unfolding convert_weights is_old
  convert_weights-new w weights size stack shape hw hs other =
      rw (hw, hs, not_equal size stack other) refl

  convert_weights-old :
      (w : Array Number) (weights : List (Array Number)) (stack : ℕ) (shape : List ℕ)
      → w.shape ≡ stack ∷ shape
      → get_elem? net.stack_sizes 1 ≡ some stack
      → convert_weights Number net (w ∷ weights) ≡ ok (map (convert_weight Number) (w ∷ weights))
  unfolding convert_weights is_old
  convert_weights-old w weights stack shape hw hs =
      let same : (stack == stack) ≡ true = (==_iff stack stack).1 refl in rw (hw, hs, same) refl

  -- Old weights, whose first array has the shape filters, channels, rows and columns, are converted, and a second
  -- conversion changes nothing more, unless a kernel has as many rows as the second level has channels.
  pub convert_weights-twice :
      (w : Array Number) (weights : List (Array Number)) (stack channels rows columns : ℕ)
      → w.shape ≡ stack ∷ channels ∷ rows ∷ columns ∷ []
      → get_elem? net.stack_sizes 1 ≡ some stack
      → rows ≢ stack
      → (converted : List (Array Number)) × (convert_weights Number net (w ∷ weights)
          ≡ ok converted)
        × (map (λ a. length a.shape) converted ≡ map (λ a. length a.shape) (w ∷ weights))
        × (convert_weights Number net converted ≡ ok converted)
  convert_weights-twice w weights stack channels rows columns hw hs other =
      let four : (length w.shape == 4) ≡ true = rw hw refl in
      let first : convert_weight Number w ≡ transpose Number w = rw four refl in
      let shape : (convert_weight Number w).shape ≡ rows ∷ columns ∷ channels ∷ stack ∷ [] =
        ap (λ a. a.shape) first ∙ ap (moved Number) hw in
      (
        map (convert_weight Number) (w ∷ weights),
        convert_weights-old w weights stack (channels ∷ rows ∷ columns ∷ []) hw hs,
        same_ranks Number (w ∷ weights),
        convert_weights-new (convert_weight Number w) (map (convert_weight Number) weights) rows
            stack (columns ∷ channels ∷ stack ∷ []) shape hs other,
      )

  -- The weights of a sized layer of two levels or more, as Keras 2 orders them after `build`, are left as
  -- they are, unless the lowest kernel has as many rows as the second level has channels.
  pub convert_weights-built :
      (sized : IsSized net) (input_shape : List ℕ) (nb_row nb_col nb_samples kernel stack above : ℕ)
      → item_at input_shape (row_axis net) ≡ some nb_row
      → item_at input_shape (column_axis net) ≡ some nb_col
      → get_elem? input_shape 0 ≡ some nb_samples
      → get_elem? net.a_filt_sizes 0 ≡ some kernel
      → get_elem? net.stack_sizes 0 ≡ some stack
      → get_elem? net.stack_sizes 1 ≡ some above
      → kernel ≢ above
      → (kinds : List (List Built)) × (build net input_shape ≡ ok kinds)
        × ((weights : List (Array Number))
            → map (λ a. a.shape) weights ≡ trainable_weights kinds
            → convert_weights Number net weights ≡ ok weights)
  convert_weights-built sized input_shape nb_row nb_col nb_samples kernel stack above hr hc hs hk h0
        h1 other =
      let (kinds, rest, run, lengths, first) =
        build-trainable_weights net sized input_shape nb_row nb_col nb_samples kernel stack above hr
          hc hs hk h0 h1 in
      (kinds, run, λ weights shapes. go weights rest (shapes ∙ first))
    where
      go :
          (weights : List (Array Number)) (rest : List (List ℕ))
          → map (λ a. a.shape) weights ≡ (kernel ∷ kernel ∷ 2 * stack ∷ above ∷ []) ∷ rest
          → convert_weights Number net weights ≡ ok weights
      go [] rest h = absurd cc
      go (w ∷ weights) rest h =
          convert_weights-new w weights kernel above (kernel ∷ 2 * stack ∷ above ∷ []) (cc) h1 other
