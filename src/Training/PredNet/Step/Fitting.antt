-- ===== src/Training/PredNet/Step/Fitting.antt =====
-- The second loop of `PredNet.step` of wfppdl/training/source/prednet.py, and the whole step, keep the sizes of
-- the states.
use mathlib.Core.Path.{ap₂}
use mathlib.Core.List.{append-nil}
use container_hackathon.Prelude.{
  ℕ, zero, suc, ◌+◌, ◌-◌, ◌*◌, ◌/◌, ◌<◌, ◌≤◌, ◌≡◌, refl, sym, ap, ◌∙◌, subst, arith, Bool, true,
  false, Bool-cases, inl, inr, ltb, ltb-of_lt, ◌==◌, if◌then◌else◌,
}
use container_hackathon.Prelude.{Option, none, some, [], ◌∷◌, ◌++◌, map, range, get_elem?, ok}
use container_hackathon.Prelude.Text.{Text}
use container_hackathon.Training.PredNet.{PredNet}
use container_hackathon.Training.PredNet.Checks.{IsSized}
use container_hackathon.Training.PredNet.Build.{nb_channels}
use container_hackathon.Training.PredNet.Step.{
  conv_a, conv_ahat, Pass, layer_output, chosen, passed, pass_layer, pass_layers,
}
use container_hackathon.Training.PredNet.Step.Passes.{IsLayer, layer_output-total}
use container_hackathon.Training.PredNet.Step.Sizes.{
  Extent, area, beside_all, alike, halved, extents, alike_self, beside_fit, convolved_fit,
}
use container_hackathon.Training.PredNet.Step.Gates.{
  stack_at, r_stack_at, stack_at-found, r_stack_at-found, filters_of-new_conv, r_size, e_size,
  range-last_zero, get_elem?-map-range,
}

module _ (net : PredNet) (sized : IsSized net) (row col : ℕ → ℕ) where
  open net use {nb_layers}

  abbrev pub sizes : ℕ → Extent
  sizes l = area (stack_at net sized l) (row l) (col l)

  abbrev pub r_sizes : ℕ → Extent
  r_sizes = r_size net sized row col

  abbrev pub e_sizes : ℕ → Extent
  e_sizes = e_size net sized row col

  prediction-size : (l : ℕ) → l < nb_layers → (extents net).conv conv_ahat l (r_sizes l) ≡ sizes l
  unfolding nb_channels
  prediction-size l h =
      rw
        (
          r_stack_at-found net sized l h,
          filters_of-new_conv net sized conv_ahat l (stack_at net sized l) h
              (stack_at-found net sized l h),
        )
        (convolved_fit (r_stack_at net sized l) (stack_at net sized l) (row l) (col l))

  errors-size : (l : ℕ) → beside_all (sizes l ∷ sizes l ∷ []) ≡ e_sizes l
  errors-size l =
      beside_fit (stack_at net sized l) (stack_at net sized l) (row l) (col l)
      ∙ ap (λ n. area n (row l) (col l)) (omega arith)

  target-size :
      (l : ℕ)
      → l + 1 < nb_layers
      → (2 * row (l + 1) ≡ row l) × (2 * col (l + 1) ≡ col l)
      → halved ((extents net).conv conv_a l (e_sizes l)) ≡ sizes (l + 1)
  unfolding nb_channels
  target-size l h (rows, columns) =
      let half_row : row l / 2 ≡ row (l + 1) = omega (arith, rows) in
      let half_col : col l / 2 ≡ col (l + 1) = omega (arith, columns) in
      let conv : (extents net).conv conv_a l (e_sizes l)
          ≡ area (stack_at net sized (l + 1)) (row l) (col l) =
        rw
          (
            stack_at-found net sized l (omega arith),
            filters_of-new_conv net sized conv_a l (stack_at net sized (l + 1)) (omega arith)
                (stack_at-found net sized (l + 1) h),
          )
          (convolved_fit (2 * stack_at net sized l) (stack_at net sized (l + 1)) (row l) (col l)) in
      ap halved conv ∙ ap₂ (area (stack_at net sized (l + 1))) half_row half_col

  -- The output of a layer, once it has been passed.
  unfoldable pub IsOutput : Option (Text × ℕ) → ℕ → Option Extent → Type 0
  IsOutput none l output = Unit
  IsOutput (some (layer_type, n)) l output =
      n < l
      → output
        ≡ layer_output (extents net) net layer_type (sizes n) (sizes n) (r_sizes n) (e_sizes n)

  -- The sizes that the second loop has made before layer `l`.
  pub record IsFitting (l : ℕ) (p : Pass (extents net) net) : Type 0 where
    pub target : l < nb_layers → p.a ≡ sizes l
    pub errors : p.e ≡ map e_sizes (range 0 l)
    pub frame : 0 < l → p.frame_prediction ≡ some (sizes 0)
    pub output : IsOutput net.output_layer l p.output

  chosen-size :
      (layer : Option (Text × ℕ)) (l : ℕ) (output : Option Extent)
      → IsLayer nb_layers layer
      → IsOutput layer l output
      → IsOutput layer
          (suc l)
          (chosen (extents net) net layer l (sizes l) (sizes l) (r_sizes l) (e_sizes l) output)
  unfolding IsOutput
  chosen-size none l output known before = tt
  chosen-size (some (layer_type, n)) l output known before = λ less. elim (Bool-cases (n == l)) [
    | inl here ↦
        let same : n ≡ l = ground (arith, here) in
        let (x, made) =
          layer_output-total (extents net) net layer_type (sizes l) (sizes l) (r_sizes l)
            (e_sizes l) known.1 in
        rw (here, made)
          (sym made
            ∙ ap
                (λ k.
                  layer_output (extents net) net layer_type (sizes k) (sizes k) (r_sizes k)
                    (e_sizes k))
                (sym same))
    | inr other ↦ rw other (before (ground (arith, other, less)))
  ]

  module _
      (halve : (l : ℕ)
        → l + 1 < nb_layers
        → (2 * row (l + 1) ≡ row l) × (2 * col (l + 1) ≡ col l)) where
    -- What a layer makes of a target and a prediction.
    abbrev layer_errors : (a ahat : Extent) → Extent
    layer_errors a ahat = beside_all (alike ahat a ∷ alike a ahat ∷ [])

    layer_errors-sizes : (l : ℕ) → layer_errors (sizes l) (sizes l) ≡ e_sizes l
    layer_errors-sizes l = rw (alike_self (stack_at net sized l) (row l) (col l)) (errors-size l)

    if_same : (b : Bool) (x : Extent) → (if b then x else x) ≡ x
    if_same true x = refl
    if_same false x = refl

    clipped-size :
        (l : ℕ)
        → l < nb_layers
        → (if l == 0
            then (extents net).conv conv_ahat l (r_sizes l)
            else (extents net).conv conv_ahat l (r_sizes l))
          ≡ sizes l
    clipped-size l h = if_same (l == 0) _ ∙ prediction-size l h

    frame-size :
        (l : ℕ) (ahat : Extent) (frame : Option Extent)
        → ahat ≡ sizes l
        → (0 < l → frame ≡ some (sizes 0))
        → (if l == 0 then some ahat else frame) ≡ some (sizes 0)
    frame-size zero ahat frame e h = ap some e
    frame-size (suc l) ahat frame e h = ground (arith, h (omega arith))

    next_target-size :
        (l : ℕ) (a e_l : Extent)
        → suc l < nb_layers
        → e_l ≡ e_sizes l
        → (if ltb l (nb_layers - 1) then halved ((extents net).conv conv_a l e_l) else a)
          ≡ sizes (suc l)
    next_target-size l a e_l h e =
        let more : ltb l (nb_layers - 1) ≡ true = ltb-of_lt l (nb_layers - 1) (omega arith) in
        let next : l + 1 ≡ suc l = omega arith in
        rw more (
          ap (λ x. halved ((extents net).conv conv_a l x)) e
          ∙ target-size l (omega arith) (halve l (omega arith))
          ∙ ap sizes next)

    passed-IsFitting :
        (l : ℕ) (p : Pass (extents net) net)
        → l < nb_layers
        → IsLayer nb_layers net.output_layer
        → IsFitting l p
        → IsFitting (suc l) (passed (extents net) net l (r_sizes l) p)
    passed-IsFitting l p inside known fitting =
        let a = fitting.target inside in
        let ahat = clipped-size l inside in
        let e_l = ap₂ layer_errors a ahat ∙ layer_errors-sizes l in
        record {
          target = λ more. next_target-size l p.a _ more e_l;
          errors =
              ap₂ (λ es e. es ++ (e ∷ [])) fitting.errors e_l
              ∙ sym (range-last_zero e_sizes l [])
              ∙ append-nil (map e_sizes (range 0 (suc l)));
          frame = λ positive. frame-size l _ p.frame_prediction ahat fitting.frame;
          output =
              subst (IsOutput net.output_layer (suc l))
                (sym (
                  ap₂
                    (λ x y.
                      chosen (extents net) net net.output_layer l x y (r_sizes l) (layer_errors x y)
                        p.output)
                    a ahat
                  ∙ ap
                      (λ e.
                        chosen (extents net) net net.output_layer l (sizes l) (sizes l) (r_sizes l)
                          e p.output)
                      (layer_errors-sizes l)))
                (chosen-size net.output_layer l p.output known fitting.output);
        }

    pub pass_layers-IsFitting :
        (rounds l : ℕ) (p : Pass (extents net) net)
        → rounds + l ≤ nb_layers
        → IsLayer nb_layers net.output_layer
        → IsFitting l p
        → (p' : Pass (extents net) net) × (pass_layers
              (extents net)
              net
              (map r_sizes (range 0 nb_layers))
              rounds
              l
              p
            ≡ ok p')
          × IsFitting (rounds + l) p'
    unfolding pass_layers pass_layer
    pass_layers-IsFitting zero l p inside known fitting =
        let same : l ≡ zero + l = omega arith in (p, refl, subst (λ n. IsFitting n p) same fitting)
    pass_layers-IsFitting (suc rounds) l p inside known fitting =
        let found : get_elem? (map r_sizes (range 0 nb_layers)) l ≡ some (r_sizes l) =
          get_elem?-map-range r_sizes 0 nb_layers l (omega arith)
          ∙ ap (λ n. some (r_sizes n)) (omega arith) in
        let p1 = passed (extents net) net l (r_sizes l) p in
        let next : suc l ≡ l + 1 = omega arith in
        let (p2, run, fitting2) =
          pass_layers-IsFitting rounds (l + 1) p1 (omega arith) known
            (subst (λ n. IsFitting n p1) next (passed-IsFitting l p (omega arith) known fitting)) in
        let total : rounds + (l + 1) ≡ suc rounds + l = omega arith in
        (p2, rw found run, subst (λ n. IsFitting n p2) total fitting2)
