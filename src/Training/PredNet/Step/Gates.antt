-- ===== src/Training/PredNet/Step/Gates.antt =====
-- The first loop of `PredNet.step` of wfppdl/training/source/prednet.py keeps the sizes of its tensors.
use mathlib.Core.Path.{ap₂}
use container_hackathon.Prelude.{
  ℕ, zero, suc, ◌+◌, ◌-◌, ◌*◌, ◌<◌, ◌≤◌, ◌≡◌, refl, sym, ap, ◌∙◌, subst, arith, Bool, true, false,
  Bool-cases, inl, inr, ltb, ltb-of_lt, if◌then◌else◌,
}
use container_hackathon.Prelude.{
  Option, some, List, [], ◌∷◌, ◌++◌, map, range, get_elem?, get_elem?-of_lt, ok,
}
use container_hackathon.Training.PredNet.{PredNet}
use container_hackathon.Training.PredNet.Checks.{IsSized}
use container_hackathon.Training.PredNet.Build.{
  new_conv, nb_convs, nb_channels, above_channels, filters_at, kernel_sizes,
}
use container_hackathon.Training.PredNet.Build.Kernels.{kernel_sizes-length}
use container_hackathon.Training.PredNet.Step.{
  Conv, conv_i, conv_f, conv_c, conv_o, tensor, tensor_at, with_up, update_units,
}
use container_hackathon.Training.PredNet.Step.Sizes.{
  Extent, area, beside, beside_all, filters_of, doubled, extents, alike_self, beside_fit,
  convolved_fit, entry_at, get_elem?-entry_at,
}

-- The last round of a loop over a range.
pub range-last {ℓ} :
    {A : Type ℓ} (f : ℕ → A) (first k : ℕ) (later : List A)
    → map f (range first (suc k)) ++ later ≡ map f (range first k) ++ (f (first + k) ∷ later)
range-last f first zero later = ap (λ n. f n ∷ later) (omega arith)
range-last f first (suc k) later =
    ap (λ xs. f first ∷ xs) (range-last f (first + 1) k later)
    ∙ ap (λ n. f first ∷ (map f (range (first + 1) k) ++ (f n ∷ later))) (omega arith)

pub range-last_zero {ℓ} :
    {A : Type ℓ} (f : ℕ → A) (k : ℕ) (later : List A)
    → map f (range 0 (suc k)) ++ later ≡ map f (range 0 k) ++ (f k ∷ later)
range-last_zero f k later =
    range-last f 0 k later ∙ ap (λ n. map f (range 0 k) ++ (f n ∷ later)) (omega arith)

pub get_elem?-map-range {ℓ} :
    {A : Type ℓ} (f : ℕ → A) (first k l : ℕ)
    → l < k
    → get_elem? (map f (range first k)) l ≡ some (f (first + l))
get_elem?-map-range f first zero l h = absurd (omega arith)
get_elem?-map-range f first (suc k) zero h = ap (λ n. some (f n)) (omega arith)
get_elem?-map-range f first (suc k) (suc l) h =
    get_elem?-map-range f (first + 1) k l (omega arith) ∙ ap (λ n. some (f n)) (omega arith)

module _ (net : PredNet) (sized : IsSized net) where
  open net use {nb_layers}

  pub filters_of-new_conv :
      (c : Conv) (l n : ℕ)
      → l < nb_convs net c
      → filters_at net c l ≡ some n
      → filters_of (new_conv net c l) ≡ ok n
  unfolding new_conv
  filters_of-new_conv c l n less found =
      let (k, e) =
        get_elem?-of_lt (kernel_sizes net c) l
          (subst (λ m. l < m) (kernel_sizes-length net sized c) less) in
      rw (found, e) refl

  abbrev pub stack_at : ℕ → ℕ
  stack_at = entry_at net.stack_sizes

  abbrev pub r_stack_at : ℕ → ℕ
  r_stack_at = entry_at net.r_stack_sizes

  pub stack_at-found : (l : ℕ) → l < nb_layers → get_elem? net.stack_sizes l ≡ some (stack_at l)
  unfolding IsSized
  stack_at-found l h = get_elem?-entry_at net.stack_sizes l (omega arith)

  pub r_stack_at-found :
      (l : ℕ) → l < nb_layers → get_elem? net.r_stack_sizes l ≡ some (r_stack_at l)
  unfolding IsSized
  r_stack_at-found l h = get_elem?-entry_at net.r_stack_sizes l (omega arith)

  -- The channels from above, where there are some.
  abbrev above_at : Bool → ℕ → ℕ
  above_at b l = if b then r_stack_at (l + 1) else 0

  above_channels-at :
      (l : ℕ) → l < nb_layers → above_channels net l ≡ ok (above_at (ltb l (nb_layers - 1)) l)
  unfolding above_channels
  above_channels-at l h = elim (Bool-cases (ltb l (nb_layers - 1))) [
    | inl e ↦
        let less : l < nb_layers - 1 = ground (arith, e) in
        rw (e, r_stack_at-found (l + 1) (omega arith)) refl
    | inr e ↦ rw e refl
  ]

  module _ (row col : ℕ → ℕ) where
    abbrev pub r_size : ℕ → Extent
    r_size l = area (r_stack_at l) (row l) (col l)

    abbrev pub e_size : ℕ → Extent
    e_size l = area (2 * stack_at l) (row l) (col l)

    -- What the gates of a level take, by whether there is a level above.
    abbrev inputs_size : Bool → ℕ → Extent
    inputs_size b l = area (stack_at l * 2 + r_stack_at l + above_at b l) (row l) (col l)

    inputs-fit :
        (b : Bool) (l : ℕ) (up : Option Extent)
        → (b ≡ true → up ≡ some (area (r_stack_at (l + 1)) (row l) (col l)))
        → (parts : List Extent) × (with_up (extents net) b up (r_size l ∷ e_size l ∷ []) ≡ ok parts)
          × (beside_all parts ≡ inputs_size b l)
    inputs-fit false l up h = (
      r_size l ∷ e_size l ∷ [],
      refl,
      beside_fit (r_stack_at l) (2 * stack_at l) (row l) (col l)
          ∙ ap (λ n. area n (row l) (col l)) (omega arith),
    )
    inputs-fit true l up h = (
      r_size l ∷ e_size l ∷ area (r_stack_at (l + 1)) (row l) (col l) ∷ [],
      rw (h refl) refl,
      ap (beside (r_size l)) (beside_fit (2 * stack_at l) (r_stack_at (l + 1)) (row l) (col l))
          ∙ beside_fit (r_stack_at l) (2 * stack_at l + r_stack_at (l + 1)) (row l) (col l)
          ∙ ap (λ n. area n (row l) (col l)) (omega arith),
    )

    -- A gate, whose convolution has been built for these channels.
    gate-size :
        (c : Conv) (l : ℕ)
        → l < nb_convs net c
        → filters_at net c l ≡ some (r_stack_at l)
        → nb_channels net c l
          ≡ ok (stack_at l * 2 + r_stack_at l + above_at (ltb l (nb_layers - 1)) l)
        → (extents net).conv c l (inputs_size (ltb l (nb_layers - 1)) l) ≡ r_size l
    gate-size c l less filters channels =
        rw (channels, filters_of-new_conv c l (r_stack_at l) less filters)
          (convolved_fit (stack_at l * 2 + r_stack_at l + above_at (ltb l (nb_layers - 1)) l)
            (r_stack_at l) (row l) (col l))

    -- The four gates of a level.
    pub gates-size :
        (l : ℕ)
        → l < nb_layers
        → let inputs = inputs_size (ltb l (nb_layers - 1)) l in
          ((extents net).conv conv_i l inputs ≡ r_size l)
          × ((extents net).conv conv_f l inputs ≡ r_size l)
          × ((extents net).conv conv_c l inputs ≡ r_size l)
          × ((extents net).conv conv_o l inputs ≡ r_size l)
    unfolding nb_channels
    gates-size l h =
        let r = r_stack_at-found l h in
        (
          gate-size conv_i l h r (rw (stack_at-found l h, r, above_channels-at l h) refl),
          gate-size conv_f l h r (rw (stack_at-found l h, r, above_channels-at l h) refl),
          gate-size conv_c l h r (rw (stack_at-found l h, r, above_channels-at l h) refl),
          gate-size conv_o l h r (rw (stack_at-found l h, r, above_channels-at l h) refl),
        )

    tensor_at-sizes :
        (f : ℕ → Extent) (l : ℕ)
        → l < nb_layers
        → tensor_at (extents net) (map tensor (map f (range 0 nb_layers))) l ≡ ok (f l)
    tensor_at-sizes f l h =
        tensor_at-found (map f (range 0 nb_layers)) l (f l)
          (get_elem?-map-range f 0 nb_layers l h ∙ ap (λ n. some (f n)) (omega arith))
      where
        tensor_at-found :
            (xs : List Extent) (l : ℕ) (x : Extent)
            → get_elem? xs l ≡ some x
            → tensor_at (extents net) (map tensor xs) l ≡ ok x
        tensor_at-found [] l x h = absurd cc
        tensor_at-found (y ∷ xs) zero x h = cc
        tensor_at-found (y ∷ xs) (suc l) x h = tensor_at-found xs l x h

    -- With rows and columns that halve exactly from level to level, each level gives units of the sizes that
    -- the states before had.
    pub update_units-sizes :
        ((l : ℕ) → l + 1 < nb_layers → (2 * row (l + 1) ≡ row l) × (2 * col (l + 1) ≡ col l))
        → (rounds : ℕ) (up : Option Extent) (c r : List Extent) → rounds ≤ nb_layers
        → (0 < rounds → rounds < nb_layers → up ≡ some (doubled (r_size rounds)))
        → update_units
            (extents net)
            net
            (map tensor (map r_size (range 0 nb_layers)))
            (map tensor (map r_size (range 0 nb_layers)))
            (map tensor (map e_size (range 0 nb_layers)))
            rounds
            up
            c
            r
          ≡ ok (map r_size (range 0 rounds) ++ c, map r_size (range 0 rounds) ++ r)
    unfolding update_units
    update_units-sizes halve zero up c r inside given = refl
    update_units-sizes halve (suc l) up c r inside given =
        let (gate_i, gate_f, gate_c, gate_o) = gates-size l (omega arith) in
        let (parts, got, total) =
          inputs-fit (ltb l (nb_layers - 1)) l up (λ h. upper (ground (arith, h))) in
        let same = alike_self (r_stack_at l) (row l) (col l) in
        rw
          (
            tensor_at-sizes r_size l (omega arith),
            tensor_at-sizes e_size l (omega arith),
            got,
            total,
            gate_i,
            gate_f,
            gate_c,
            gate_o,
            same,
            same,
            same,
          )
          (update_units-sizes halve l (if ltb 0 l then some (doubled (r_size l)) else up)
              (r_size l ∷ c) (r_size l ∷ r) (omega arith) (λ pos less. rw (ltb-of_lt 0 l pos) refl)
            ∙ ap₂ (λ xs ys. ok (xs, ys)) (sym (range-last_zero r_size l c))
                (sym (range-last_zero r_size l r)))
      where
        upper : l + 1 < nb_layers → up ≡ some (area (r_stack_at (l + 1)) (row l) (col l))
        upper h =
            let next : suc l ≡ l + 1 = omega arith in
            given (omega arith) (omega arith)
            ∙ ap (λ n. some (doubled (r_size n))) next
            ∙ ap₂ (λ rows columns. some (area (r_stack_at (l + 1)) rows columns)) (halve l h).0
                (halve l h).1
