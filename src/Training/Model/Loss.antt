-- ===== src/Training/Model/Loss.antt =====
-- What the network of the training programs, in wfppdl/training/source, makes small.
use container_hackathon.Prelude.{
  ◌≡◌, refl, ap, ◌∙◌, sym, arith, Bool, none, some, List, [], ◌∷◌, length, map, replicate,
  get_elem?, All, set_item, length-map,
}
use container_hackathon.Prelude.{ok}
use container_hackathon.Prelude.Text.{Text, codes}
use container_hackathon.Training.Numbers.{Numbers}
use container_hackathon.Training.Model.{
  Model, layer_loss_weights, equal_weight, time_loss_weights, new_model, dot, dense, final_error,
}

-- What is assumed of numbers: one and zero multiply and add as they should, zero with magnitudes only, which
-- floating-point numbers that are finite and not negative are.
pub record IsUnital (numbers : Numbers) (IsMagnitude : numbers.Number → Type 0) : Type 0 where
  pub mul_one : (x : numbers.Number) → numbers.mul x (numbers.literal (codes "1.")) ≡ x
  pub mul_nought :
      (x : numbers.Number)
      → IsMagnitude x
      → numbers.mul x (numbers.literal (codes "0.")) ≡ numbers.zero
  pub mul_zero : (x : numbers.Number) → IsMagnitude x → numbers.mul x numbers.zero ≡ numbers.zero
  pub add_zero : (x : numbers.Number) → IsMagnitude x → numbers.add x numbers.zero ≡ x
  pub zero_small : IsMagnitude numbers.zero

module _ (numbers : Numbers) where
  open numbers use {Number, literal, add, mul, div, of_nat}

  -- The error of the lowest layer, the first of a step.
  abbrev pub lowest : List Number → Number
  lowest row = elim (get_elem? row 0) [ none ↦ numbers.zero | some x ↦ x ]

  -- One divided by nine.
  abbrev pub ninth : Number
  ninth = div (literal (codes "1.")) (of_nat 9)

  -- The sum of the ninths of some numbers.
  abbrev pub mean_of_nine : List Number → Number
  mean_of_nine [] = numbers.zero
  mean_of_nine (x ∷ xs) = add (mul x ninth) (mean_of_nine xs)

  module _ (IsMagnitude : Number → Type 0) (unital : IsUnital numbers IsMagnitude) where
    open unital use {mul_one, mul_nought, mul_zero, add_zero, zero_small}

    alone :
        (a x y z t : Number)
        → IsMagnitude a
        → x ≡ a
        → y ≡ numbers.zero
        → z ≡ numbers.zero
        → t ≡ numbers.zero
        → add (add x (add y (add z (add t numbers.zero)))) numbers.zero ≡ a
    alone a x y z t m e f g h =
        let nothing = add_zero numbers.zero zero_small in
        rw (e, f, g, h) (rw (nothing, nothing, nothing, add_zero a m) (add_zero a m))

    dense-lowest :
        (row : List Number)
        → length row ≡ 4
        → All IsMagnitude row
        → dense numbers (layer_loss_weights numbers) row ≡ lowest row
    dense-lowest (a ∷ b ∷ c ∷ d ∷ []) h (m, (n, (o, (p, q)))) =
        alone a (mul a (literal (codes "1."))) (mul b (literal (codes "0.")))
          (mul c (literal (codes "0."))) (mul d (literal (codes "0."))) m (mul_one a)
          (mul_nought b n) (mul_nought c o) (mul_nought d p)
    dense-lowest [] h m = absurd (omega arith)
    dense-lowest (a ∷ []) h m = absurd (omega arith)
    dense-lowest (a ∷ b ∷ []) h m = absurd (omega arith)
    dense-lowest (a ∷ b ∷ c ∷ []) h m = absurd (omega arith)
    dense-lowest (a ∷ b ∷ c ∷ d ∷ e ∷ row) h m = absurd (omega arith)

    map-lowest :
        (rows : List (List Number))
        → All (λ row. length row ≡ 4) rows
        → All (All IsMagnitude) rows
        → map (dense numbers (layer_loss_weights numbers)) rows ≡ map lowest rows
    map-lowest [] h m = refl
    map-lowest (row ∷ rows) h m = rw (dense-lowest row h.0 m.0, map-lowest rows h.1 m.1) refl

    lowest-IsMagnitude : (row : List Number) → All IsMagnitude row → IsMagnitude (lowest row)
    lowest-IsMagnitude [] m = zero_small
    lowest-IsMagnitude (x ∷ row) m = m.0

    dot-replicate :
        (xs : List Number)
        → dot numbers xs (replicate (length xs) (equal_weight numbers 10)) ≡ mean_of_nine xs
    dot-replicate [] = refl
    dot-replicate (x ∷ xs) = rw (dot-replicate xs, mul_one ninth) refl

  new_model-weights :
      (known : Text → Bool) (image_data_format : Text) (model : Model numbers)
      → new_model numbers known image_data_format ≡ ok model
      → (model.by_layer ≡ layer_loss_weights numbers)
        × (model.by_time ≡ numbers.zero ∷ replicate 9 (equal_weight numbers 10))
  unfolding new_model time_loss_weights set_item
  new_model-weights known image_data_format model h = ground arith

-- Where one and zero multiply and add as they should, zero with magnitudes, of which the errors are: the value
-- of the network for a sequence of ten steps with errors of four layers is the sum of the ninths of the
-- errors of the lowest layer from the second step on, with a zero added for the first step and one for
-- the bias. The other layers and the first step have no part in it.
pub final_error_lem :
    (numbers : Numbers) (IsMagnitude : numbers.Number → Type 0)
    → IsUnital numbers IsMagnitude
    → (known : Text → Bool) (image_data_format : Text) (model : Model numbers)
    → new_model numbers known image_data_format ≡ ok model
    → (first : List numbers.Number) (rows : List (List numbers.Number)) → length rows ≡ 9
    → All (λ row. length row ≡ 4) (first ∷ rows)
    → All (All IsMagnitude) (first ∷ rows)
    → final_error numbers model (first ∷ rows)
      ≡ numbers.add
          (numbers.add numbers.zero (mean_of_nine numbers (map (lowest numbers) rows)))
          numbers.zero
unfolding final_error
final_error_lem numbers IsMagnitude unital known image_data_format model made first rows count fours
      small =
    let (by_layer, by_time) = new_model-weights numbers known image_data_format model made in
    let weights : replicate 9 (equal_weight numbers 10)
        ≡ replicate (length (map (lowest numbers) rows)) (equal_weight numbers 10) =
      ap (λ k. replicate k (equal_weight numbers 10))
        (sym (length-map rows (lowest numbers) ∙ count)) in
    ap (λ ws. dense numbers ws (map (dense numbers model.by_layer) (first ∷ rows))) by_time
    ∙ ap
        (λ vs.
          dense numbers (numbers.zero ∷ replicate 9 (equal_weight numbers 10))
            (map (dense numbers vs) (first ∷ rows)))
        by_layer
    ∙ ap (λ xs. dense numbers (numbers.zero ∷ replicate 9 (equal_weight numbers 10)) xs)
        (map-lowest numbers IsMagnitude unital (first ∷ rows) fours small)
    ∙ ap (λ ws. dense numbers (numbers.zero ∷ ws) (map (lowest numbers) (first ∷ rows))) weights
    ∙ ap
        (λ d.
          numbers.add (numbers.add (numbers.mul (lowest numbers first) numbers.zero) d)
            numbers.zero)
        (dot-replicate numbers IsMagnitude unital (map (lowest numbers) rows))
    ∙ ap
        (λ z.
          numbers.add (numbers.add z (mean_of_nine numbers (map (lowest numbers) rows)))
            numbers.zero)
        (unital.mul_zero (lowest numbers first)
          (lowest-IsMagnitude numbers IsMagnitude unital first small.0))
