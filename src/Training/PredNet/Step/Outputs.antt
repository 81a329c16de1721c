-- ===== src/Training/PredNet/Step/Outputs.antt =====
-- The output of `PredNet.step` of wfppdl/training/source/prednet.py, and the items at the end of a list.
use mathlib.Core.List.{append_assoc}
use container_hackathon.Prelude.{
  ℕ, ◌+◌, ◌-◌, ◌<◌, ◌≡◌, refl, sym, ◌∙◌, ap, arith, Bool-cases, inl, inr, ltb-of_lt,
}
use container_hackathon.Prelude.{
  Option, none, some, List, [], ◌∷◌, ◌++◌, length, length-append, get_elem?, ok,
}
use container_hackathon.Prelude.Int.{negsuc}
use container_hackathon.Prelude.Text.{Text, codes, text_eq}
use container_hackathon.Training.PredNet.{PredNet, item_at}
use container_hackathon.Training.PredNet.Step.{
  Tensors, Pass, default_output, final_output, all_errors,
}
use container_hackathon.Training.PredNet.Step.Units.{Given}
use container_hackathon.Training.PredNet.Step.Passes.{IsLayer, IsPast}

get_elem?-append {ℓ} :
    {A : Type ℓ} (xs : List A) (x : A) (ys : List A)
    → get_elem? (xs ++ (x ∷ ys)) (length xs) ≡ some x
get_elem?-append [] x ys = refl
get_elem?-append (z ∷ xs) x ys = get_elem?-append xs x ys

pub last_items {ℓ} :
    {A : Type ℓ} (xs : List A) (x y : A)
    → (item_at (xs ++ (x ∷ y ∷ [])) (negsuc 0) ≡ some y)
      × (item_at (xs ++ (x ∷ y ∷ [])) (negsuc 1) ≡ some x)
last_items xs x y =
    let total : length (xs ++ (x ∷ y ∷ [])) ≡ length xs + 2 = length-append xs (x ∷ y ∷ []) in
    let at_last : length (xs ++ (x ∷ y ∷ [])) - 1 ≡ length (xs ++ (x ∷ [])) =
      omega (arith, total, length-append xs (x ∷ [])) in
    let at_before : length (xs ++ (x ∷ y ∷ [])) - 2 ≡ length xs = omega (arith, total) in
    (
      rw (ltb-of_lt 0 (length (xs ++ (x ∷ y ∷ []))) (omega (arith, total)), at_last)
          (ap (λ zs. get_elem? zs (length (xs ++ (x ∷ []))))
              (sym (append_assoc xs (x ∷ []) (y ∷ [])))
            ∙ get_elem?-append (xs ++ (x ∷ [])) y []),
      rw (ltb-of_lt 1 (length (xs ++ (x ∷ y ∷ []))) (omega (arith, total)), at_before)
          (get_elem?-append xs x (y ∷ [])),
    )

module _ (tensors : Tensors) (net : PredNet) where
  open tensors use {Tensor}
  open net use {nb_layers}

  all_errors-total : (e : List Tensor) → 0 < length e → Given tensors (all_errors tensors net e)
  all_errors-total [] h = absurd (omega arith)
  all_errors-total (e_l ∷ e) h = (_, refl)

  default_output-total :
      (p : Pass tensors net)
      → 0 < length p.e
      → Given tensors p.frame_prediction
      → (x : Tensor) × (default_output tensors net p ≡ ok x)
  default_output-total p counted (frame, framed) =
      let (errors, h) = all_errors-total p.e counted in
      elim (Bool-cases (text_eq net.output_mode (codes "prediction"))) [
        | inl k ↦ (frame, rw (k, framed) refl)
        | inr k ↦ elim (Bool-cases (text_eq net.output_mode (codes "error"))) [
          | inl k2 ↦ (errors, rw (k, h, k2) refl)
          | inr k2 ↦ (
            tensors.concatenate_last (tensors.batch_flatten frame) errors,
            rw (k, h, k2, framed) refl,
          )
        ]
      ]

  pub final_output-total :
      (layer : Option (Text × ℕ)) (p : Pass tensors net)
      → 0 < nb_layers
      → IsLayer nb_layers layer
      → length p.e ≡ nb_layers
      → Given tensors p.frame_prediction
      → IsPast tensors net layer nb_layers p.output
      → (x : Tensor) × (final_output tensors net layer p ≡ ok x)
  unfolding IsPast
  final_output-total none p some_layer known counted framed past =
      default_output-total p (omega (arith, counted, some_layer)) framed
  final_output-total (some (layer_type, n)) p some_layer known counted framed past =
      let (x, h) = past known.0 in (x, rw h refl)
