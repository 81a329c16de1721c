-- ===== src/Training/PredNet/Step/Passes.antt =====
-- The second loop of `PredNet.step` of wfppdl/training/source/prednet.py raises nothing.
use container_hackathon.Prelude.{
  ℕ, zero, suc, ◌+◌, ◌<◌, ◌≤◌, ◌≡◌, refl, ◌∙◌, subst, arith, Bool, true, Bool-cases, inl, inr, ◌==◌,
  if◌then◌else◌, ◌||◌,
}
use container_hackathon.Prelude.{
  Option, none, some, List, length, length-append, get_elem?-of_lt, ok,
}
use container_hackathon.Prelude.Text.{Text, codes, text_eq}
use container_hackathon.Training.PredNet.{PredNet}
use container_hackathon.Training.PredNet.Step.{
  Tensors, Pass, layer_output, chosen, passed, pass_layer, pass_layers,
}
use container_hackathon.Training.PredNet.Step.Units.{Given}

-- `R`, `E`, `A` or `Ahat`
abbrev pub is_layer_type : Text → Bool
is_layer_type layer_type =
    text_eq layer_type (codes "A")
    || text_eq layer_type (codes "Ahat")
    || text_eq layer_type (codes "R")
    || text_eq layer_type (codes "E")

-- The output layer, where there is one, is a layer of a known type.
abbrev pub IsLayer : (nb_layers : ℕ) → Option (Text × ℕ) → Type 0
IsLayer nb_layers none = Unit
IsLayer nb_layers (some (layer_type, n)) = (n < nb_layers) × (is_layer_type layer_type ≡ true)

module _ (tensors : Tensors) (net : PredNet) where
  open tensors use {Tensor}

  -- The output is there once its layer has been passed.
  unfoldable pub IsPast : Option (Text × ℕ) → ℕ → Option Tensor → Type 0
  IsPast none l output = Unit
  IsPast (some (layer_type, n)) l output = n < l → Given tensors output

  unfoldable pub IsReady : ℕ → Pass tensors net → Type 0
  IsReady l p =
      (length p.e ≡ l)
      × (0 < l → Given tensors p.frame_prediction)
      × IsPast net.output_layer l p.output

  pub layer_output-total :
      (layer_type : Text) (a ahat r e : Tensor)
      → is_layer_type layer_type ≡ true
      → Given tensors (layer_output tensors net layer_type a ahat r e)
  layer_output-total layer_type a ahat r e h = elim (Bool-cases (text_eq layer_type (codes "A"))) [
    | inl k ↦ (a, rw k refl)
    | inr k ↦ elim (Bool-cases (text_eq layer_type (codes "Ahat"))) [
      | inl k2 ↦ (ahat, rw (k, k2) refl)
      | inr k2 ↦ elim (Bool-cases (text_eq layer_type (codes "R"))) [
        | inl k3 ↦ (r, rw (k, k2, k3) refl)
        | inr k3 ↦ elim (Bool-cases (text_eq layer_type (codes "E"))) [
          | inl k4 ↦ (e, rw (k, k2, k3, k4) refl)
          | inr k4 ↦ absurd (ground (arith, h, k, k2, k3, k4))
        ]
      ]
    ]
  ]

  chosen-IsPast :
      (layer : Option (Text × ℕ)) (nb_layers l : ℕ) (a ahat r e : Tensor) (output : Option Tensor)
      → IsLayer nb_layers layer
      → IsPast layer l output
      → IsPast layer (suc l) (chosen tensors net layer l a ahat r e output)
  unfolding IsPast
  chosen-IsPast none nb_layers l a ahat r e output known past = tt
  chosen-IsPast (some (layer_type, n)) nb_layers l a ahat r e output known past = λ less.
      elim (Bool-cases (n == l)) [
        | inl here ↦
            let (x, k) = layer_output-total layer_type a ahat r e known.1 in (x, rw (here, k) refl)
        | inr other ↦ rw other (past (ground (arith, other, less)))
      ]

  frame-Given :
      (l : ℕ) (ahat : Tensor) (frame : Option Tensor)
      → (0 < l → Given tensors frame)
      → Given tensors (if l == 0 then some ahat else frame)
  frame-Given zero ahat frame h = (ahat, refl)
  frame-Given (suc l) ahat frame h = let (x, k) = h (omega arith) in (x, ground (arith, k))

  pass_layer-total :
      (r : List Tensor) (l : ℕ) (p : Pass tensors net)
      → l < length r
      → IsLayer (length r) net.output_layer
      → IsReady l p
      → (p' : Pass tensors net) × (pass_layer tensors net r l p ≡ ok p') × IsReady (suc l) p'
  unfolding pass_layer IsReady
  pass_layer-total r l p inside known (counted, framed, past) =
      let (r_l, e) = get_elem?-of_lt r l inside in
      (
        passed tensors net l r_l p,
        rw e refl,
        (
          length-append p.e _ ∙ omega (arith, counted),
          λ positive. frame-Given l _ _ framed,
          chosen-IsPast net.output_layer (length r) l _ _ _ _ _ known past,
        ),
      )

  -- From layer `l` on, the loop passes all layers that are left.
  pub pass_layers-total :
      (r : List Tensor) (rounds l : ℕ) (p : Pass tensors net)
      → rounds + l ≤ length r
      → IsLayer (length r) net.output_layer
      → IsReady l p
      → (p' : Pass tensors net) × (pass_layers tensors net r rounds l p ≡ ok p')
        × IsReady (rounds + l) p'
  unfolding pass_layers
  pass_layers-total r zero l p inside known ready =
      let same : l ≡ zero + l = omega arith in (p, refl, subst (λ n. IsReady n p) same ready)
  pass_layers-total r (suc rounds) l p inside known ready =
      let (p1, e, ready1) = pass_layer-total r l p (omega arith) known ready in
      let next : suc l ≡ l + 1 = omega arith in
      let (p2, run, ready2) =
        pass_layers-total r rounds (l + 1) p1 (omega arith) known
          (subst (λ n. IsReady n p1) next ready1) in
      let total : rounds + (l + 1) ≡ suc rounds + l = omega arith in
      (p2, rw e run, subst (λ n. IsReady n p2) total ready2)
