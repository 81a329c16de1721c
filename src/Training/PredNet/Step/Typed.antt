-- ===== src/Training/PredNet/Step/Typed.antt =====
-- One step of `PredNet` of wfppdl/training/source/prednet.py, on tensors that are taken to be their sizes.
use mathlib.Core.List.{append-nil}
use native.Mathlib.Nat
use container_hackathon.Prelude.{
  ℕ, zero, suc, ◌+◌, ◌-◌, ◌*◌, ◌/◌, ◌^◌, ◌<◌, ◌≤◌, ◌≡◌, refl, sym, ap, ◌∙◌, subst, arith, Bool,
  true, false, Bool-cases, inl, inr, leb, if◌then◌else◌,
}
use container_hackathon.Prelude.{
  Option, none, some, List, [], ◌∷◌, ◌++◌, map, range, length, length-map, length-range, ok,
}
use container_hackathon.Prelude.Text.{Text, codes, text_eq}
use container_hackathon.Training.PredNet.{PredNet}
use container_hackathon.Training.PredNet.Checks.{IsSized}
use container_hackathon.Training.PredNet.Step.{
  Item, tensor, time, Pass, layer_output, join_errors, all_errors, final_output, first_target,
  extra_items, step,
}
use container_hackathon.Training.PredNet.Step.Passes.{IsLayer, layer_output-total}
use container_hackathon.Training.PredNet.Step.Outputs.{last_items}
use container_hackathon.Training.PredNet.Step.Total.{step-runs, regrouped}
use container_hackathon.Training.PredNet.Step.Sizes.{Extent, flat, unfit, extents}
use container_hackathon.Training.PredNet.Step.Gates.{stack_at, update_units-sizes}
use container_hackathon.Training.PredNet.Step.Fitting.{
  sizes, r_sizes, e_sizes, IsOutput, IsFitting, pass_layers-IsFitting,
}

module _ (net : PredNet) (sized : IsSized net) (row col : ℕ → ℕ) where
  open net use {nb_layers}

  abbrev r_all : List Extent
  r_all = map (r_sizes net sized row col) (range 0 nb_layers)

  abbrev e_all : List Extent
  e_all = map (e_sizes net sized row col) (range 0 nb_layers)

  abbrev first_size : Extent
  first_size = sizes net sized row col 0

  -- The last prediction and the time step, where the layer extrapolates.
  abbrev pub extra_at : Option ℕ → (t : ℕ) → List (Item (extents net))
  extra_at none t = []
  extra_at (some start) t = tensor first_size ∷ time t ∷ []

  -- The states, at the time step `t`.
  abbrev pub states_at : (t : ℕ) → List (Item (extents net))
  states_at t =
      map tensor r_all
      ++ (map tensor r_all ++ (map tensor e_all ++ extra_at net.extrap_start_time t))

  abbrev chosen_size : Option Extent → Extent
  chosen_size none = unfit
  chosen_size (some x) = x

  -- The size of the output.
  abbrev pub output_size : Option (Text × ℕ) → Extent
  output_size none =
      if text_eq net.output_mode (codes "prediction")
      then first_size
      else if text_eq net.output_mode (codes "error")
      then flat nb_layers
      else flat (stack_at net sized 0 * (row 0 * col 0) + nb_layers)
  output_size (some (layer_type, n)) = chosen_size (
      layer_output (extents net) net layer_type (sizes net sized row col n)
        (sizes net sized row col n) (r_sizes net sized row col n) (e_sizes net sized row col n))

  join_errors-size :
      (n first k : ℕ)
      → join_errors (extents net) net (flat n) (map (e_sizes net sized row col) (range first k))
        ≡ flat (n + k)
  join_errors-size n first zero = ap flat (omega arith)
  join_errors-size n first (suc k) = join_errors-size (n + 1) (first + 1) k ∙ ap flat (omega arith)

  all_errors-size : 0 < nb_layers → all_errors (extents net) net e_all ≡ some (flat nb_layers)
  all_errors-size positive =
      let more : nb_layers ≡ suc (nb_layers - 1) = omega arith in
      ap (λ k. all_errors (extents net) net (map (e_sizes net sized row col) (range 0 k))) more
      ∙ ap some (join_errors-size 1 1 (nb_layers - 1))
      ∙ ap (λ k. some (flat k)) (omega arith)

  final_output-size :
      (layer : Option (Text × ℕ)) (p : Pass (extents net) net)
      → 0 < nb_layers
      → IsLayer nb_layers layer
      → p.e ≡ e_all
      → p.frame_prediction ≡ some first_size
      → IsOutput net sized row col layer nb_layers p.output
      → final_output (extents net) net layer p ≡ ok (output_size layer)
  unfolding IsOutput
  final_output-size none p positive known errors frame output =
      let all_error : all_errors (extents net) net p.e ≡ some (flat nb_layers) =
        ap (all_errors (extents net) net) errors ∙ all_errors-size positive in
      elim (Bool-cases (text_eq net.output_mode (codes "prediction"))) [
        | inl k ↦ rw (k, frame) refl
        | inr k ↦ elim (Bool-cases (text_eq net.output_mode (codes "error"))) [
          | inl k2 ↦ rw (k, all_error, k2) refl
          | inr k2 ↦ rw (k, all_error, k2, frame) refl
        ]
      ]
  final_output-size (some (layer_type, n)) p positive known errors frame output =
      let (x, made) =
        layer_output-total (extents net) net layer_type (sizes net sized row col n)
          (sizes net sized row col n) (r_sizes net sized row col n) (e_sizes net sized row col n)
          known.1 in
      rw (output known.0, made) refl

  first_target-size :
      (start : Option ℕ) (t : ℕ) (front : List (Item (extents net)))
      → (ts : List (Item (extents net))) × (first_target
            (extents net)
            net
            start
            first_size
            (front ++ extra_at start t)
          ≡ ok (first_size, ts))
        × (extra_items (extents net) net ts (some first_size) ≡ ok (extra_at start (t + 1)))
  first_target-size none t front = ([], refl, refl)
  first_target-size (some start) t front =
      let (last, before) = last_items front (tensor first_size) (time t) in
      (
        time (t + 1) ∷ [],
        rw (last, before) (ap (λ x. ok (x, time (t + 1) ∷ [])) (if_same (leb start t))),
        refl,
      )
    where
      if_same : (b : Bool) → (if b then first_size else first_size) ≡ first_size
      if_same true = refl
      if_same false = refl

  IsFitting-at_start :
      IsFitting net sized row col 0
        (record { a = first_size; e = []; frame_prediction = none; output = none })
  unfolding IsOutput
  IsFitting-at_start = record {
    target = λ h. refl;
    errors = refl;
    frame = λ h. absurd (omega arith);
    output = nothing net.output_layer;
  }
    where
      nothing : (layer : Option (Text × ℕ)) → IsOutput net sized row col layer 0 none
      nothing none = tt
      nothing (some (layer_type, n)) = λ h. absurd (omega arith)

  length-all : (f : ℕ → Extent) → length (map f (range 0 nb_layers)) ≡ nb_layers
  length-all f = length-map (range 0 nb_layers) f ∙ length-range 0 nb_layers

  -- Where each level has half the rows and columns of the level below, exactly, a step keeps the sizes.
  pub step-halved :
      ((l : ℕ) → l + 1 < nb_layers → (2 * row (l + 1) ≡ row l) × (2 * col (l + 1) ≡ col l))
      → 0 < nb_layers
      → IsLayer nb_layers net.output_layer
      → (t : ℕ)
      → step (extents net) net first_size (states_at t)
        ≡ ok (output_size net.output_layer, states_at (t + 1))
  step-halved halve positive known t =
      let extra = extra_at net.extrap_start_time t in
      let lr = length-all (r_sizes net sized row col) in
      let le = length-all (e_sizes net sized row col) in
      let (ts, targeted, extended) =
        first_target-size net.extrap_start_time t
          (map tensor r_all ++ (map tensor r_all ++ map tensor e_all)) in
      let units =
        update_units-sizes net sized row col halve nb_layers none [] [] (omega arith)
          (λ h less. absurd (omega arith)) in
      let units_all = units ∙ ap (λ xs. ok (xs, xs)) (append-nil r_all) in
      let (p, passed, fitting) =
        pass_layers-IsFitting net sized row col halve nb_layers 0 _ (omega arith) known
          IsFitting-at_start in
      let same : nb_layers + 0 ≡ nb_layers = omega arith in
      let fit = subst (λ n. IsFitting net sized row col n p) same fitting in
      let final =
        final_output-size net.output_layer p positive known fit.errors (fit.frame positive)
          fit.output in
      step-runs (extents net) net r_all r_all e_all extra lr lr le first_size first_size ts r_all
        r_all p (output_size net.output_layer) (extra_at net.extrap_start_time (t + 1))
        (ap (first_target (extents net) net net.extrap_start_time first_size)
            (sym (regrouped (extents net) net r_all r_all e_all extra lr lr le))
          ∙ targeted)
        units_all passed final
        (ap (extra_items (extents net) net ts) (fit.frame positive) ∙ extended)
      ∙ ap
          (λ es. ok (
            output_size net.output_layer,
            map tensor r_all
                ++ (map tensor r_all ++ (map tensor es ++ extra_at net.extrap_start_time (t + 1))),
          ))
          fit.errors

split-power : (a j l : ℕ) → a * 2 ^ (j + l) ≡ a * 2 ^ j * 2 ^ l
split-power a j zero =
    let same : j + 0 ≡ j = omega arith in
    ap (λ n. a * 2 ^ n) same ∙ omega (arith, native.Mathlib.Nat.pow-zero 2)
split-power a j (suc l) =
    let next : j + suc l ≡ suc (j + l) = omega arith in
    ap (λ n. a * 2 ^ n) next
    ∙ ap (λ n. a * n) (native.Mathlib.Nat.pow-suc 2 (j + l))
    ∙ sym (native.Mathlib.Nat.mul_assoc a (2 ^ (j + l)) 2)
    ∙ ap (λ n. n * 2) (split-power a j l)
    ∙ native.Mathlib.Nat.mul_assoc (a * 2 ^ j) (2 ^ l) 2
    ∙ ap (λ n. a * 2 ^ j * n) (sym (native.Mathlib.Nat.pow-suc 2 l))

power-quotient : (a j l : ℕ) → a * 2 ^ (j + l) / 2 ^ l ≡ a * 2 ^ j
power-quotient a j l =
    let positive : 0 < 2 ^ l = omega (arith, native.Mathlib.Nat.one-le-pow l 2 (omega arith)) in
    ap (λ n. n / 2 ^ l) (split-power a j l) ∙ native.Mathlib.Nat.mul-div_cancel (a * 2 ^ j) positive

-- A multiple of a power of two halves exactly, as often as the power says.
halved-multiple : (a k l : ℕ) → l + 1 ≤ k → 2 * (a * 2 ^ k / 2 ^ (l + 1)) ≡ a * 2 ^ k / 2 ^ l
halved-multiple a k l h =
    let j = k - (l + 1) in
    let upper : k ≡ j + (l + 1) = omega arith in
    let lower : k ≡ suc j + l = omega arith in
    let above : a * 2 ^ k / 2 ^ (l + 1) ≡ a * 2 ^ j =
      ap (λ n. a * 2 ^ n / 2 ^ (l + 1)) upper ∙ power-quotient a j (l + 1) in
    let below : a * 2 ^ k / 2 ^ l ≡ a * 2 ^ j * 2 =
      ap (λ n. a * 2 ^ n / 2 ^ l) lower
      ∙ power-quotient a (suc j) l
      ∙ ap (λ n. a * n) (native.Mathlib.Nat.pow-suc 2 j)
      ∙ sym (native.Mathlib.Nat.mul_assoc a (2 ^ j) 2) in
    omega (arith, above, below)

-- The rows or columns of a level, where the lowest has `a` times the power of two.
abbrev pub level_size : (net : PredNet) (a l : ℕ) → ℕ
level_size net a l = a * 2 ^ (net.nb_layers - 1) / 2 ^ l

-- For a sized layer whose output layer, if it has one, is one of its levels and of a known type, and images whose
-- rows and columns are multiples of two to the number of levels less one: the sizes of the tensors fit in every
-- operation of a step. From states of the initial sizes, a step makes states of the same sizes and an output of the
-- size that its mode has.
pub step-sizes :
    (net : PredNet) (sized : IsSized net) (a b t : ℕ)
    → IsLayer net.nb_layers net.output_layer
    → let row : ℕ → ℕ = level_size net a in
      let col : ℕ → ℕ = level_size net b in
      step (extents net) net (sizes net sized row col 0) (states_at net sized row col t)
      ≡ ok (output_size net sized row col net.output_layer, states_at net sized row col (t + 1))
unfolding IsSized
step-sizes net sized a b t known =
    step-halved net sized (level_size net a) (level_size net b)
      (λ l less. (
        halved-multiple a (net.nb_layers - 1) l (omega arith),
        halved-multiple b (net.nb_layers - 1) l (omega arith),
      ))
      (omega arith) known t
