-- ===== src/Training/PredNet/Step/Total.antt =====
-- One step of `PredNet` of wfppdl/training/source/prednet.py raises nothing and keeps the places of the
-- states.
use mathlib.Core.List.{append_assoc}
use container_hackathon.Prelude.{
  ℕ, zero, suc, ◌+◌, ◌*◌, ◌<◌, ◌≡◌, refl, sym, ◌∙◌, ap, subst, arith, if◌then◌else◌, leb,
}
use container_hackathon.Prelude.{
  Option, none, some, List, [], ◌∷◌, ◌++◌, length, length-append, length-map, map, take, drop, ok,
}
use container_hackathon.Prelude.Text.{Text}
use container_hackathon.Training.PredNet.{PredNet}
use container_hackathon.Training.PredNet.Step.{
  Tensors, Item, tensor, time, Pass, final_output, first_target, extra_items, update_units,
  pass_layers, step,
}
use container_hackathon.Training.PredNet.Step.Units.{Given, update_units-total}
use container_hackathon.Training.PredNet.Step.Outputs.{last_items, final_output-total}
use container_hackathon.Training.PredNet.Step.Passes.{IsLayer, IsPast, IsReady, pass_layers-total}

take-append_length {ℓ} :
    {A : Type ℓ} (n : ℕ) (xs ys : List A) → length xs ≡ n → take n (xs ++ ys) ≡ xs
take-append_length zero [] ys h = refl
take-append_length (suc n) [] ys h = absurd (omega arith)
take-append_length zero (x ∷ xs) ys h = absurd (omega arith)
take-append_length (suc n) (x ∷ xs) ys h =
    ap (λ zs. x ∷ zs) (take-append_length n xs ys (omega arith))

drop-append_length {ℓ} :
    {A : Type ℓ} (n : ℕ) (xs ys : List A) → length xs ≡ n → drop n (xs ++ ys) ≡ ys
drop-append_length zero [] ys h = refl
drop-append_length (suc n) [] ys h = absurd (omega arith)
drop-append_length zero (x ∷ xs) ys h = absurd (omega arith)
drop-append_length (suc n) (x ∷ xs) ys h = drop-append_length n xs ys (omega arith)

module _ (tensors : Tensors) (net : PredNet) where
  open tensors use {Tensor}
  open net use {nb_layers}

  -- The items after the layers' states: where the layer extrapolates, the last prediction and the step.
  unfoldable pub IsExtra : Option ℕ → List (Item tensors) → Type 0
  IsExtra none extra = extra ≡ []
  IsExtra (some start) extra = (x : Tensor) × (t : ℕ) × (extra ≡ tensor x ∷ time t ∷ [])

  -- `r`, `c` and `e` of each layer, and what comes after them.
  unfoldable pub HasPlaces : List (Item tensors) → Type 0
  HasPlaces states =
      (r : List Tensor) × (c : List Tensor) × (e : List Tensor) × (extra : List (Item tensors))
      × (states ≡ map tensor r ++ (map tensor c ++ (map tensor e ++ extra)))
      × (length r ≡ nb_layers)
      × (length c ≡ nb_layers)
      × (length e ≡ nb_layers)
      × IsExtra net.extrap_start_time extra

  -- The time step that is passed on, where there is one.
  IsTime : Option ℕ → List (Item tensors) → Type 0
  IsTime none ts = ts ≡ []
  IsTime (some start) ts = (t : ℕ) × (ts ≡ time t ∷ [])

  first_target-total :
      (start : Option ℕ) (a : Tensor) (front extra : List (Item tensors))
      → IsExtra start extra
      → (target : Tensor) × (ts : List (Item tensors)) × (first_target tensors net start a
            (front ++ extra)
          ≡ ok (target, ts))
        × IsTime start ts
  unfolding IsExtra IsTime
  first_target-total none a front extra h = (a, [], refl, refl)
  first_target-total (some start) a front extra (x, t, h) =
      let (last, before) = last_items front (tensor x) (time t) in
      (if leb start t then x else a, time (t + 1) ∷ [], rw (h, last, before) refl, (t + 1, refl))

  extra_items-total :
      (start : Option ℕ) (ts : List (Item tensors)) (frame : Option Tensor)
      → IsTime start ts
      → Given tensors frame
      → (extra : List (Item tensors)) × (extra_items tensors net ts frame ≡ ok extra)
        × IsExtra start extra
  unfolding IsExtra IsTime
  extra_items-total none ts frame h (x, framed) = ([], rw h refl, refl)
  extra_items-total (some start) ts frame (t, h) (x, framed) =
      (tensor x ∷ time t ∷ [], rw (h, framed) refl, (x, t, refl))

  IsPast-at_start : (layer : Option (Text × ℕ)) → IsPast tensors net layer 0 none
  unfolding IsPast
  IsPast-at_start none = tt
  IsPast-at_start (some (layer_type, n)) = λ less. absurd (omega arith)

  IsReady-at_start :
      (target : Tensor)
      → IsReady tensors net 0
          (record { a = target; e = []; frame_prediction = none; output = none })
  unfolding IsReady
  IsReady-at_start target = (refl, λ h. absurd (omega arith), IsPast-at_start net.output_layer)

  module _ (r c e : List Tensor) (extra : List (Item tensors)) (hr : length r ≡ nb_layers)
      (hc : length c ≡ nb_layers) (he : length e ≡ nb_layers) where
    abbrev placed : List (Item tensors)
    placed = map tensor r ++ (map tensor c ++ (map tensor e ++ extra))

    first_part : take nb_layers placed ≡ map tensor r
    first_part = take-append_length nb_layers (map tensor r) _ (length-map r tensor ∙ hr)

    second_part : take nb_layers (drop nb_layers placed) ≡ map tensor c
    second_part =
        ap (take nb_layers)
          (drop-append_length nb_layers (map tensor r) _ (length-map r tensor ∙ hr))
        ∙ take-append_length nb_layers (map tensor c) _ (length-map c tensor ∙ hc)

    third_part : take nb_layers (drop (2 * nb_layers) placed) ≡ map tensor e
    third_part =
        ap (λ items. take nb_layers (drop (2 * nb_layers) items))
          (sym (append_assoc (map tensor r) (map tensor c) (map tensor e ++ extra)))
        ∙ ap (take nb_layers) (
            drop-append_length (2 * nb_layers) (map tensor r ++ map tensor c) _ (
              length-append (map tensor r) (map tensor c)
              ∙ omega (arith, length-map r tensor, length-map c tensor, hr, hc)))
        ∙ take-append_length nb_layers (map tensor e) extra (length-map e tensor ∙ he)

    pub regrouped : (map tensor r ++ (map tensor c ++ map tensor e)) ++ extra ≡ placed
    regrouped =
        append_assoc (map tensor r) (map tensor c ++ map tensor e) extra
        ∙ ap (λ items. map tensor r ++ items) (append_assoc (map tensor c) (map tensor e) extra)

    pub step-runs :
        (a target : Tensor) (ts : List (Item tensors)) (c' r' : List Tensor) (p : Pass tensors net)
        (output : Tensor) (extra' : List (Item tensors))
        → first_target tensors net net.extrap_start_time a placed ≡ ok (target, ts)
        → update_units tensors net (map tensor r) (map tensor c) (map tensor e) nb_layers none [] []
          ≡ ok (c', r')
        → pass_layers tensors net r' nb_layers 0
            (record { a = target; e = []; frame_prediction = none; output = none })
          ≡ ok p
        → final_output tensors net net.output_layer p ≡ ok output
        → extra_items tensors net ts p.frame_prediction ≡ ok extra'
        → step tensors net a placed
          ≡ ok (output, map tensor r' ++ (map tensor c' ++ (map tensor p.e ++ extra')))
    unfolding step
    step-runs a target ts c' r' p output extra' targeted units passed final extended =
        rw (targeted, first_part, second_part, third_part, units, passed, final, extended) refl

    step-of_places :
        (a : Tensor)
        → 0 < nb_layers
        → IsLayer nb_layers net.output_layer
        → IsExtra net.extrap_start_time extra
        → (output : Tensor) × (after : List (Item tensors)) × (step tensors net a placed
            ≡ ok (output, after))
          × HasPlaces after
    unfolding HasPlaces IsReady
    step-of_places a some_layer known has_extra =
        let (target, ts, targeted, timed) =
          first_target-total net.extrap_start_time a
            (map tensor r ++ (map tensor c ++ map tensor e)) extra has_extra in
        let (c', r', units, counted_c, counted_r) =
          update_units-total tensors net r c e hr hc he nb_layers none [] [] (omega arith)
            (λ h less. absurd (omega arith)) in
        let layers_c : length c' ≡ nb_layers = omega (arith, counted_c) in
        let layers_r : length r' ≡ nb_layers = omega (arith, counted_r) in
        let begun : Pass tensors net = record {
          a = target;
          e = [];
          frame_prediction = none;
          output = none;
        } in
        let (p, passed, (counted_e, framed, past)) =
          pass_layers-total tensors net r' nb_layers 0 begun (omega arith)
            (subst (λ n. IsLayer n net.output_layer) (sym layers_r) known)
            (IsReady-at_start target) in
        let layers_e : length p.e ≡ nb_layers = omega (arith, counted_e) in
        let frame = framed (omega arith) in
        let (output, final) =
          final_output-total tensors net net.output_layer p some_layer known layers_e frame
            (subst (λ n. IsPast tensors net net.output_layer n p.output) (omega arith) past) in
        let (extra', extended, has_extra') =
          extra_items-total net.extrap_start_time ts p.frame_prediction timed frame in
        (
          output,
          map tensor r' ++ (map tensor c' ++ (map tensor p.e ++ extra')),
          step-runs a target ts c' r' p output extra'
              (ap (first_target tensors net net.extrap_start_time a) (sym regrouped) ∙ targeted)
              units passed final extended,
          (r', c', p.e, extra', refl, layers_r, layers_c, layers_e, has_extra'),
        )

  -- For a net with at least one layer, whose output layer, if it has one, is one of its layers and of a
  -- known type: from states that have `r`, `c` and `e` for each layer and, where the layer extrapolates,
  -- the last prediction and the time step, one step raises nothing, and its states have places alike.
  pub step-HasPlaces :
      (a : Tensor) (states : List (Item tensors))
      → 0 < nb_layers
      → IsLayer nb_layers net.output_layer
      → HasPlaces states
      → (output : Tensor) × (after : List (Item tensors)) × (step tensors net a states
          ≡ ok (output, after))
        × HasPlaces after
  unfolding HasPlaces
  step-HasPlaces a states some_layer known (r, c, e, extra, same, hr, hc, he, has_extra) =
      subst
        (λ items.
          (output : Tensor) × (after : List (Item tensors)) × (step tensors net a items
            ≡ ok (output, after))
          × HasPlaces after)
        (sym same) (step-of_places r c e extra hr hc he a some_layer known has_extra)
