-- ===== src/Training/PredNet/Step/Units.antt =====
-- The first loop of `PredNet.step` of wfppdl/training/source/prednet.py raises nothing.
use container_hackathon.Prelude.{
  ℕ, zero, suc, ◌+◌, ◌-◌, ◌<◌, ◌≤◌, ◌≡◌, refl, arith, Bool, true, false, ltb, ltb-of_lt,
  if◌then◌else◌,
}
use container_hackathon.Prelude.{Option, some, List, [], ◌∷◌, ◌++◌, length, map, ok}
use container_hackathon.Training.PredNet.{PredNet}
use container_hackathon.Training.PredNet.Step.{
  Tensors, conv_i, conv_f, conv_c, conv_o, tensor, tensor_at, with_up, update_units,
}

module _ (tensors : Tensors) where
  open tensors use {Tensor}

  tensor_at-map :
      (xs : List Tensor) (l : ℕ)
      → l < length xs
      → (x : Tensor) × (tensor_at tensors (map tensor xs) l ≡ ok x)
  tensor_at-map [] l h = absurd (omega arith)
  tensor_at-map (x ∷ xs) zero h = (x, refl)
  tensor_at-map (x ∷ xs) (suc l) h = tensor_at-map xs l (omega arith)

  -- Something is there.
  abbrev pub Given : Option Tensor → Type 0
  Given o = (x : Tensor) × (o ≡ some x)

  with_up-total :
      (b : Bool) (up : Option Tensor) (inputs : List Tensor)
      → (b ≡ true → Given up)
      → (parts : List Tensor) × (with_up tensors b up inputs ≡ ok parts)
  with_up-total false up inputs h = (inputs, refl)
  with_up-total true up inputs h = let (x, e) = h refl in (inputs ++ (x ∷ []), rw e refl)

  module _ (net : PredNet) where
    open net use {nb_layers}

    Given-if :
        (b : Bool) (x : Tensor) (o : Option Tensor) → b ≡ true → Given (if b then some x else o)
    Given-if true x o h = (x, refl)
    Given-if false x o h = absurd cc

    pub update_units-total :
        (rs cs es : List Tensor)
        → length rs ≡ nb_layers
        → length cs ≡ nb_layers
        → length es ≡ nb_layers
        → (rounds : ℕ) (up : Option Tensor) (c r : List Tensor) → rounds ≤ nb_layers
        → (0 < rounds → rounds < nb_layers → Given up)
        → (c' : List Tensor) × (r' : List Tensor) × (update_units tensors net
              (map tensor rs)
              (map tensor cs)
              (map tensor es)
              rounds
              up
              c
              r
            ≡ ok (c', r'))
          × (length c' ≡ rounds + length c)
          × (length r' ≡ rounds + length r)
    unfolding update_units
    update_units-total rs cs es hr hc he zero up c r inside given =
        (c, r, refl, omega arith, omega arith)
    update_units-total rs cs es hr hc he (suc l) up c r inside given =
        let (r_old, er) = tensor_at-map rs l (omega arith) in
        let (e_old, ee) = tensor_at-map es l (omega arith) in
        let (c_old, ec) = tensor_at-map cs l (omega arith) in
        let (parts, ep) =
          with_up-total (ltb l (nb_layers - 1)) up (r_old ∷ e_old ∷ [])
            (λ h. given (omega arith) (ground (arith, h))) in
        let inputs = tensors.concatenate parts in
        let c_new =
          tensors.add (tensors.mul (tensors.conv conv_f l inputs) c_old)
            (tensors.mul (tensors.conv conv_i l inputs) (tensors.conv conv_c l inputs)) in
        let r_new = tensors.mul (tensors.conv conv_o l inputs) (tensors.lstm_activation c_new) in
        let (c', r', run, lc, lr) =
          update_units-total rs cs es hr hc he l
            (if ltb 0 l then some (tensors.upsample r_new) else up) (c_new ∷ c) (r_new ∷ r)
            (omega arith) (λ pos less. Given-if (ltb 0 l) _ up (ltb-of_lt 0 l pos)) in
        (c', r', rw (er, ee, ep, ec) run, omega (arith, lc), omega (arith, lr))
