-- ===== src/Training/PredNet/Step.antt =====
-- `PredNet.step` of wfppdl/training/source/prednet.py, over any operations on tensors.
pub mod Units
pub mod Passes
pub mod Outputs
pub mod Total
pub mod Sizes
pub mod Gates
pub mod Fitting
pub mod Typed
use mathlib.Core.Option
use container_hackathon.Prelude.{
  ℕ, zero, suc, ◌+◌, ◌-◌, ◌*◌, Bool, true, false, Option, none, some, ltb, leb, ◌==◌, if◌then◌else◌,
}
use container_hackathon.Prelude.{List, [], ◌∷◌, ◌++◌, length, get_elem?, map, take, drop}
use container_hackathon.Prelude.{
  index_error, type_error, name_error, Result, ok, raise, ◌>>=◌, or_raise,
}
use container_hackathon.Prelude.Int.{ℤ, pos, negsuc}
use container_hackathon.Prelude.Slices.{slice}
use container_hackathon.Prelude.Text.{Text, codes, text_eq}
use container_hackathon.Training.PredNet.{PredNet, item_at}

-- The keys of `self.conv_layers`.
pub data Conv : Type 0 where
  conv_i conv_f conv_c conv_o conv_a conv_ahat : Conv

-- What the layer does with tensors of fitting shapes.
pub record Tensors : Type 1 where
  pub Tensor : Type 0
  -- `K.concatenate` along the channels, and along the last axis
  pub concatenate : List Tensor → Tensor
  pub concatenate_last : Tensor → Tensor → Tensor
  -- `self.conv_layers[c][l].call`
  pub conv : Conv → ℕ → Tensor → Tensor
  pub add : Tensor → Tensor → Tensor
  pub sub : Tensor → Tensor → Tensor
  pub mul : Tensor → Tensor → Tensor
  pub lstm_activation : Tensor → Tensor
  pub error_activation : Tensor → Tensor
  -- `K.minimum(..., self.pixel_max)`
  pub clip : Tensor → Tensor
  pub upsample : Tensor → Tensor
  pub pool : Tensor → Tensor
  pub batch_flatten : Tensor → Tensor
  -- `K.mean(..., axis=-1, keepdims=True)`
  pub mean : Tensor → Tensor

module _ (tensors : Tensors) where
  open tensors use {
    Tensor, concatenate, concatenate_last, conv, add, sub, mul, lstm_activation, error_activation,
    clip, upsample, pool, batch_flatten, mean,
  }

  -- An item of `states`: a tensor, or the time step.
  pub data Item : Type 0 where
    tensor : Tensor → Item
    time : ℕ → Item

  abbrev pub as_tensor : Item → Result Tensor
  as_tensor (tensor x) = ok x
  as_tensor (time t) = raise type_error

  abbrev pub as_time : Item → Result ℕ
  as_time (tensor x) = raise type_error
  as_time (time t) = ok t

  abbrev pub tensor_at : List Item → ℕ → Result Tensor
  tensor_at items l = do item ← or_raise (get_elem? items l) index_error; as_tensor item

  -- `inputs.append(r_up)`, for all layers but the highest
  abbrev pub with_up : Bool → Option Tensor → List Tensor → Result (List Tensor)
  with_up false r_up inputs = ok inputs
  with_up true r_up inputs = do up ← or_raise r_up name_error; ok (inputs ++ (up ∷ []))

  module _ (net : PredNet) where
    open net use {nb_layers}

    -- The first loop, with `rounds` layers left; `r_up` is not set before the highest layer.
    unfoldable pub update_units :
        (r_tm1 c_tm1 e_tm1 : List Item) (rounds : ℕ)
        → Option Tensor
        → (c r : List Tensor) → Result (List Tensor × List Tensor)
    update_units r_tm1 c_tm1 e_tm1 zero r_up c r = ok (c, r)
    update_units r_tm1 c_tm1 e_tm1 (suc l) r_up c r = do
      r_old ← tensor_at r_tm1 l
      e_old ← tensor_at e_tm1 l
      parts ← with_up (ltb l (nb_layers - 1)) r_up (r_old ∷ e_old ∷ [])
      c_old ← tensor_at c_tm1 l
      let inputs = concatenate parts
      let i = conv conv_i l inputs
      let f = conv conv_f l inputs
      let o = conv conv_o l inputs
      let c_new = add (mul f c_old) (mul i (conv conv_c l inputs))
      let r_new = mul o (lstm_activation c_new)
      update_units r_tm1 c_tm1 e_tm1 l (if ltb 0 l then some (upsample r_new) else r_up) (c_new ∷ c)
          (r_new ∷ r)

    -- What the second loop changes: the target, the errors, the first prediction and the output.
    pub record Pass : Type 0 where
      pub a : Tensor
      pub e : List Tensor
      pub frame_prediction : Option Tensor
      pub output : Option Tensor

    -- The output at the layer that `output_mode` names.
    abbrev pub layer_output : Text → (a ahat r e : Tensor) → Option Tensor
    layer_output layer_type a ahat r e =
        if text_eq layer_type (codes "A")
        then some a
        else if text_eq layer_type (codes "Ahat")
        then some ahat
        else if text_eq layer_type (codes "R")
        then some r
        else if text_eq layer_type (codes "E")
        then some e
        else none

    abbrev pub chosen :
        Option (Text × ℕ) → ℕ → (a ahat r e : Tensor) → Option Tensor → Option Tensor
    chosen none l a ahat r e output = output
    chosen (some (layer_type, n)) l a ahat r e output =
        if n == l
        then elim (layer_output layer_type a ahat r e) [ none ↦ output | some x ↦ some x ]
        else output

    -- The body of the second loop, with `r[l]`
    abbrev pub passed : (l : ℕ) (r_l : Tensor) → Pass → Pass
    passed l r_l p =
        let raw = conv conv_ahat l r_l in
        let ahat = if l == 0 then clip raw else raw in
        let e_up = error_activation (sub ahat p.a) in
        let e_down = error_activation (sub p.a ahat) in
        let e_l = concatenate (e_up ∷ e_down ∷ []) in
        record {
          a = if ltb l (nb_layers - 1) then pool (conv conv_a l e_l) else p.a;
          e = p.e ++ (e_l ∷ []);
          frame_prediction = if l == 0 then some ahat else p.frame_prediction;
          output = chosen net.output_layer l p.a ahat r_l e_l p.output;
        }

    unfoldable pub pass_layer : (r : List Tensor) (l : ℕ) → Pass → Result Pass
    pass_layer r l p = do r_l ← or_raise (get_elem? r l) index_error; ok (passed l r_l p)

    -- The second loop, with `rounds` layers left from `l` on.
    unfoldable pub pass_layers : (r : List Tensor) (rounds l : ℕ) → Pass → Result Pass
    pass_layers r zero l p = ok p
    pass_layers r (suc rounds) l p = do p' ← pass_layer r l p; pass_layers r rounds (l + 1) p'

    -- `all_error`, the mean errors of the layers side by side
    abbrev pub join_errors : Tensor → List Tensor → Tensor
    join_errors all_error [] = all_error
    join_errors all_error (e_l ∷ e) =
        join_errors (concatenate_last all_error (mean (batch_flatten e_l))) e

    abbrev pub all_errors : List Tensor → Option Tensor
    all_errors [] = none
    all_errors (e_l ∷ e) = some (join_errors (mean (batch_flatten e_l)) e)

    -- The output where `output_mode` names no layer.
    abbrev pub default_output : Pass → Result Tensor
    default_output p =
        if text_eq net.output_mode (codes "prediction")
        then or_raise p.frame_prediction name_error
        else (do
          all_error ← or_raise (all_errors p.e) name_error
          if text_eq net.output_mode (codes "error") then ok all_error else (do
            frame ← or_raise p.frame_prediction name_error
            ok (concatenate_last (batch_flatten frame) all_error)))

    abbrev pub final_output : Option (Text × ℕ) → Pass → Result Tensor
    final_output none p = default_output p
    final_output (some layer) p = or_raise p.output name_error

    -- The target of the lowest layer, and the time step where the layer extrapolates.
    abbrev pub first_target : Option ℕ → Tensor → List Item → Result (Tensor × List Item)
    first_target none a states = ok (a, [])
    first_target (some start) a states = do
      last ← or_raise (item_at states (negsuc 0)) index_error
      t ← as_time last
      before ← or_raise (item_at states (negsuc 1)) index_error
      prediction ← as_tensor before
      ok (if leb start t then prediction else a, time (t + 1) ∷ [])

    -- The frame prediction goes before the time step.
    abbrev pub extra_items : List Item → Option Tensor → Result (List Item)
    extra_items [] frame = ok []
    extra_items (t ∷ ts) frame = do x ← or_raise frame name_error; ok (tensor x ∷ t ∷ ts)

    unfoldable pub step : Tensor → List Item → Result (Tensor × List Item)
    step a states = do
      let r_tm1 = take nb_layers states
      let c_tm1 = take nb_layers (drop nb_layers states)
      let e_tm1 = take nb_layers (drop (2 * nb_layers) states)
      target ← first_target net.extrap_start_time a states
      units ← update_units r_tm1 c_tm1 e_tm1 nb_layers none [] []
      let start : Pass = record { a = target.0; e = []; frame_prediction = none; output = none }
      p ← pass_layers units.1 nb_layers 0 start
      output ← final_output net.output_layer p
      extra ← extra_items target.1 p.frame_prediction
      ok (output, map tensor units.1 ++ (map tensor units.0 ++ (map tensor p.e ++ extra)))
