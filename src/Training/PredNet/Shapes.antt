-- ===== src/Training/PredNet/Shapes.antt =====
-- The modes and the shapes of `PredNet` of wfppdl/training/source/prednet.py.
use Prim.Native.Nat.{min}
use mathlib.Core.Option
use mathlib.Core.Option.{some-injective}
use native.Mathlib.Nat.{div-add-mod'}
use mathlib.Core.List.{append_assoc}
use container_hackathon.Prelude.{
  ℕ, ◌+◌, ◌-◌, ◌*◌, ◌/◌, ◌%◌, ◌^◌, ◌<◌, ◌≡◌, refl, sym, ◌∙◌, ap, arith, true,
}
use container_hackathon.Prelude.{
  none, some, List, [], ◌∷◌, ◌++◌, length, length-append, take, if◌then◌else◌, ok, Bool-cases,
  Option-cases, inl, inr, ltb, get_elem?,
}
use container_hackathon.Prelude.Int.{pos, negsuc}
use container_hackathon.Prelude.Slices.{slice, last_item-append}
use container_hackathon.Prelude.Text.{Text, codes, text_eq, is_digit}
use container_hackathon.Training.PredNet.{
  PredNet, decimal, str, read_output_layer, is_first, item_at, row_axis, column_axis, Size, whole,
  quotient, layer_shape, StateKind, r_state, c_state, e_state, ahat_state, stack_size, state_shape,
}

take-append {ℓ} : {A : Type ℓ} (xs ys : List A) → take (length xs) (xs ++ ys) ≡ xs
take-append [] ys = refl
take-append (x ∷ xs) ys = ap (λ zs. x ∷ zs) (take-append xs ys)

slice-append {ℓ} :
    {A : Type ℓ} (xs : List A) (x : A) → slice (pos 0) (negsuc 0) (xs ++ (x ∷ [])) ≡ xs
slice-append xs x =
    let none_dropped : min 0 (length (xs ++ (x ∷ []))) ≡ 0 = omega arith in
    let rest : length (xs ++ (x ∷ [])) - 1 - 0 ≡ length xs =
      omega (arith, length-append xs (x ∷ [])) in
    rw (none_dropped, rest) (take-append xs (x ∷ []))

read_output_layer-append :
    (front : Text) (c : ℕ)
    → is_digit c ≡ true
    → read_output_layer (front ++ (c ∷ [])) ≡ ok (front, c - b'0')
unfolding read_output_layer
read_output_layer-append front c digit =
    rw (last_item-append front c, digit, slice-append front c) refl

of_digit :
    (front : Text) (n : ℕ) → n < 10 → read_output_layer (front ++ ((b'0' + n) ∷ [])) ≡ ok (front, n)
of_digit front n less =
    let number : b'0' + n - b'0' ≡ n = omega arith in
    read_output_layer-append front (b'0' + n) (ground (arith, less))
    ∙ ap (λ k. ok (front, k)) number

-- The mode of a layer below the tenth is read back as its type and its number. From the tenth on only
-- the last digit is read as the number, and the other digits stay with the type.
pub read_output_layer_lem :
    (layer : Text) (n : ℕ)
    → read_output_layer (layer ++ str n)
      ≡ ok (if ltb n 10 then (layer, n) else (layer ++ decimal n (n / 10), n % 10))
read_output_layer_lem layer n = elim (Bool-cases (ltb n 10)) [
  | inl e ↦ rw e (of_digit layer n (ground (arith, e)))
  | inr e ↦ rw e (
      ap read_output_layer (sym (append_assoc layer (decimal n (n / 10)) ((b'0' + n % 10) ∷ [])))
      ∙ of_digit (layer ++ decimal n (n / 10)) (n % 10) (omega arith))
]

-- The sizes are those numbers: a float that `/` makes is the exact quotient.
unfoldable pub Agrees : List Size → List ℕ → Type 0
Agrees [] [] = Unit
Agrees (whole a ∷ sizes) (b ∷ dims) = (a ≡ b) × Agrees sizes dims
Agrees (quotient a d ∷ sizes) (b ∷ dims) = (a ≡ b * d) × Agrees sizes dims
Agrees _ _ = ⊥

-- The type of layer that yields what a state keeps.
abbrev pub layer_type : StateKind → Text
layer_type r_state = codes "R"
layer_type c_state = codes "R"
layer_type e_state = codes "E"
layer_type ahat_state = codes "Ahat"

module _ (net : PredNet) (input_shape : List ℕ) (rows columns : ℕ)
    (has_rows : item_at input_shape (row_axis net) ≡ some rows)
    (has_columns : item_at input_shape (column_axis net) ≡ some columns) where
  pub dims : ℕ → ℕ → List ℕ
  dims l channels =
      if is_first net
      then channels ∷ rows / 2 ^ l ∷ columns / 2 ^ l ∷ []
      else rows / 2 ^ l ∷ columns / 2 ^ l ∷ channels ∷ []

  sizes : ℕ → ℕ → List Size
  sizes l channels =
      if is_first net
      then whole channels ∷ quotient rows (2 ^ l) ∷ quotient columns (2 ^ l) ∷ []
      else quotient rows (2 ^ l) ∷ quotient columns (2 ^ l) ∷ whole channels ∷ []

  pub state_shape_lem :
      (u : StateKind) (l channels : ℕ)
      → stack_size net u l ≡ some channels
      → state_shape net input_shape (u, l) ≡ ok (dims l channels)
  unfolding state_shape dims
  state_shape_lem u l channels h = rw (has_rows, has_columns, h) refl

  layer_shape-stack :
      (type : Text) (l n : ℕ)
      → get_elem? (if text_eq type (codes "R") then net.r_stack_sizes else net.stack_sizes) l
        ≡ some n
      → layer_shape net (type, l) input_shape
        ≡ ok (sizes l ((if text_eq type (codes "E") then 2 else 1) * n))
  unfolding layer_shape sizes
  layer_shape-stack type l n h = rw (h, has_rows, has_columns) refl

  once : (l n : ℕ) → ok (sizes l (1 * n)) ≡ ok (sizes l n)
  once l n = let same : 1 * n ≡ n = omega arith in ap (λ k. ok (sizes l k)) same

  layer_shape_lem :
      (u : StateKind) (l channels : ℕ)
      → stack_size net u l ≡ some channels
      → layer_shape net (layer_type u, l) input_shape ≡ ok (sizes l channels)
  layer_shape_lem r_state l channels h =
      layer_shape-stack (codes "R") l channels h ∙ once l channels
  layer_shape_lem c_state l channels h =
      layer_shape-stack (codes "R") l channels h ∙ once l channels
  layer_shape_lem e_state l channels h = elim (Option-cases (get_elem? net.stack_sizes l)) [
    | inl e ↦
        let nothing : none ≡ some channels = sym (ap (Option.map (λ n. 2 * n)) e) ∙ h in absurd cc
    | inr (n, e) ↦
        let twice : some (2 * n) ≡ some channels = sym (ap (Option.map (λ k. 2 * k)) e) ∙ h in
        layer_shape-stack (codes "E") l n e
        ∙ ap (λ k. ok (sizes l k)) (some-injective (2 * n) channels twice)
  ]
  layer_shape_lem ahat_state l channels h =
      layer_shape-stack (codes "Ahat") l channels h ∙ once l channels

  exact : (n d : ℕ) → n % d ≡ 0 → n ≡ n / d * d
  exact n d h = omega (arith, sym (div-add-mod' n d), h)

  Agrees-sizes :
      (l channels : ℕ)
      → rows % 2 ^ l ≡ 0
      → columns % 2 ^ l ≡ 0
      → Agrees (sizes l channels) (dims l channels)
  unfolding Agrees sizes dims
  Agrees-sizes l channels even_rows even_columns = elim (Bool-cases (is_first net)) [
    | inl e ↦ rw e (refl, (exact rows (2 ^ l) even_rows, (exact columns (2 ^ l) even_columns, tt)))
    | inr e ↦ rw e (exact rows (2 ^ l) even_rows, (exact columns (2 ^ l) even_columns, (refl, tt)))
  ]

  -- Where 2 to the number of the layer divides both sides of the frame and the layer has channels: the
  -- shape that `compute_output_shape` gives for the output of a layer of any type is that of the
  -- initial state of that type, with floats that are whole numbers.
  pub layer_shape-state_shape :
      (u : StateKind) (l channels : ℕ)
      → stack_size net u l ≡ some channels
      → rows % 2 ^ l ≡ 0
      → columns % 2 ^ l ≡ 0
      → (out : List Size) × (state : List ℕ) × (layer_shape net (layer_type u, l) input_shape
          ≡ ok out)
        × (state_shape net input_shape (u, l) ≡ ok state)
        × Agrees out state
  layer_shape-state_shape u l channels h even_rows even_columns = (
    sizes l channels,
    dims l channels,
    layer_shape_lem u l channels h,
    state_shape_lem u l channels h,
    Agrees-sizes l channels even_rows even_columns,
  )
