-- ===== src/Training/Generator.antt =====
-- `SequenceGenerator` of wfppdl/training/source/data_utils.py.
pub mod Starts
pub mod Batches
pub mod Valid
pub mod Next
use container_hackathon.Prelude.{
  ℕ, zero, suc, ◌+◌, ◌-◌, Bool, true, false, Option, none, some, ◌||◌,
}
use container_hackathon.Prelude.{
  List, [], ◌∷◌, ◌++◌, length, get_elem?, take, drop, replicate, map, range, for_each, set_item,
}
use container_hackathon.Prelude.{◌==◌, ltb, if◌then◌else◌}
use container_hackathon.Prelude.{
  index_error, value_error, assertion_error, zero_division_error, Result, ok, raise, ◌>>=◌, ◌>>◌,
  guard, or_raise,
}
use container_hackathon.Prelude.Text.{Text, codes, text_eq}
use container_hackathon.Training.Numbers.{Numbers, Pixel, Image, Shape, shape, blank}

-- `xs[k - 1]`: with `k` zero it is the last one.
abbrev pub item_before {ℓ} : {A : Type ℓ} → List A → ℕ → Option A
item_before xs zero = get_elem? xs (length xs - 1)
item_before xs (suc k) = get_elem? xs k

-- `self.sources[curr_location] == self.sources[curr_location + self.nt - 1]`
unfoldable pub same_source : List Text → (nt curr_location : ℕ) → Result Bool
same_source sources nt curr_location = do
  first ← or_raise (get_elem? sources curr_location) index_error
  last ← or_raise (item_before sources (curr_location + nt)) index_error
  ok (text_eq first last)

-- The `while` loop of the mode `unique`, where it ends within `fuel` rounds.
unfoldable pub unique_loop :
    List Text → (images nt fuel curr_location : ℕ) → List ℕ → Option (Result (List ℕ))
unfolding same_source
unique_loop sources images nt zero curr_location possible_starts = none
unique_loop sources images nt (suc fuel) curr_location possible_starts =
    elim (ltb (curr_location + nt) (images + 1)) [
      | false ↦ some (ok possible_starts)
      | true ↦ elim (same_source sources nt curr_location) [
        | raise e ↦ some (raise e)
        | ok same ↦
            unique_loop sources images nt fuel
              (if same then curr_location + nt else curr_location + 1)
              (if same then possible_starts ++ (curr_location ∷ []) else possible_starts)
      ]
    ]

-- The list of the mode `all`; a range that ends below zero is empty.
unfoldable pub all_starts : (images nt : ℕ) → List ℕ
all_starts images nt = range 0 (images - nt)

-- `self.possible_starts` of either mode. One round for each image, and one to leave the loop.
unfoldable pub mode_starts : Text → List Text → (images nt : ℕ) → Option (Result (List ℕ))
unfolding unique_loop all_starts
mode_starts sequence_start_mode sources images nt =
    if text_eq sequence_start_mode (codes "all")
    then some (ok (all_starts images nt))
    else unique_loop sources images nt (images + 1) 0 []

-- `possible_starts[:N_seq]`, where a number is given and there are more
abbrev pub select : Option ℕ → List ℕ → List ℕ
select none starts = starts
select (some n) starts = if ltb n (length starts) then take n starts else starts

module _ (numbers : Numbers) where
  open numbers use {Number, literal, sub, div, float32}

  -- The attributes of the generator. The base class has the number of sequences as `self.n`.
  pub record Generator : Type 0 where
    pub images : List (Image Number)
    pub sources : List Text
    pub nt : ℕ
    pub batch_size : ℕ
    pub im_shape : Shape
    pub output_mode : Text
    pub possible_starts : List ℕ
    pub n_sequences : ℕ

  abbrev pub value_at : ℕ → Pixel Number → Number
  value_at c pixel = elim (get_elem? pixel c) [ none ↦ numbers.zero | some x ↦ x ]

  -- `np.transpose` of an image, which makes the channels the first axis
  abbrev pub to_channels_first : Image Number → Image Number
  to_channels_first image = map (λ c. map (map (value_at c)) image) (range 0 (shape image).channels)

  abbrev pub arranged : (data_format : Text) → List (Image Number) → List (Image Number)
  arranged data_format images =
      if text_eq data_format (codes "channels_first") then map to_channels_first images else images

  abbrev pub is_one_of : Text → Text → Text → Bool
  is_one_of mode first second = text_eq mode first || text_eq mode second

  -- `__init__`, with the loaded arrays, and `shuffle` as what it does to the starts. Where the loop
  -- does not end there is no result.
  unfoldable pub new_generator :
      List (Image Number)
      → List Text
      → (nt batch_size : ℕ) (shuffle : List ℕ → List ℕ) → (output_mode sequence_start_mode : Text)
      → Option ℕ
      → (data_format : Text) → Option (Result Generator)
  unfolding mode_starts
  new_generator loaded sources nt batch_size shuffle output_mode sequence_start_mode n_seq
        data_format =
      let images = arranged data_format loaded in
      let checked = (do
        guard (is_one_of sequence_start_mode (codes "all") (codes "unique")) assertion_error
        guard (is_one_of output_mode (codes "error") (codes "prediction")) assertion_error
        or_raise (get_elem? images 0) index_error) in
      elim checked [
        | raise e ↦ some (raise e)
        | ok first ↦ elim (mode_starts sequence_start_mode sources (length images) nt) [
          | none ↦ none
          | some (raise e) ↦ some (raise e)
          | some (ok starts) ↦
              let chosen = select n_seq (shuffle starts) in
              some (
                ok (record {
                  images = images;
                  sources = sources;
                  nt = nt;
                  batch_size = batch_size;
                  im_shape = shape first;
                  output_mode = output_mode;
                  possible_starts = chosen;
                  n_sequences = length chosen;
                }))
        ]
      ]

  -- `(x - 235.2141571044922) / (321.46630859375 - 235.2141571044922)`
  abbrev pub normalize : Number → Number
  normalize x =
      div (sub x (literal (codes "235.2141571044922")))
        (sub (literal (codes "321.46630859375")) (literal (codes "235.2141571044922")))

  -- The channels of one place after `preprocess`.
  unfoldable pub preprocess_pixel : Pixel Number → Result (Pixel Number)
  preprocess_pixel (a ∷ b ∷ c ∷ others) = ok (
      float32 (normalize a)
      ∷ float32 (normalize b)
      ∷ float32 c
      ∷ replicate (length others) (float32 numbers.zero))
  preprocess_pixel pixel = raise index_error

  -- `preprocess` of a window of images: it reads the last axis, whatever the format.
  unfoldable pub preprocess : List (Image Number) → Result (List (Image Number))
  unfolding preprocess_pixel
  preprocess images = for_each (for_each (for_each preprocess_pixel)) images

  -- The assignment of a window to a row with place for `nt` images: one image is taken `nt` times.
  unfoldable pub fit : (nt : ℕ) → List (Image Number) → Result (List (Image Number))
  fit nt [] = if nt == 0 then ok [] else raise value_error
  fit nt (image ∷ []) = ok (replicate nt image)
  fit nt (image ∷ other ∷ images) =
      if length (image ∷ other ∷ images) == nt
      then ok (image ∷ other ∷ images)
      else raise value_error

  -- `self.preprocess(self.X[idx:idx+self.nt])`, as it is assigned to a row
  unfoldable pub sequence_at : Generator → ℕ → Result (List (Image Number))
  unfolding preprocess fit
  sequence_at g idx = do window ← preprocess (take g.nt (drop idx g.images)); fit g.nt window

  -- The loop `for i, idx in enumerate(...)`, from `i` on.
  unfoldable pub fill_rows :
      (ℕ → Result (List (Image Number)))
      → List (List (Image Number))
      → ℕ
      → List ℕ
      → Result (List (List (Image Number)))
  fill_rows window rows i [] = ok rows
  fill_rows window rows i (idx ∷ indices) = do
    row ← window idx
    rows' ← or_raise (set_item rows i row) index_error
    fill_rows window rows' (suc i) indices

  -- `np.zeros((k, self.nt) + self.im_shape, np.float32)`
  unfoldable pub blank_rows : Generator → ℕ → List (List (Image Number))
  blank_rows g k = replicate k (replicate g.nt (blank numbers.zero g.im_shape))

  unfoldable pub create_all : Generator → Result (List (List (Image Number)))
  unfolding sequence_at fill_rows blank_rows
  create_all g = fill_rows (sequence_at g) (blank_rows g g.n_sequences) 0 g.possible_starts

  -- `batch_y`
  pub data Target : Type 0 where
    errors : List Number → Target
    pixels : List (List (Image Number)) → Target

  -- `next`, with the indices that the base class yields. The index that it computes first is not
  -- used, but a remainder by zero raises.
  unfoldable pub next_batch :
      Generator → (index_array : List ℕ) → Result (List (List (Image Number)) × Target)
  unfolding sequence_at fill_rows blank_rows
  next_batch g index_array = do
    guard (ltb 0 g.n_sequences) zero_division_error
    batch_x ←
        fill_rows
          (λ j. do idx ← or_raise (get_elem? g.possible_starts j) index_error; sequence_at g idx)
          (blank_rows g g.batch_size) 0 index_array
    ok (
      batch_x,
      if text_eq g.output_mode (codes "error")
          then errors (replicate g.batch_size numbers.zero)
          else pixels batch_x,
    )
