-- ===== src/Training/Generator/Batches.antt =====
-- What `create_all` and `next` of `SequenceGenerator` put together.
use container_hackathon.Prelude.{ℕ, zero, suc, ◌+◌, ◌≤◌, ◌≡◌, refl, ◌∙◌, ap, subst, arith}
use container_hackathon.Prelude.{
  List, [], ◌∷◌, ◌++◌, length, take, drop, replicate, All, All-map, map, set_item-append,
  for_each-map, length-map, length-append, length-take, length-drop,
}
use container_hackathon.Prelude.{Result, ok}
use container_hackathon.Training.Numbers.{Numbers, Pixel, Image}
use container_hackathon.Training.Generator.{
  Generator, preprocess_pixel, preprocess, normalize, fit, sequence_at, fill_rows,
}
use mathlib.Core.List.{append_assoc}

pub All-drop {ℓ κ} :
    {A : Type ℓ} (P : A → Type κ) (n : ℕ) (xs : List A) → All P xs → All P (drop n xs)
All-drop P zero xs h = h
All-drop P (suc n) [] h = tt
All-drop P (suc n) (x ∷ xs) h = All-drop P n xs h.1

pub All-take {ℓ κ} :
    {A : Type ℓ} (P : A → Type κ) (n : ℕ) (xs : List A) → All P xs → All P (take n xs)
All-take P zero xs h = tt
All-take P (suc n) [] h = tt
All-take P (suc n) (x ∷ xs) h = (h.0, All-take P n xs h.1)

module _ (numbers : Numbers) where
  open numbers use {Number, float32}

  -- A place with at least three channels.
  abbrev pub HasChannels : Pixel Number → Type 0
  HasChannels pixel = 3 ≤ length pixel

  abbrev pub IsColoured : Image Number → Type 0
  IsColoured image = All (All HasChannels) image

  -- The first two channels are normalized, the third is kept, all others are zero.
  abbrev pub processed_pixel : Pixel Number → Pixel Number
  processed_pixel (a ∷ b ∷ c ∷ others) =
      float32 (normalize numbers a)
      ∷ float32 (normalize numbers b)
      ∷ float32 c
      ∷ replicate (length others) (float32 numbers.zero)
  processed_pixel pixel = pixel

  abbrev pub processed : List (Image Number) → List (Image Number)
  processed images = map (map (map processed_pixel)) images

  preprocess_pixel_lem :
      (pixel : Pixel Number)
      → HasChannels pixel
      → preprocess_pixel numbers pixel ≡ ok (processed_pixel pixel)
  unfolding preprocess_pixel
  preprocess_pixel_lem [] h = absurd (omega arith)
  preprocess_pixel_lem (a ∷ []) h = absurd (omega arith)
  preprocess_pixel_lem (a ∷ b ∷ []) h = absurd (omega arith)
  preprocess_pixel_lem (a ∷ b ∷ c ∷ others) h = refl

  -- Where every place of the images has three channels, `preprocess` raises nothing: the first two
  -- channels of each place are normalized, the third is kept and all others become zero.
  pub preprocess_lem :
      (images : List (Image Number))
      → All IsColoured images
      → preprocess numbers images ≡ ok (processed images)
  unfolding preprocess
  preprocess_lem images h = for_each-map _ (map (map processed_pixel)) images (
      All-map images
        (λ image coloured. for_each-map _ (map processed_pixel) image (
          All-map image
            (λ row full. for_each-map _ processed_pixel row (All-map row preprocess_pixel_lem full))
            coloured))
        h)

  fit_lem : (images : List (Image Number)) → fit numbers (length images) images ≡ ok images
  unfolding fit
  fit_lem [] = refl
  fit_lem (image ∷ []) = refl
  fit_lem (image ∷ other ∷ images) = ground arith

  -- The images `s` to `s + nt - 1` of a generator.
  abbrev pub window : Generator numbers → ℕ → List (Image Number)
  window g s = take g.nt (drop s g.images)

  pub sequence_at_lem :
      (g : Generator numbers) (s : ℕ)
      → All IsColoured g.images
      → s + g.nt ≤ length g.images
      → sequence_at numbers g s ≡ ok (processed (window g s))
  unfolding sequence_at
  sequence_at_lem g s coloured room =
      let ready =
        preprocess_lem (window g s) (All-take _ g.nt _ (All-drop _ s g.images coloured)) in
      let full : length (processed (window g s)) ≡ g.nt =
        length-map (window g s) _
        ∙ length-take g.nt (drop s g.images)
        ∙ omega (arith, length-drop s g.images) in
      rw ready (
        subst (λ n. fit numbers n (processed (window g s)) ≡ ok (processed (window g s))) full
          (fit_lem (processed (window g s))))

  fill_rows_lem :
      (f : ℕ → Result (List (Image Number))) (row : ℕ → List (Image Number))
      (filled todo : List (List (Image Number))) (indices : List ℕ)
      → All (λ j. f j ≡ ok (row j)) indices
      → length indices ≤ length todo
      → fill_rows numbers f (filled ++ todo) (length filled) indices
        ≡ ok (filled ++ (map row indices ++ drop (length indices) todo))
  unfolding fill_rows
  fill_rows_lem f row filled todo [] h room = refl
  fill_rows_lem f row filled [] (j ∷ indices) h room = absurd (omega arith)
  fill_rows_lem f row filled (t ∷ todo) (j ∷ indices) h room =
      let rest = fill_rows_lem f row (filled ++ (row j ∷ [])) todo indices h.1 (omega arith) in
      let result = map row indices ++ drop (length indices) todo in
      let moved : fill_rows numbers f (filled ++ (row j ∷ todo)) (suc (length filled)) indices
          ≡ ok (filled ++ (row j ∷ result)) =
        subst
          (λ n.
            fill_rows numbers f (filled ++ (row j ∷ todo)) n indices
            ≡ ok (filled ++ (row j ∷ result)))
          (length-append filled (row j ∷ []) ∙ omega arith)
          (subst
            (λ rows.
              fill_rows numbers f rows (length (filled ++ (row j ∷ []))) indices
              ≡ ok (filled ++ (row j ∷ result)))
            (append_assoc filled (row j ∷ []) todo)
            (rest ∙ ap ok (append_assoc filled (row j ∷ []) result))) in
      rw (h.0, set_item-append filled t todo (row j)) moved

  -- Rows that are filled from the first on, with as many rows or more.
  pub fill_rows_whole :
      (f : ℕ → Result (List (Image Number))) (row : ℕ → List (Image Number))
      (rows : List (List (Image Number))) (indices : List ℕ)
      → All (λ j. f j ≡ ok (row j)) indices
      → length indices ≤ length rows
      → fill_rows numbers f rows 0 indices ≡ ok (map row indices ++ drop (length indices) rows)
  fill_rows_whole f row rows indices h room = fill_rows_lem f row [] rows indices h room
