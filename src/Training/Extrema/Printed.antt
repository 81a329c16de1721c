-- ===== src/Training/Extrema/Printed.antt =====
-- What wfppdl/training/source/minMaxExtractor.py prints.
use container_hackathon.Prelude.{
  ℕ, ◌+◌, ◌<◌, ◌≡◌, refl, arith, some, none, List, [], ◌∷◌, ◌++◌, map, length, length-append,
  length-map, get_elem?, get_elem?-of_lt, All, All-map, for_each-map,
}
use container_hackathon.Prelude.{index_error, ok, or_raise, ◌>>=◌, subst, sym}
use container_hackathon.Prelude.Text.{Text, codes}
use container_hackathon.Files.{World}
use container_hackathon.Training.Numbers.{Numbers, Pixel, Image}
use container_hackathon.Training.Generator.{value_at}
use container_hackathon.Training.Generator.Batches.{HasChannels, IsColoured}
use container_hackathon.Training.Extrema.{
  x_train_file, Statistics, channel_of_row, channel_of_rows, channel, extrema_of, channel_lines,
  describe, extract,
}

module _ (numbers : Numbers) where
  open numbers use {Number, add, sub, mul, of_nat}

  -- The values of one channel at all places of an image, and of images, in order.
  abbrev pub values_of_image : ℕ → Image Number → List Number
  values_of_image c [] = []
  values_of_image c (row ∷ rows) = map (value_at numbers c) row ++ values_of_image c rows

  abbrev pub values : ℕ → List (Image Number) → List Number
  values c [] = []
  values c (image ∷ images) = values_of_image c image ++ values c images

  -- The number of places of an image, and of images.
  abbrev pub places_of_rows : Image Number → ℕ
  places_of_rows [] = 0
  places_of_rows (row ∷ rows) = length row + places_of_rows rows

  abbrev pub places : List (Image Number) → ℕ
  places [] = 0
  places (image ∷ images) = places_of_rows image + places images

  length-values_of_image :
      (c : ℕ) (image : Image Number) → length (values_of_image c image) ≡ places_of_rows image
  length-values_of_image c [] = refl
  length-values_of_image c (row ∷ rows) = omega (
    arith,
    length-append (map (value_at numbers c) row) (values_of_image c rows),
    length-map row (value_at numbers c),
    length-values_of_image c rows,
  )

  length-values : (c : ℕ) (images : List (Image Number)) → length (values c images) ≡ places images
  length-values c [] = refl
  length-values c (image ∷ images) = omega (
    arith,
    length-append (values_of_image c image) (values c images),
    length-values_of_image c image,
    length-values c images,
  )

  module _ (c : ℕ) (less : c < 3) where
    channel_of_row_lem :
        (row : List (Pixel Number))
        → All (HasChannels numbers) row
        → channel_of_row numbers c row ≡ ok (map (value_at numbers c) row)
    channel_of_row_lem row h = for_each-map _ (value_at numbers c) row (All-map row value h)
      where
        value :
            (pixel : Pixel Number)
            → HasChannels numbers pixel
            → or_raise (get_elem? pixel c) index_error ≡ ok (value_at numbers c pixel)
        value pixel three =
            let (x, e) = get_elem?-of_lt pixel c (omega arith) in
            subst
              (λ o. or_raise o index_error ≡ ok (elim o [ none ↦ numbers.zero | some held ↦ held ]))
              (sym e) refl

    channel_of_rows_lem :
        (image : Image Number)
        → IsColoured numbers image
        → channel_of_rows numbers c image ≡ ok (values_of_image c image)
    channel_of_rows_lem [] h = refl
    channel_of_rows_lem (row ∷ rows) h =
        rw (channel_of_row_lem row h.0, channel_of_rows_lem rows h.1) refl

    channel_lem :
        (images : List (Image Number))
        → All (IsColoured numbers) images
        → channel numbers c images ≡ ok (values c images)
    unfolding channel
    channel_lem [] h = refl
    channel_lem (image ∷ images) h = rw (channel_of_rows_lem image h.0, channel_lem images h.1) refl

  module _ (statistics : Statistics numbers) where
    -- What is printed about some values, with a blank line at the end.
    abbrev pub summary : (name mean_label : Text) → List Number → List Text
    summary name mean_label xs =
        let text = statistics.number_text in
        let mean = statistics.mean xs in
        let deviation = mul (of_nat 3) (statistics.std xs) in
        ((codes "max" ++ name) ++ (codes ": " ++ text (statistics.amax xs)))
        ∷ ((codes "min" ++ name) ++ (codes ": " ++ text (statistics.amin xs)))
        ∷ (mean_label ++ (codes ": " ++ text mean))
        ∷ ((codes "std" ++ name) ++ (codes ": " ++ text (statistics.std xs)))
        ∷ ((codes "highCut" ++ name) ++ (codes ": " ++ text (add mean deviation)))
        ∷ ((codes "lowCut" ++ name) ++ (codes ": " ++ text (sub mean deviation)))
        ∷ []
        ∷ []

    extrema_of_lem :
        (name mean_label : Text) (xs : List Number)
        → 0 < length xs
        → (extrema_of numbers statistics xs >>= λ e.
            ok (channel_lines numbers statistics name mean_label e))
          ≡ ok (summary name mean_label xs)
    extrema_of_lem name mean_label [] h = absurd (omega arith)
    extrema_of_lem name mean_label (x ∷ xs) h = refl

    describe_lem :
        (c : ℕ) (name mean_label : Text) (images : List (Image Number))
        → c < 3
        → All (IsColoured numbers) images
        → 0 < places images
        → describe numbers statistics c name mean_label images
          ≡ ok (summary name mean_label (values c images))
    unfolding describe
    describe_lem c name mean_label images less coloured some_place =
        rw (channel_lem c less images coloured, describe)
          (extrema_of_lem name mean_label (values c images) (omega (arith, length-values c images)))

    -- Where the images that are loaded have a place, and three channels at each, the program ends and prints
    -- the shape, and then a summary of all values of the first channel, of the second and of the third,
    -- with the names T2, GP and GPH, but with the label meanGP for the means of the last two.
    pub extract-lines :
        (w : World) (images : List (Image Number))
        → statistics.load w x_train_file ≡ ok images
        → All (IsColoured numbers) images
        → 0 < places images
        → extract numbers statistics w
          ≡ ok (
              codes "Shape of X:"
              ∷ statistics.shape_text images
              ∷ []
              ∷ (summary (codes "T2") (codes "meanT2") (values 0 images)
                  ++ (summary (codes "GP") (codes "meanGP") (values 1 images)
                      ++ summary (codes "GPH") (codes "meanGP") (values 2 images))))
    unfolding extract
    extract-lines w images loaded coloured some_place =
        rw
          (
            loaded,
            describe_lem 0 (codes "T2") (codes "meanT2") images (omega arith) coloured some_place,
            describe_lem 1 (codes "GP") (codes "meanGP") images (omega arith) coloured some_place,
            describe_lem 2 (codes "GPH") (codes "meanGP") images (omega arith) coloured some_place,
          )
          refl
