-- ===== src/Training/Dataset/Cropping.antt =====
-- The images that wfppdl/training/source/process_netCDF.py cuts out and saves.
use container_hackathon.Prelude.{ℕ, zero, suc, ◌≤◌, ◌≡◌, refl, ◌∙◌, ap, arith}
use container_hackathon.Prelude.{
  List, [], ◌∷◌, length, take, drop, replicate, map, All, length-take, length-drop, length-map,
  All-of_map,
}
use container_hackathon.Prelude.{Result, ok}
use container_hackathon.Prelude.Int.{pos}
use container_hackathon.Prelude.Slices.{slice, slice_lem}
use container_hackathon.Prelude.Text.{Text, codes}
use container_hackathon.Files.{join_path}
use container_hackathon.Training.Numbers.{Numbers, Pixel, Image}
use container_hackathon.Training.Dataset.{
  data_dir, Grid, Variables, first_grid, crop, stack_rows, stack, empty_image, read_image,
}
use container_hackathon.Training.Generator.Batches.{All-take, All-drop}
use container_hackathon.Prelude.{All-map}

map_congr {ℓ κ} :
    {A : Type ℓ} {B : Type κ} (f g : A → B) (xs : List A)
    → All (λ x. f x ≡ g x) xs
    → map f xs ≡ map g xs
map_congr f g [] h = refl
map_congr f g (x ∷ xs) h = λ i. h.0 i ∷ map_congr f g xs h.1 i

map-map {ℓ} :
    {A B C : Type ℓ} (xs : List A) (f : A → B) (g : B → C)
    → map g (map f xs) ≡ map (λ x. g (f x)) xs
map-map [] f g = refl
map-map (x ∷ xs) f g = ap (λ ys. g (f x) ∷ ys) (map-map xs f g)

module _ (numbers : Numbers) where
  open numbers use {Number}

  -- What becomes of one value of T2, and of a grid.
  abbrev pub colour : Number → Pixel Number
  colour x = x ∷ x ∷ numbers.zero ∷ []

  abbrev pub picture : Grid numbers → Image Number
  picture grid = map (λ row. map colour (take 160 (drop 550 row))) (take 128 (drop 74 grid))

  -- A grid that reaches over the part that is cut out.
  abbrev pub IsWide : Grid numbers → Type 0
  IsWide grid = (202 ≤ length grid) × All (λ row. 710 ≤ length row) grid

  stack_rows_lem :
      (row : List Number) (n : ℕ)
      → length row ≡ n
      → stack_rows numbers row row (replicate n numbers.zero) ≡ ok (map colour row)
  unfolding stack_rows
  stack_rows_lem [] zero h = refl
  stack_rows_lem [] (suc n) h = absurd (omega arith)
  stack_rows_lem (x ∷ row) zero h = absurd (omega arith)
  stack_rows_lem (x ∷ row) (suc n) h = rw (stack_rows_lem row n (omega arith)) refl

  stack_lem :
      (grid : Grid numbers) (n m : ℕ)
      → length grid ≡ n
      → All (λ row. length row ≡ m) grid
      → stack numbers grid grid (replicate n (replicate m numbers.zero))
        ≡ ok (map (map colour) grid)
  unfolding stack
  stack_lem [] zero m h full = refl
  stack_lem [] (suc n) m h full = absurd (omega arith)
  stack_lem (row ∷ grid) zero m h full = absurd (omega arith)
  stack_lem (row ∷ grid) (suc n) m h full =
      rw (stack_rows_lem row m full.0, stack_lem grid n m (omega arith) full.1) refl

  kept :
      (grid : Grid numbers) → IsWide grid → All (λ row. 710 ≤ length row) (take 128 (drop 74 grid))
  kept grid (high, wide) =
      All-take (λ row. 710 ≤ length row) 128 (drop 74 grid)
        (All-drop (λ row. 710 ≤ length row) 74 grid wide)

  crop_lem :
      (grid : Grid numbers)
      → IsWide grid
      → crop numbers grid ≡ map (λ row. take 160 (drop 550 row)) (take 128 (drop 74 grid))
  unfolding crop
  crop_lem grid h =
      ap (map (slice (pos 550) (pos 710))) (slice_lem 74 202 grid (omega arith) h.0)
      ∙ map_congr (slice (pos 550) (pos 710)) (λ row. take 160 (drop 550 row))
          (take 128 (drop 74 grid))
          (All-map (take 128 (drop 74 grid)) (λ row wide. slice_lem 550 710 row (omega arith) wide)
            (kept grid h))

  stack-crop :
      (grid : Grid numbers)
      → IsWide grid
      → stack numbers (crop numbers grid) (crop numbers grid) (empty_image numbers)
        ≡ ok (picture grid)
  stack-crop grid h =
      let rows = take 128 (drop 74 grid) in
      let cut = map (λ row. take 160 (drop 550 row)) rows in
      let high : length cut ≡ 128 =
        length-map rows (λ row. take 160 (drop 550 row))
        ∙ omega (arith, length-take 128 (drop 74 grid), length-drop 74 grid, h.0) in
      ap (λ g. stack numbers g g (empty_image numbers)) (crop_lem grid h)
      ∙ stack_lem cut 128 160 high (
          All-of_map (λ row. length row ≡ 160) (λ row. take 160 (drop 550 row)) rows
            (All-map rows
              (λ row wide. omega (arith, length-take 160 (drop 550 row), length-drop 550 row, wide))
              (kept grid h)))
      ∙ ap ok (map-map rows (λ row. take 160 (drop 550 row)) (map colour))

  module _ (open_dataset : Text → Result (Variables numbers)) where
    -- A recording can be read, and `grid` is its T2 at the first time.
    unfoldable pub IsReadable : Text → Grid numbers → Type 0
    IsReadable recording grid =
        (im : Variables numbers) × (open_dataset (join_path data_dir recording) ≡ ok im)
        × (first_grid numbers im (codes "T2") ≡ ok grid)
        × ((msl : Grid numbers) × (first_grid numbers im (codes "MSL") ≡ ok msl))
        × ((gph500 : Grid numbers) × (first_grid numbers im (codes "gph500") ≡ ok gph500))
        × IsWide grid

    pub read_image_lem :
        (recording : Text) (grid : Grid numbers)
        → IsReadable recording grid
        → read_image numbers open_dataset recording ≡ ok (picture grid)
    unfolding read_image IsReadable
    read_image_lem recording grid (im, opened, t2, (msl, h), (gph, k), wide) =
        rw (opened, t2, h, k) (stack-crop grid wide)
