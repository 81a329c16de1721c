-- ===== src/Training/Dataset.antt =====
-- wfppdl/training/source/process_netCDF.py: the recordings of each split, and their images.
pub mod Bounds
pub mod Cropping
pub mod Saved
pub mod Program
use container_hackathon.Prelude.{
  ℕ, ◌+◌, Option, none, some, List, [], ◌∷◌, ◌++◌, length, map, replicate, for_each,
}
use container_hackathon.Prelude.{
  index_error, key_error, value_error, Result, ok, raise, ◌>>=◌, or_raise,
}
use container_hackathon.Prelude.Int.{ℤ, pos, ◌+ℤ◌, ◌-ℤ◌}
use container_hackathon.Prelude.Slices.{slice, last_item}
use container_hackathon.Prelude.Text.{Text, codes}
use mathlib.Core.List.{head?}
use container_hackathon.Files.{World, walk_up, join_path}
use container_hackathon.PyStager.Scanner.{sort}
use container_hackathon.Training.Numbers.{Numbers, Pixel, Image}

abbrev pub data_dir : Text
data_dir = codes "./testData2"

abbrev pub filing_path : Text
filing_path = codes "./testTry2"

-- `sorted(list(os.walk(DATA_DIR, topdown=False))[-1][-1])`
unfoldable pub image_list : World → Result (List Text)
image_list w = do
  last ← or_raise (last_item (walk_up w data_dir)) index_error
  ok (sort last.filenames)

-- The recordings for training, validation and test.
pub record Splits : Type 0 where
  pub train_recordings : List Text
  pub val_recordings : List Text
  pub test_recordings : List Text

-- The bounds and the slices; `part p n` stands for `round(p * n)`.
unfoldable pub split : (part : Text → ℕ → ℕ) → List Text → Splits
split part images =
    let n = length images in
    let train_begin = pos 0 in
    let train_end = pos (part (codes "0.8") n) -ℤ pos 1 in
    let val_begin = train_end +ℤ pos 1 in
    let val_end = train_end +ℤ pos (part (codes "0.05") n) in
    let test_begin = val_end +ℤ pos 1 in
    let test_end = pos n -ℤ pos 1 in
    record {
      train_recordings = slice train_begin val_begin images;
      val_recordings = slice val_begin test_begin images;
      test_recordings = slice test_begin test_end images;
    }

module _ (numbers : Numbers) where
  open numbers use {Number}

  abbrev pub Grid : Type 0
  Grid = List (List Number)

  -- The variables of a file: a name has a grid for each time.
  abbrev pub Variables : Type 0
  Variables = Text → Option (List Grid)

  -- `im.variables[name][0,:,:]`
  abbrev pub first_grid : Variables → Text → Result Grid
  first_grid variables name = do
    times ← or_raise (variables name) key_error
    or_raise (head? times) index_error

  -- `[74:202, 550:710]`
  unfoldable pub crop : Grid → Grid
  crop grid = map (slice (pos 550) (pos 710)) (slice (pos 74) (pos 202) grid)

  -- `np.stack([a, b, c], axis=2)` of three rows and of three grids
  unfoldable pub stack_rows : (a b c : List Number) → Result (List (Pixel Number))
  stack_rows [] [] [] = ok []
  stack_rows (x ∷ a) (y ∷ b) (z ∷ c) = do rest ← stack_rows a b c; ok ((x ∷ y ∷ z ∷ []) ∷ rest)
  stack_rows _ _ _ = raise value_error

  unfoldable pub stack : (a b c : Grid) → Result (Image Number)
  stack [] [] [] = ok []
  stack (x ∷ a) (y ∷ b) (z ∷ c) = do row ← stack_rows x y z; rest ← stack a b c; ok (row ∷ rest)
  stack _ _ _ = raise value_error

  -- `np.zeros(shape = (128, 160))`
  abbrev pub empty_image : Grid
  empty_image = replicate 128 (replicate 160 numbers.zero)

  -- What is saved: an array of images, or a list of sources.
  pub data Content : Type 0 where
    images : List (Image Number) → Content
    names : List Text → Content

  -- The files that are saved, each by its path, and how it ends.
  abbrev pub Saving : Type 0
  Saving = List (Text × Content) × Result (Unit {0})

  abbrev pub and_then : {A : Type 0} → Result A → (A → Saving) → Saving
  and_then (raise e) rest = ([], raise e)
  and_then (ok a) rest = rest a

  abbrev pub followed : Saving → Saving → Saving
  followed (files, raise e) rest = (files, raise e)
  followed (files, ok done) rest = (files ++ rest.0, rest.1)

  module _ (open_dataset : Text → Result Variables) where
    -- One round of the loop over the recordings of a split.
    unfoldable pub read_image : Text → Result (Image Number)
    read_image im_file = do
      im ← open_dataset (join_path data_dir im_file)
      t2 ← first_grid im (codes "T2")
      msl ← first_grid im (codes "MSL")
      gph500 ← first_grid im (codes "gph500")
      stack (crop t2) (crop t2) empty_image

    -- `hkl.dump(content, path)`, which may raise.
    module _ (dump : Text → Content → Result (Unit {0})) where
      -- Dumps one after another, up to the first that raises.
      abbrev pub dump_all : List (Text × Content) → Saving
      dump_all [] = ([], ok tt)
      dump_all ((path, content) ∷ files) =
          let rest = dump_all files in
          and_then (dump path content) (λ done. ((path, content) ∷ rest.0, rest.1))

      -- One round of the loop over the splits.
      unfoldable pub process_split : Text → List Text → Saving
      process_split split_name recordings = and_then (for_each read_image recordings) (λ stacked.
          dump_all (
            (join_path filing_path (codes "X_" ++ (split_name ++ codes ".hkl")), images stacked)
            ∷ (
              join_path filing_path (codes "sources_" ++ (split_name ++ codes ".hkl")),
              names (replicate (length recordings) data_dir),
            )
            ∷ []))

      -- `process_data`: the splits in the order of the dictionary, up to the first exception.
      unfoldable pub process_splits : List (Text × List Text) → Saving
      process_splits [] = ([], ok tt)
      process_splits ((split_name, recordings) ∷ splits) =
          followed (process_split split_name recordings) (process_splits splits)

      unfoldable pub process_data : Splits → Saving
      process_data splits = process_splits (
          (codes "train", splits.train_recordings)
          ∷ (codes "test", splits.test_recordings)
          ∷ (codes "val", splits.val_recordings)
          ∷ [])

  -- The program: what it saves, and how it ends.
  unfoldable pub process_netcdf :
      (part : Text → ℕ → ℕ)
      → (open_dataset : World → Text → Result Variables)
      → (dump : World → Text → Content → Result (Unit {0})) → World
      → Saving
  process_netcdf part open_dataset dump w =
      and_then (image_list w)
        (λ recordings. process_data (open_dataset w) (dump w) (split part recordings))
