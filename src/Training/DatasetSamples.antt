-- ===== src/Training/DatasetSamples.antt =====
-- The theorems on wfppdl/training/source/process_netCDF.py at concrete data.
use container_hackathon.Prelude.{
  ℕ, ◌-◌, ◌≤◌, ◌≡◌, refl, arith, none, some, List, [], ◌∷◌, ◌++◌, length, map,
}
use container_hackathon.Prelude.{Result, ok}
use container_hackathon.Prelude.Text.{Text, codes}
use container_hackathon.Training.Generator.{Generator, new_generator, create_all}
use container_hackathon.Training.Generator.Batches.{processed}
use mathlib.Core.List.Perm
use container_hackathon.Prelude.{
  replicate, length-replicate, All-replicate, take, drop, if◌then◌else◌,
}
use container_hackathon.Prelude.Text.{text_eq}
use container_hackathon.Training.Dataset.{Splits, Grid, Variables, data_dir, Content, split}
use container_hackathon.Training.Dataset.Bounds.{split_lem}
use container_hackathon.Training.Dataset.Cropping.{IsReadable}
use container_hackathon.Files.{is_dir, World, Entries, entry, end, dir, file, file_names}
use container_hackathon.PyStager.Scanner.{sort, insert_sorted}
use container_hackathon.Training.Dataset.{process_netcdf, process_data, filing_path}
use container_hackathon.Training.Dataset
use container_hackathon.Prelude.{raise, os_error, inr}
use container_hackathon.Prelude.Keyed.{get_key}
use container_hackathon.Training.Dataset.Program.{process_netcdf_lem}
use container_hackathon.Training.Dataset.Saved.{saved, pictures, saved_sequences}
use container_hackathon.Training.Samples.{numbers, last}

-- `round(0.8 * n)` and `round(0.05 * n)` for five recordings.
abbrev part : Text → ℕ → ℕ
part p n = if text_eq p (codes "0.8") then 4 else 0

abbrev recordings : List Text
recordings = codes "a" ∷ codes "b" ∷ codes "c" ∷ codes "d" ∷ codes "e" ∷ []

split_lem_example :
    let s = split part recordings in
    (s.train_recordings ++ (s.val_recordings ++ s.test_recordings) ≡ take 4 recordings)
    × (length s.train_recordings ≡ 4)
    × (length s.val_recordings ≡ 0)
split_lem_example = split_lem part recordings (omega arith)

abbrev one : ℕ
one = 1

abbrev wide_row : List ℕ
wide_row = replicate 710 one

abbrev wide : Grid numbers
wide = replicate 202 wide_row

abbrev open_dataset : Text → Result (Variables numbers)
open_dataset path = ok (λ name. some (wide ∷ []))

readable : (r : Text) → IsReadable numbers open_dataset r wide
unfolding IsReadable
readable r = (
  λ name. some (wide ∷ []),
  refl,
  refl,
  (wide, refl),
  (wide, refl),
  (
    omega (arith, length-replicate 202 wide_row),
    All-replicate (λ row. 710 ≤ length row) 202 wide_row (omega (arith, length-replicate 710 one)),
  ),
)

abbrev splits : Splits
splits = record {
  train_recordings = codes "a" ∷ [];
  val_recordings = [];
  test_recordings = codes "b" ∷ [];
}

abbrev saved_in : Text → List Text → List (Text × Content numbers)
saved_in = saved numbers open_dataset (λ r. wide)

-- A dump raises where its directory is missing.
abbrev dump : World → Text → Content numbers → Result (Unit {0})
dump w path content = if is_dir w filing_path then ok tt else raise os_error

abbrev filing : World
filing = record { root = dir (entry (codes "testTry2") (dir end) end); cwd = [] }

saved_sequences_example :
    (files : List (Text × Content numbers)) × (g : Generator numbers) × (process_data numbers
        open_dataset
        (dump filing)
        splits
      ≡ (files, ok tt))
    × (get_key (codes "./testTry2/X_test.hkl") files
        ≡ some (Dataset.images (pictures numbers open_dataset (λ r. wide) (codes "b" ∷ []))))
    × (get_key (codes "./testTry2/sources_test.hkl") files
        ≡ some (Dataset.names (codes "./testData2" ∷ [])))
    × (new_generator numbers
          (pictures numbers open_dataset (λ r. wide) (codes "b" ∷ []))
          (codes "./testData2" ∷ [])
          1
          1
          (λ xs. xs)
          (codes "error")
          (codes "unique")
          none
          last
        ≡ some (ok g))
    × (create_all numbers g
        ≡ ok (
            map
              (λ s.
                processed numbers
                  (take 1 (drop s (pictures numbers open_dataset (λ r. wide) (codes "b" ∷ [])))))
              g.possible_starts))
saved_sequences_example =
    saved_sequences numbers open_dataset (λ r. wide) (dump filing) splits (λ name content. refl)
      (readable (codes "a"), tt) tt (readable (codes "b"), tt) (codes "test") (codes "b") []
      (inr (inr (refl, refl))) 1 1 (λ xs. xs) (codes "error") (codes "unique") none last
      (λ xs. Perm.refl xs) (omega arith) refl refl refl

-- Five files and a directory, not in order.
abbrev listed : Entries
listed = entry (codes "e") (file []) (
    entry (codes "b") (file []) (
      entry (codes "old") (dir end) (
        entry (codes "a") (file [])
          (entry (codes "d") (file []) (entry (codes "c") (file []) end)))))

abbrev disk : World
disk = record {
  root = dir (entry (codes "testData2") (dir listed) (entry (codes "testTry2") (dir end) end));
  cwd = [];
}

-- The same without the directory for the files.
abbrev bare : World
bare = record { root = dir (entry (codes "testData2") (dir listed) end); cwd = [] }

sort-listed : sort (file_names listed) ≡ recordings
unfolding sort insert_sorted
sort-listed = refl

process_netcdf_lem_example :
    let s = split part (sort (file_names listed)) in
    (process_netcdf numbers part (λ w. open_dataset) dump disk ≡ (
      saved_in (codes "train") s.train_recordings
          ++ (saved_in (codes "test") s.test_recordings
              ++ (saved_in (codes "val") s.val_recordings ++ [])),
      ok tt,
    ))
    × (s.train_recordings ++ (s.val_recordings ++ s.test_recordings)
        ≡ take (length (sort (file_names listed)) - 1) (sort (file_names listed)))
process_netcdf_lem_example =
    process_netcdf_lem numbers part (λ w. open_dataset) dump (λ r. wide) disk listed (ok tt) refl
      (rw sort-listed (omega arith))
      (rw sort-listed (
        readable (codes "a"),
        (
          readable (codes "b"),
          (readable (codes "c"), (readable (codes "d"), (readable (codes "e"), tt))),
        ),
      ))
      (λ name content. refl)

-- Without the directory for the files nothing is saved.
unfiled : process_netcdf numbers part (λ w. open_dataset) dump bare ≡ ([], raise os_error)
unfiled =
    (process_netcdf_lem numbers part (λ w. open_dataset) dump (λ r. wide) bare listed
      (raise os_error) refl (rw sort-listed (omega arith))
      (rw sort-listed (
        readable (codes "a"),
        (
          readable (codes "b"),
          (readable (codes "c"), (readable (codes "d"), (readable (codes "e"), tt))),
        ),
      ))
      (λ name content. refl)).0
