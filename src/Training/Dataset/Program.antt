-- ===== src/Training/Dataset/Program.antt =====
-- A run of wfppdl/training/source/process_netCDF.py.
use container_hackathon.Prelude.{
  ℕ, ◌+◌, ◌-◌, ◌<◌, ◌≡◌, sym, subst, some, List, [], ◌++◌, length, take, All-of_append, Result, ok,
  raise, ◌>>=◌, or_raise, index_error, none, ap, ◌∙◌,
}
use container_hackathon.Prelude.Text.{Text, codes}
use container_hackathon.Prelude.Slices.{last_item, last_item-append}
use container_hackathon.Files.{
  World, Entries, Visit, dir, node_at, file_names, dir_names, walk_up_node, walk_up_entries,
}
use container_hackathon.PyStager.Scanner.{sort}
use container_hackathon.Training.Numbers.{Numbers}
use container_hackathon.Training.Generator.Batches.{All-take}
use container_hackathon.Training.Dataset.{
  data_dir, image_list, split, Variables, Grid, Content, process_netcdf,
}
use container_hackathon.Training.Dataset.Bounds.{split_lem}
use container_hackathon.Training.Dataset.Saved.{AreReadable, DumpsAs, saved, process_data_lem}

-- The recordings are the files that the data directory has itself, in order of their names.
image_list-dir :
    (w : World) (es : Entries)
    → node_at w data_dir ≡ some (dir es)
    → image_list w ≡ ok (sort (file_names es))
unfolding image_list walk_up_node
image_list-dir w es h =
    ap (λ o. read (elim o as (λ x. List Visit) [ none ↦ [] | some node ↦ walk_up_node node ])) h
    ∙ ap (λ o. do last ← or_raise o index_error; ok (sort last.filenames))
        (last_item-append (walk_up_entries es)
          (record { dirnames = dir_names es; filenames = file_names es }))
  where
    read : List Visit → Result (List Text)
    read visits = do last ← or_raise (last_item visits) index_error; ok (sort last.filenames)

module _ (numbers : Numbers) (part : Text → ℕ → ℕ)
    (open_dataset : World → Text → Result (Variables numbers))
    (dump : World → Text → Content numbers → Result (Unit {0})) (t2_of : Text → Grid numbers) where
  -- Where the data directory is there, the rounded shares for training and validation leave at least one of its
  -- files, every file can be read and its T2 reaches over the part that is cut out, and the files of the filing
  -- directory can all be made, or each of them raises the same: in the second case the program ends with this
  -- exception and has saved nothing. In the first it ends without one. It saves the pictures and the sources of
  -- three splits, which are, one after another, the files that the directory has itself, in order of their
  -- names, but for the last one.
  pub process_netcdf_lem :
      (w : World) (es : Entries) (made : Result (Unit {0}))
      → node_at w data_dir ≡ some (dir es)
      → let n = length (sort (file_names es)) in
        part (codes "0.8") n + part (codes "0.05") n < n
        → AreReadable numbers (open_dataset w) t2_of (sort (file_names es))
        → DumpsAs numbers (open_dataset w) t2_of (dump w) made
        → let s = split part (sort (file_names es)) in
          (process_netcdf numbers part open_dataset dump w ≡ elim made [
            | raise e ↦ ([], raise e)
            | ok done ↦ (
              saved numbers (open_dataset w) t2_of (codes "train") s.train_recordings
                  ++ (saved numbers (open_dataset w) t2_of (codes "test") s.test_recordings
                      ++ (saved numbers (open_dataset w) t2_of (codes "val") s.val_recordings
                          ++ [])),
              ok tt,
            )
          ])
          × (s.train_recordings ++ (s.val_recordings ++ s.test_recordings)
              ≡ take (length (sort (file_names es)) - 1) (sort (file_names es)))
  unfolding process_netcdf
  process_netcdf_lem w es made there fits readable dumps =
      let images = sort (file_names es) in
      let s = split part images in
      let (together, _, _) = split_lem part images fits in
      let kept =
        subst (AreReadable numbers (open_dataset w) t2_of) (sym together)
          (All-take _ (length images - 1) images readable) in
      let (train, others) =
        All-of_append _ s.train_recordings (s.val_recordings ++ s.test_recordings) kept in
      let (val, test) = All-of_append _ s.val_recordings s.test_recordings others in
      (
        rw (image_list-dir w es there, process_netcdf)
            (process_data_lem numbers (open_dataset w) t2_of (dump w) s made dumps train val test),
        together,
      )
