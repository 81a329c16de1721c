-- ===== src/Training/Dataset/Saved.antt =====
-- The files that `process_data` of wfppdl/training/source/process_netCDF.py saves, and their use by
-- `SequenceGenerator` of wfppdl/training/source/data_utils.py.
use mathlib.Core.List.{Perm}
use container_hackathon.Prelude.{ℕ, ◌<◌, ◌≡◌, refl, sym, ◌∙◌, ap, subst, true, false, arith}
use container_hackathon.Prelude.{
  Option, some, List, [], ◌∷◌, ◌++◌, length, take, drop, replicate, length-replicate, length-map,
  map, All, All-of_map, for_each-map, for_each,
}
use container_hackathon.Prelude.{Result, ok, raise, ◌⊎◌, inl, inr}
use container_hackathon.Prelude.Keyed.{get_key}
use container_hackathon.Prelude.Text.{Text, codes, text_eq}
use container_hackathon.Files.{join_path}
use container_hackathon.Training.Numbers.{Numbers, Image}
use container_hackathon.Training.Generator.{Generator, new_generator, create_all, is_one_of}
use container_hackathon.Training.Generator.Batches.{IsColoured, processed}
use container_hackathon.Prelude.{All-map}
use container_hackathon.Training.Generator.Valid.{new_generator-IsValid, create_all_lem}
use container_hackathon.Training.Dataset.{
  data_dir, filing_path, Splits, Grid, Variables, Content, images, names, process_split, read_image,
  process_splits, process_data,
}
use container_hackathon.Training.Dataset.Cropping.{colour, picture, IsReadable, read_image_lem}

All-always {ℓ κ} : {A : Type ℓ} {P : A → Type κ} (xs : List A) → ((x : A) → P x) → All P xs
All-always [] f = tt
All-always (x ∷ xs) f = (f x, All-always xs f)

module _ (numbers : Numbers) (open_dataset : Text → Result (Variables numbers))
    (t2_of : Text → Grid numbers) where
  open numbers use {Number}

  -- All recordings of a list can be read, with these values of T2.
  abbrev pub AreReadable : List Text → Type 0
  AreReadable recordings = All (λ r. IsReadable numbers open_dataset r (t2_of r)) recordings

  abbrev pub pictures : List Text → List (Image Number)
  pictures recordings = map (λ r. picture numbers (t2_of r)) recordings

  -- The two files of a split.
  abbrev pub saved : Text → List Text → List (Text × Content numbers)
  saved split_name recordings =
      (
        join_path filing_path (codes "X_" ++ (split_name ++ codes ".hkl")),
        images (pictures recordings),
      )
      ∷ (
        join_path filing_path (codes "sources_" ++ (split_name ++ codes ".hkl")),
        names (replicate (length recordings) data_dir),
      )
      ∷ []

  -- All files of the filing directory can be made, or none of them: each dump ends like `made`.
  abbrev pub DumpsAs :
      (dump : Text → Content numbers → Result (Unit {0})) → Result (Unit {0}) → Type 0
  DumpsAs dump made =
      (name : Text) (content : Content numbers) → dump (join_path filing_path name) content ≡ made

  stacked :
      (recordings : List Text)
      → AreReadable recordings
      → for_each (read_image numbers open_dataset) recordings ≡ ok (pictures recordings)
  stacked recordings readable =
      for_each-map _ (λ r. picture numbers (t2_of r)) recordings
        (All-map recordings (λ r h. read_image_lem numbers open_dataset r (t2_of r) h) readable)

  module _ (dump : Text → Content numbers → Result (Unit {0})) where
    process_split_lem :
        (split_name : Text) (recordings : List Text) (made : Result (Unit {0}))
        → DumpsAs dump made
        → AreReadable recordings
        → process_split numbers open_dataset dump split_name recordings
          ≡ elim made [ raise e ↦ ([], raise e) | ok done ↦ (saved split_name recordings, ok tt) ]
    unfolding process_split
    process_split_lem split_name recordings (raise e) dumps readable =
        rw
          (
            stacked recordings readable,
            dumps (codes "X_" ++ (split_name ++ codes ".hkl")) (images (pictures recordings)),
            process_split,
          )
          refl
    process_split_lem split_name recordings (ok done) dumps readable =
        rw
          (
            stacked recordings readable,
            dumps (codes "X_" ++ (split_name ++ codes ".hkl")) (images (pictures recordings)),
            dumps (codes "sources_" ++ (split_name ++ codes ".hkl"))
                (names (replicate (length recordings) data_dir)),
            process_split,
          )
          refl

    process_splits-cons :
        (split_name : Text) (recordings : List Text) (splits : List (Text × List Text))
        (files : List (Text × Content numbers))
        → process_split numbers open_dataset dump split_name recordings ≡ (files, ok tt)
        → process_splits numbers open_dataset dump ((split_name, recordings) ∷ splits) ≡ (
          files ++ (process_splits numbers open_dataset dump splits).0,
          (process_splits numbers open_dataset dump splits).1,
        )
    unfolding process_splits
    process_splits-cons split_name recordings splits files h = rw (h, process_splits) refl

    -- The files of all splits.
    abbrev pub all_saved : Splits → List (Text × Content numbers)
    all_saved splits =
        saved (codes "train") splits.train_recordings
        ++ (saved (codes "test") splits.test_recordings
            ++ (saved (codes "val") splits.val_recordings ++ []))

    -- Where every recording can be read and its T2 reaches over the part that is cut out: if no file can
    -- be made, `process_data` raises and saves nothing. If all can, it ends without an exception and
    -- saves, for train, test and val in this order, the pictures of the recordings in order and as
    -- many names of the data directory.
    pub process_data_lem :
        (splits : Splits) (made : Result (Unit {0}))
        → DumpsAs dump made
        → AreReadable splits.train_recordings
        → AreReadable splits.val_recordings
        → AreReadable splits.test_recordings
        → process_data numbers open_dataset dump splits
          ≡ elim made [ raise e ↦ ([], raise e) | ok done ↦ (all_saved splits, ok tt) ]
    unfolding process_data process_splits
    process_data_lem splits (raise e) dumps train val test =
        rw
          (
            process_split_lem (codes "train") splits.train_recordings (raise e) dumps train,
            process_splits,
          )
          refl
    process_data_lem splits (ok done) dumps train val test =
        let last = (codes "val", splits.val_recordings) ∷ [] in
        let later = (codes "test", splits.test_recordings) ∷ last in
        let of_val =
          process_splits-cons (codes "val") splits.val_recordings [] _
            (process_split_lem _ splits.val_recordings (ok done) dumps val) in
        let of_test =
          process_splits-cons (codes "test") splits.test_recordings last _
            (process_split_lem _ splits.test_recordings (ok done) dumps test) in
        let of_train =
          process_splits-cons (codes "train") splits.train_recordings later _
            (process_split_lem _ splits.train_recordings (ok done) dumps train) in
        of_train
        ∙ ap (λ r. (saved (codes "train") splits.train_recordings ++ r.0, r.1))
            (of_test ∙ ap (λ r. (saved (codes "test") splits.test_recordings ++ r.0, r.1)) of_val)

  pictures-IsColoured : (recordings : List Text) → All (IsColoured numbers) (pictures recordings)
  pictures-IsColoured recordings =
      All-of_map (IsColoured numbers) (λ r. picture numbers (t2_of r)) recordings
        (All-always recordings (λ r. All-of_map _ _ (take 128 (drop 74 (t2_of r))) (
          All-always _ (λ row.
            All-of_map _ (colour numbers) (take 160 (drop 550 row))
              (All-always _ (λ x. omega arith))))))

  -- A split by its name.
  abbrev pub IsSplit : Splits → Text → List Text → Type 0
  IsSplit splits split_name recordings =
      ((split_name ≡ codes "train") × (splits.train_recordings ≡ recordings))
      ⊎ ((split_name ≡ codes "val") × (splits.val_recordings ≡ recordings))
      ⊎ ((split_name ≡ codes "test") × (splits.test_recordings ≡ recordings))

  abbrev pub images_file : Text → Text
  images_file split_name = codes "./testTry2/X_" ++ (split_name ++ codes ".hkl")

  abbrev pub sources_file : Text → Text
  sources_file split_name = codes "./testTry2/sources_" ++ (split_name ++ codes ".hkl")

  get_key-all_saved :
      (dump : Text → Content numbers → Result (Unit {0})) (splits : Splits) (split_name : Text)
      (recordings : List Text)
      → IsSplit splits split_name recordings
      → (get_key (images_file split_name) (all_saved dump splits)
          ≡ some (images (pictures recordings)))
        × (get_key (sources_file split_name) (all_saved dump splits)
            ≡ some (names (replicate (length recordings) data_dir)))
  unfolding get_key
  get_key-all_saved dump splits split_name recordings (inl (e, f)) = rw (e, ← f) (refl, refl)
  get_key-all_saved dump splits split_name recordings (inr (inl (e, f))) = rw (e, ← f) (refl, refl)
  get_key-all_saved dump splits split_name recordings (inr (inr (e, f))) = rw (e, ← f) (refl, refl)

  -- Where every recording can be read, its T2 reaches over the part that is cut out, and the files can
  -- be made: `process_data` ends without an exception. For each split with a recording its two files then hold
  -- the pictures of its recordings and as many names of the data directory, and these serve
  -- `SequenceGenerator` in either mode, in a format other than `channels_first`, for sequences of at
  -- least one image and a shuffling that permutes: the constructor and then `create_all` raise
  -- nothing, and the sequences of the starts are the processed saved pictures.
  pub saved_sequences :
      (dump : Text → Content numbers → Result (Unit {0})) (splits : Splits)
      → DumpsAs dump (ok tt)
      → AreReadable splits.train_recordings
      → AreReadable splits.val_recordings
      → AreReadable splits.test_recordings
      → (split_name first : Text) (others : List Text) → IsSplit splits split_name (first ∷ others)
      → (nt batch_size : ℕ) (shuffle : List ℕ → List ℕ) (output_mode mode : Text) (n_seq : Option ℕ)
        (data_format : Text)
      → ((xs : List ℕ) → Perm xs (shuffle xs))
      → 0 < nt
      → text_eq data_format (codes "channels_first") ≡ false
      → is_one_of numbers mode (codes "all") (codes "unique") ≡ true
      → is_one_of numbers output_mode (codes "error") (codes "prediction") ≡ true
      → (files : List (Text × Content numbers)) × (g : Generator numbers) × (process_data numbers
            open_dataset dump splits
          ≡ (files, ok tt))
        × (get_key (images_file split_name) files ≡ some (images (pictures (first ∷ others))))
        × (get_key (sources_file split_name) files
            ≡ some (names (replicate (length (first ∷ others)) data_dir)))
        × (new_generator numbers
              (pictures (first ∷ others))
              (replicate (length (first ∷ others)) data_dir)
              nt
              batch_size
              shuffle
              output_mode
              mode
              n_seq
              data_format
            ≡ some (ok g))
        × (create_all numbers g
            ≡ ok (
                map
                  (λ s. processed numbers (take nt (drop s (pictures (first ∷ others)))))
                  g.possible_starts))
  saved_sequences dump splits dumps train val test split_name first others found nt batch_size
        shuffle output_mode mode n_seq data_format shuffled positive last known output_known =
      let (g, run, valid, same_images, same_nt) =
        new_generator-IsValid numbers (picture numbers (t2_of first)) (pictures others)
          (replicate (length (first ∷ others)) data_dir) nt batch_size shuffle output_mode mode
          n_seq data_format shuffled positive
          (length-replicate (length (first ∷ others)) data_dir
            ∙ sym (length-map (first ∷ others) (λ r. picture numbers (t2_of r))))
          last known output_known in
      let (of_images, of_sources) =
        get_key-all_saved dump splits split_name (first ∷ others) found in
      (
        all_saved dump splits,
        g,
        process_data_lem dump splits (ok tt) dumps train val test,
        of_images,
        of_sources,
        run,
        create_all_lem numbers g valid (
              subst (All (IsColoured numbers)) (sym same_images)
                (pictures-IsColoured (first ∷ others)))
            ∙ λ i. ok (
                map (λ s. processed numbers (take (same_nt i) (drop s (same_images i))))
                  g.possible_starts),
      )
