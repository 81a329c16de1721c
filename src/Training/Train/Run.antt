-- ===== src/Training/Train/Run.antt =====
-- A run of wfppdl/training/source/kitti_train.py, and what its generators yield.
use mathlib.Core.List.{Perm}
use mathlib.Core.List.Perm
use container_hackathon.Prelude.{
  ℕ, zero, suc, ◌-◌, ◌<◌, ◌≤◌, ◌≡◌, refl, ap, sym, subst, ◌∙◌, arith, Bool, ◌||◌, false, Option,
  some, List, [], ◌∷◌, length, ok, All, range, ltb, Bool-cases, inl, inr, length-perm, length-range,
}
use container_hackathon.Prelude.Text.{Text, codes, text_eq}
use container_hackathon.Files.{World}
use container_hackathon.Files.Edit.{write_file}
use container_hackathon.Training.Numbers.{Numbers, Image}
use container_hackathon.Training.Generator.{Generator, Target, next_batch, select}
use container_hackathon.Training.Generator.Batches.{IsColoured}
use container_hackathon.Training.Generator.Next.{next_batch_lem}
use container_hackathon.Training.Generator.Valid.{IsValid, new_generator-all}
use container_hackathon.Training.Model.{Model, steps}
use container_hackathon.Training.Train.{
  Fit, Libraries, open_generator, json_of, json_file, batch_size,
}

abbrev pub is_format : Text → Bool
is_format image_data_format =
    text_eq image_data_format (codes "channels_last")
    || text_eq image_data_format (codes "channels_first")

module _ (numbers : Numbers) (libraries : Libraries numbers) where
  open libraries use {
    image_data_format, known, load_images, load_sources, permutation, fit_generator,
  }

  -- The arrays of one kind of data: there are more images than a sequence has, all with three channels,
  -- and a source for each image.
  pub record IsLoaded (w : World) (data_file source_file : Text) : Type 0 where
    pub first : Image numbers.Number
    pub others : List (Image numbers.Number)
    pub sources : List Text
    pub images_loaded : load_images w data_file ≡ ok (first ∷ others)
    pub sources_loaded : load_sources w source_file ≡ ok sources
    pub counted : length sources ≡ length (first ∷ others)
    pub enough : 10 < length (first ∷ others)
    pub coloured : All (IsColoured numbers) (first ∷ others)

  -- `next` yields a batch for any indices that fit into one.
  abbrev pub Yields : Generator numbers → Type 0
  Yields g =
      (indices : List ℕ)
      → All (λ j. j < g.n_sequences) indices
      → length indices ≤ g.batch_size
      → (yielded : List (List (Image numbers.Number)) × Target numbers) × (next_batch numbers g
            indices
          ≡ ok yielded)

  -- What a generator has: the starts in the order in which they are shuffled and selected, for
  -- sequences of ten images.
  pub record IsOpened (images : List (Image numbers.Number)) (starts : List ℕ)
      (g : Generator numbers) : Type 0 where
    pub valid : IsValid numbers g
    pub same_images : g.images ≡ images
    pub ten : g.nt ≡ 10
    pub starting : g.possible_starts ≡ starts
    pub some_sequence : 0 < g.n_sequences
    pub yields : Yields g

  -- The starts of sequences of ten images.
  abbrev pub starts_of : List (Image numbers.Number) → List ℕ
  starts_of images = range 0 (length images - 10)

  pub length-select :
      (n : ℕ) (xs : List ℕ) → 0 < n → 0 < length xs → 0 < length (select (some n) xs)
  length-select n [] positive h = absurd (omega arith)
  length-select (suc n) (x ∷ xs) positive h = elim (Bool-cases (ltb (suc n) (length (x ∷ xs)))) [
    | inl e ↦ rw e (omega arith)
    | inr e ↦ rw e (omega arith)
  ]
  length-select zero (x ∷ xs) positive h = absurd (omega arith)

  pub length-starts_of :
      (images : List (Image numbers.Number)) → 10 < length images → 0 < length (starts_of images)
  length-starts_of images enough = omega (arith, length-range 0 (length images - 10))

  pub permuted :
      ((xs : List ℕ) → Perm xs (permutation xs))
      → (images : List (Image numbers.Number)) → 10 < length images
      → 0 < length (permutation (starts_of images))
  permuted shuffled images enough =
      omega (arith, length-perm (shuffled (starts_of images)), length-starts_of images enough)

  pub open_generator-IsOpened :
      (w : World) (data_file source_file : Text) (size : ℕ) (shuffle : List ℕ → List ℕ)
      (n_seq : Option ℕ)
      → text_eq image_data_format (codes "channels_first") ≡ false
      → ((xs : List ℕ) → Perm xs (shuffle xs))
      → (loaded : IsLoaded w data_file source_file)
      → 0 < length (select n_seq (shuffle (starts_of (loaded.first ∷ loaded.others))))
      → (g : Generator numbers) × (open_generator numbers libraries w data_file source_file size
            shuffle n_seq
          ≡ some (ok g))
        × IsOpened
            (loaded.first ∷ loaded.others)
            (select n_seq (shuffle (starts_of (loaded.first ∷ loaded.others))))
            g
  unfolding open_generator
  open_generator-IsOpened w data_file source_file size shuffle n_seq last shuffled loaded positive =
      let (g, run, valid, images, ten, starts) =
        new_generator-all numbers loaded.first loaded.others loaded.sources steps size shuffle
          (codes "error") n_seq image_data_format shuffled last refl in
      let some_sequence : 0 < g.n_sequences =
        subst (λ n. 0 < n) (sym (valid.1 ∙ ap length starts)) positive in
      (
        g,
        rw (loaded.images_loaded, loaded.sources_loaded) run,
        record {
          valid = valid;
          same_images = images;
          ten = ten;
          starting = starts;
          some_sequence = some_sequence;
          yields = λ indices inside room. (
            _,
            next_batch_lem numbers g indices valid
                (subst (All (IsColoured numbers)) (sym images) loaded.coloured) some_sequence inside
                room,
          );
        },
      )

  -- What is assumed of `fit_generator`: where both generators have a sequence and yield their batches,
  -- it ends, and the JSON file can still be written.
  abbrev pub Ends : World → Type 0
  Ends w1 =
      (call : Fit numbers)
      → 0 < call.generator.n_sequences
      → Yields call.generator
      → 0 < call.validation_data.n_sequences
      → Yields call.validation_data
      → (fitted : World) × (w2 : World) × (fit_generator call w1 ≡ ok fitted)
        × (write_file json_file (json_of numbers libraries call.model) fitted ≡ ok w2)
