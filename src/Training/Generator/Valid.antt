-- ===== src/Training/Generator/Valid.antt =====
-- A generator that `SequenceGenerator.__init__` of wfppdl/training/source/data_utils.py has made,
-- and the arrays that it then yields.
use native.Mathlib.Bridge.{le_prop}
use mathlib.Core.Logic.{∥∥₁_elim}
use mathlib.Core.List.{Perm, Permᴰ, append-nil}
use container_hackathon.Prelude.{
  ℕ, zero, suc, ◌+◌, ◌-◌, ◌<◌, ◌≤◌, ◌≡◌, refl, ◌∙◌, ap, subst, length-replicate, drop-of_le, arith,
  true, false, Bool-cases, ltb, inl, inr, dec_lt,
}
use container_hackathon.Prelude.{Option, none, some, List, [], ◌∷◌, ◌++◌, length, All, map, range}
use container_hackathon.Prelude.{ok}
use container_hackathon.Prelude.Text.{Text, codes, text_eq}
use container_hackathon.Training.Numbers.{Numbers, Image, shape}
use container_hackathon.Training.Generator.{
  Generator, all_starts, mode_starts, select, new_generator, sequence_at, blank_rows, create_all,
  is_one_of,
}
use container_hackathon.Training.Generator.Starts.{unique_starts}
use container_hackathon.Training.Generator.Batches.{
  IsColoured, processed, window, All-take, sequence_at_lem, fill_rows_whole,
}
use container_hackathon.Prelude.{All-map}

-- `nt` images from `s` on are there.
abbrev pub Fits : (images nt s : ℕ) → Type 0
Fits images nt s = s + nt ≤ images

range-Fits :
    (images nt first k : ℕ) → first + k + nt ≤ images → All (Fits images nt) (range first k)
range-Fits images nt first zero h = tt
range-Fits images nt first (suc k) h =
    (omega arith, range-Fits images nt (first + 1) k (omega arith))

-- The modes' lists stay inside the images.
all_starts-Fits : (images nt : ℕ) → All (Fits images nt) (all_starts images nt)
unfolding all_starts
all_starts-Fits images nt = elim (dec_lt nt images) [
  | yes less ↦ range-Fits images nt 0 (images - nt) (omega arith)
  | no more ↦ let nothing : images - nt ≡ 0 = omega arith in rw nothing tt
]

module _ (images nt : ℕ) where
  All-Fits-IsProp : (xs : List ℕ) → IsProp (All (Fits images nt) xs)
  All-Fits-IsProp [] h k = refl
  All-Fits-IsProp (x ∷ xs) h k = λ i. (le_prop h.0 k.0 i, All-Fits-IsProp xs h.1 k.1 i)

  All-derivation :
      {xs ys : List ℕ} → Permᴰ xs ys → All (Fits images nt) xs → All (Fits images nt) ys
  All-derivation Permᴰ.nil h = h
  All-derivation (Permᴰ.cons e p) h = (omega (arith, e, h.0), All-derivation p h.1)
  All-derivation (Permᴰ.swap e f) h = (omega (arith, f, h.1.0), (omega (arith, e, h.0), h.1.1))
  All-derivation (Permᴰ.trans p q) h = All-derivation q (All-derivation p h)

  All-perm : {xs ys : List ℕ} → Perm xs ys → All (Fits images nt) xs → All (Fits images nt) ys
  All-perm {ys} p h = ∥∥₁_elim p (All-Fits-IsProp ys) (λ d. All-derivation d h)

  select-Fits :
      (n : Option ℕ) (xs : List ℕ) → All (Fits images nt) xs → All (Fits images nt) (select n xs)
  select-Fits none xs h = h
  select-Fits (some n) xs h = elim (Bool-cases (ltb n (length xs))) [
    | inl e ↦ rw e (All-take (Fits images nt) n xs h)
    | inr e ↦ rw e h
  ]

mode_starts-Fits :
    (mode : Text) (sources : List Text) (nt : ℕ)
    → 0 < nt
    → (starts : List ℕ) × (mode_starts mode sources (length sources) nt ≡ some (ok starts))
      × All (Fits (length sources) nt) starts
unfolding mode_starts
mode_starts-Fits mode sources nt positive = elim (Bool-cases (text_eq mode (codes "all"))) [
  | inl e ↦ (all_starts (length sources) nt, rw e refl, all_starts-Fits (length sources) nt)
  | inr e ↦
      let (starts, run, spaced, found, covered) = unique_starts sources nt positive in
      (starts, rw e run, All-map starts (λ s start. start.0) found)
]

module _ (numbers : Numbers) where
  open numbers use {Number}

  -- The sequences stay inside the images, and their number is that of the starts.
  abbrev pub IsValid : Generator numbers → Type 0
  IsValid g =
      All (Fits (length g.images) g.nt) g.possible_starts
      × (g.n_sequences ≡ length g.possible_starts)

  module _ (first : Image Number) (others : List (Image Number)) (sources : List Text)
      (nt batch_size : ℕ) (shuffle : List ℕ → List ℕ) (output_mode mode : Text) (n_seq : Option ℕ)
      (data_format : Text) where
    made : List ℕ → Generator numbers
    made starts =
        let chosen = select n_seq (shuffle starts) in
        record {
          images = first ∷ others;
          sources = sources;
          nt = nt;
          batch_size = batch_size;
          im_shape = shape first;
          output_mode = output_mode;
          possible_starts = chosen;
          n_sequences = length chosen;
        }

    new_generator-made :
        (starts : List ℕ)
        → text_eq data_format (codes "channels_first") ≡ false
        → is_one_of numbers mode (codes "all") (codes "unique") ≡ true
        → is_one_of numbers output_mode (codes "error") (codes "prediction") ≡ true
        → mode_starts mode sources (length (first ∷ others)) nt ≡ some (ok starts)
        → new_generator numbers
            (first ∷ others)
            sources
            nt
            batch_size
            shuffle
            output_mode
            mode
            n_seq
            data_format
          ≡ some (ok (made starts))
    unfolding new_generator made
    new_generator-made starts last known known_output run = ground arith

    -- With known modes, a format other than `channels_first`, at least one image, a source for each image, sequences of at least one image
    -- and a shuffling that permutes, the constructor ends without an exception, its sequences stay
    -- inside the images, which it keeps with the length of a sequence, and their number is that of the
    -- starts.
    pub new_generator-IsValid :
        ((xs : List ℕ) → Perm xs (shuffle xs))
        → 0 < nt
        → length sources ≡ length (first ∷ others)
        → text_eq data_format (codes "channels_first") ≡ false
        → is_one_of numbers mode (codes "all") (codes "unique") ≡ true
        → is_one_of numbers output_mode (codes "error") (codes "prediction") ≡ true
        → (g : Generator numbers) × (new_generator numbers
              (first ∷ others)
              sources
              nt
              batch_size
              shuffle
              output_mode
              mode
              n_seq
              data_format
            ≡ some (ok g))
          × IsValid g
          × (g.images ≡ first ∷ others)
          × (g.nt ≡ nt)
    unfolding made
    new_generator-IsValid shuffled positive sourced last known known_output =
        let (starts, run, fits) = mode_starts-Fits mode sources nt positive in
        (
          made starts,
          new_generator-made starts last known known_output
              (subst (λ n. mode_starts mode sources n nt ≡ some (ok starts)) sourced run),
          (
            select-Fits (length (first ∷ others)) nt n_seq (shuffle starts) (
                All-perm (length (first ∷ others)) nt (shuffled starts)
                  (subst (λ n. All (Fits n nt) starts) sourced fits)),
            refl,
          ),
          refl,
          refl,
        )

  -- In the mode `all`, the starts are all numbers below the count of images less that of a sequence, as
  -- they are shuffled and selected.
  pub new_generator-all :
      (first : Image Number) (others : List (Image Number)) (sources : List Text)
      (nt batch_size : ℕ) (shuffle : List ℕ → List ℕ) (output_mode : Text) (n_seq : Option ℕ)
      (data_format : Text)
      → ((xs : List ℕ) → Perm xs (shuffle xs))
      → text_eq data_format (codes "channels_first") ≡ false
      → is_one_of numbers output_mode (codes "error") (codes "prediction") ≡ true
      → (g : Generator numbers) × (new_generator numbers
            (first ∷ others)
            sources
            nt
            batch_size
            shuffle
            output_mode
            (codes "all")
            n_seq
            data_format
          ≡ some (ok g))
        × IsValid g
        × (g.images ≡ first ∷ others)
        × (g.nt ≡ nt)
        × (g.possible_starts ≡ select n_seq (shuffle (range 0 (length (first ∷ others) - nt))))
  unfolding made mode_starts all_starts
  new_generator-all first others sources nt batch_size shuffle output_mode n_seq data_format
        shuffled last known_output =
      let starts = all_starts (length (first ∷ others)) nt in
      (
        made first others sources nt batch_size shuffle output_mode (codes "all") n_seq data_format
            starts,
        new_generator-made first others sources nt batch_size shuffle output_mode (codes "all")
            n_seq data_format starts last refl known_output refl,
        (
          select-Fits (length (first ∷ others)) nt n_seq (shuffle starts) (
              All-perm (length (first ∷ others)) nt (shuffled starts)
                (all_starts-Fits (length (first ∷ others)) nt)),
          refl,
        ),
        refl,
        refl,
        refl,
      )

  pub length-blank_rows : (g : Generator numbers) (k : ℕ) → length (blank_rows numbers g k) ≡ k
  unfolding blank_rows
  length-blank_rows g k = length-replicate k _

  -- For a generator whose sequences stay inside images with three channels, `create_all` raises
  -- nothing and yields the sequences of the starts in order, each with its `nt` images processed.
  pub create_all_lem :
      (g : Generator numbers)
      → IsValid g
      → All (IsColoured numbers) g.images
      → create_all numbers g
        ≡ ok (map (λ s. processed numbers (window numbers g s)) g.possible_starts)
  unfolding create_all
  create_all_lem g (fits, number) coloured =
      fill_rows_whole numbers (sequence_at numbers g) (λ s. processed numbers (window numbers g s))
        _ g.possible_starts
        (All-map g.possible_starts (λ s fit. sequence_at_lem numbers g s coloured fit) fits)
        (omega (arith, number, length-blank_rows g g.n_sequences))
      ∙ ap (λ rows. ok (all_rows ++ rows))
          (drop-of_le (length g.possible_starts) (blank_rows numbers g g.n_sequences)
            (omega (arith, number, length-blank_rows g g.n_sequences)))
      ∙ ap ok (append-nil all_rows)
    where
      all_rows : List (List (Image Number))
      all_rows = map (λ s. processed numbers (window numbers g s)) g.possible_starts
