-- ===== src/Training/Dataset/Bounds.antt =====
-- How the recordings of wfppdl/training/source/process_netCDF.py are divided.
use mathlib.Core.List.{append_assoc}
use container_hackathon.Prelude.{ℕ, ◌+◌, ◌-◌, ◌<◌, ◌≡◌, sym, ◌∙◌, ap, subst, arith}
use container_hackathon.Prelude.{List, length, ◌++◌, take, drop, length-take, length-drop}
use container_hackathon.Prelude.Int.{pos, ◌+ℤ◌, ◌-ℤ◌}
use container_hackathon.Prelude.Slices.{slice, slice_lem, take-join}
use container_hackathon.Prelude.Text.{Text, codes}
use container_hackathon.Training.Dataset.{Splits, split}

after_before : (a : ℕ) → pos a -ℤ pos 1 +ℤ pos 1 ≡ pos a
after_before a = ground arith

after_two : (a b : ℕ) → pos a -ℤ pos 1 +ℤ pos b +ℤ pos 1 ≡ pos (a + b)
after_two a b = ground arith

before : (n : ℕ) → 0 < n → pos n -ℤ pos 1 ≡ pos (n - 1)
before n h = ground arith

module _ (part : Text → ℕ → ℕ) (images : List Text) where
  abbrev trains : ℕ
  trains = part (codes "0.8") (length images)

  abbrev vals : ℕ
  vals = part (codes "0.05") (length images)

  abbrev divided : Splits
  divided = record {
    train_recordings = take trains images;
    val_recordings = take vals (drop trains images);
    test_recordings = take (length images - 1 - (trains + vals)) (drop (trains + vals) images);
  }

  split-slices :
      0 < length images
      → split part images ≡ record {
        train_recordings = slice (pos 0) (pos trains) images;
        val_recordings = slice (pos trains) (pos (trains + vals)) images;
        test_recordings = slice (pos (trains + vals)) (pos (length images - 1)) images;
      }
  unfolding split
  split-slices some_image = λ i. record {
    train_recordings = slice (pos 0) (after_before trains i) images;
    val_recordings = slice (after_before trains i) (after_two trains vals i) images;
    test_recordings = slice (after_two trains vals i) (before (length images) some_image i) images;
  }

  split-divided : 0 < length images → trains + vals < length images → split part images ≡ divided
  split-divided some_image fits =
      let exact : trains - 0 ≡ trains = omega arith in
      let rest : trains + vals - trains ≡ vals = omega arith in
      split-slices some_image ∙ λ i. record {
        train_recordings =
            (slice_lem 0 trains images (omega arith) (omega arith) ∙ ap (λ k. take k images) exact)
              i;
        val_recordings =
            (slice_lem trains (trains + vals) images (omega arith) (omega arith)
                ∙ ap (λ k. take k (drop trains images)) rest)
              i;
        test_recordings =
            slice_lem (trains + vals) (length images - 1) images (omega arith) (omega arith) i;
      }

  -- Where the rounded shares for training and validation leave at least one recording: the three
  -- splits, one after another, are all recordings in order without the last one, which is in no split.
  -- The first two have as many recordings as their shares, and the third has the rest.
  pub split_lem :
      part (codes "0.8") (length images) + part (codes "0.05") (length images) < length images
      → let s = split part images in
        (s.train_recordings ++ (s.val_recordings ++ s.test_recordings)
          ≡ take (length images - 1) images)
        × (length s.train_recordings ≡ part (codes "0.8") (length images))
        × (length s.val_recordings ≡ part (codes "0.05") (length images))
  split_lem fits =
      subst
        (λ s.
          (s.train_recordings ++ (s.val_recordings ++ s.test_recordings)
            ≡ take (length images - 1) images)
          × (length s.train_recordings ≡ trains)
          × (length s.val_recordings ≡ vals))
        (sym (split-divided (omega arith) fits))
        (
          together,
          omega (arith, length-take trains images),
          omega (arith, length-take vals (drop trains images), length-drop trains images),
        )
    where
      left_over : ℕ
      left_over = length images - 1 - (trains + vals)

      all_counted : trains + vals + left_over ≡ length images - 1
      all_counted = omega (arith, fits)

      together :
          take trains images
            ++ (take vals (drop trains images) ++ take left_over (drop (trains + vals) images))
          ≡ take (length images - 1) images
      together =
          sym (append_assoc (take trains images) (take vals (drop trains images)) _)
          ∙ ap (λ xs. xs ++ take left_over (drop (trains + vals) images))
              (take-join trains vals images)
          ∙ take-join (trains + vals) left_over images
          ∙ ap (λ k. take k images) all_counted
