-- ===== src/Training/Generator/Next.antt =====
-- The batches of `SequenceGenerator.next` of wfppdl/training/source/data_utils.py.
use container_hackathon.Prelude.{
  ℕ, ◌-◌, ◌<◌, ◌≤◌, ◌≡◌, refl, ◌∙◌, ap, arith, ltb-of_lt, if◌then◌else◌,
}
use container_hackathon.Prelude.{
  Option, none, some, List, [], ◌++◌, length, get_elem?, get_elem?-of_lt, All-get_elem?, drop,
  replicate, drop-replicate, All, map,
}
use container_hackathon.Prelude.{Result, ok, or_raise, index_error, ◌>>=◌}
use container_hackathon.Prelude.Text.{codes, text_eq}
use container_hackathon.Training.Numbers.{Numbers, Image}
use container_hackathon.Training.Generator.{
  Generator, sequence_at, fill_rows, blank_rows, next_batch, Target, errors, pixels,
}
use container_hackathon.Training.Generator.Batches.{
  IsColoured, processed, window, sequence_at_lem, fill_rows_whole,
}
use container_hackathon.Prelude.{All-map}
use container_hackathon.Training.Generator.Valid.{Fits, IsValid, length-blank_rows}

module _ (numbers : Numbers) (g : Generator numbers) where
  open numbers use {Number}

  abbrev pub row_at : Option ℕ → List (Image Number)
  row_at none = []
  row_at (some s) = processed numbers (window numbers g s)

  -- The sequences of some indices, and blank rows up to the size of a batch.
  abbrev pub batch : List ℕ → List (List (Image Number))
  batch indices =
      map (λ j. row_at (get_elem? g.possible_starts j)) indices
      ++ blank_rows numbers g (g.batch_size - length indices)

  abbrev pub target : List (List (Image Number)) → Target numbers
  target batch_x =
      if text_eq g.output_mode (codes "error")
      then errors (replicate g.batch_size numbers.zero)
      else pixels batch_x

  picked : ℕ → Result (List (Image Number))
  picked j = do
    idx ← or_raise (get_elem? g.possible_starts j) index_error
    sequence_at numbers g idx

  picked_lem :
      (j : ℕ)
      → IsValid numbers g
      → All (IsColoured numbers) g.images
      → j < g.n_sequences
      → picked j ≡ ok (row_at (get_elem? g.possible_starts j))
  unfolding picked
  picked_lem j (fits, number) coloured less =
      let (s, e) = get_elem?-of_lt g.possible_starts j (omega (arith, number, less)) in
      let fit = All-get_elem? (Fits (length g.images) g.nt) g.possible_starts j fits e in
      rw e (sequence_at_lem numbers g s coloured fit)

  drop-blank_rows : (n k : ℕ) → drop n (blank_rows numbers g k) ≡ blank_rows numbers g (k - n)
  unfolding blank_rows
  drop-blank_rows n k = drop-replicate n k _

  -- For a generator with sequences, all inside images with three channels: `next` with indices below
  -- the number of sequences, at most as many as a batch has rows, raises nothing. The first rows are
  -- the processed sequences of the indices, and all rows after them are zeros. The targets are zeros
  -- in the mode `error`, and the same rows in the mode `prediction`.
  pub next_batch_lem :
      (indices : List ℕ)
      → IsValid numbers g
      → All (IsColoured numbers) g.images
      → 0 < g.n_sequences
      → All (λ j. j < g.n_sequences) indices
      → length indices ≤ g.batch_size
      → next_batch numbers g indices ≡ ok (batch indices, target (batch indices))
  unfolding next_batch picked
  next_batch_lem indices valid coloured some_sequence inside room =
      let filled : fill_rows numbers picked (blank_rows numbers g g.batch_size) 0 indices
          ≡ ok (batch indices) =
        fill_rows_whole numbers picked (λ j. row_at (get_elem? g.possible_starts j)) _ indices
          (All-map indices (λ j less. picked_lem j valid coloured less) inside)
          (omega (arith, room, length-blank_rows numbers g g.batch_size))
        ∙ ap (λ rows. ok (map (λ j. row_at (get_elem? g.possible_starts j)) indices ++ rows))
            (drop-blank_rows (length indices) g.batch_size) in
      let positive = ltb-of_lt 0 g.n_sequences some_sequence in rw (positive, filled) refl
