-- ===== src/Training/Extrema.antt =====
-- wfppdl/training/source/minMaxExtractor.py.
pub mod Printed
use container_hackathon.Prelude.{ℕ, Option, none, some, List, [], ◌∷◌, ◌++◌, get_elem?, for_each}
use container_hackathon.Prelude.{index_error, value_error, Result, ok, raise, ◌>>=◌, or_raise}
use container_hackathon.Prelude.Text.{Text, codes}
use container_hackathon.Files.{World}
use container_hackathon.Training.Numbers.{Numbers, Image, Pixel}

abbrev pub x_train_file : Text
x_train_file = codes "/p/project/cjjsc42/severin/try3/X_train.hkl"

module _ (numbers : Numbers) where
  open numbers use {Number, add, mul, sub, of_nat}

  -- What the program uses of numpy and hickle; the four numbers are asked of a list that is not empty.
  pub record Statistics : Type 0 where
    pub load : World → Text → Result (List (Image Number))
    pub amax : List Number → Number
    pub amin : List Number → Number
    pub mean : List Number → Number
    pub std : List Number → Number
    -- `str` of a number, and of the shape of an array
    pub number_text : Number → Text
    pub shape_text : List (Image Number) → Text

  abbrev pub channel_of_row : ℕ → List (Pixel Number) → Result (List Number)
  channel_of_row c row = for_each (λ pixel. or_raise (get_elem? pixel c) index_error) row

  abbrev pub channel_of_rows : ℕ → Image Number → Result (List Number)
  channel_of_rows c [] = ok []
  channel_of_rows c (row ∷ rows) = do
    values ← channel_of_row c row
    rest ← channel_of_rows c rows
    ok (values ++ rest)

  -- `x_train[:,:,:,c]`, as one list
  unfoldable pub channel : ℕ → List (Image Number) → Result (List Number)
  channel c [] = ok []
  channel c (image ∷ images) = do
    values ← channel_of_rows c image
    rest ← channel c images
    ok (values ++ rest)

  -- The variables of one channel.
  pub record Extrema : Type 0 where
    pub max : Number
    pub min : Number
    pub mean : Number
    pub std : Number
    pub high_cut : Number
    pub low_cut : Number

  module _ (statistics : Statistics) where
    -- `amax` and `amin` raise for an empty array.
    abbrev pub extrema_of : List Number → Result Extrema
    extrema_of [] = raise value_error
    extrema_of (x ∷ xs) =
        let mean = statistics.mean (x ∷ xs) in
        let std = statistics.std (x ∷ xs) in
        ok (record {
          max = statistics.amax (x ∷ xs);
          min = statistics.amin (x ∷ xs);
          mean = mean;
          std = std;
          high_cut = add mean (mul (of_nat 3) std);
          low_cut = sub mean (mul (of_nat 3) std);
        })

    -- `print(label + ': ' + str(x))`
    abbrev pub line : (label : Text) → Number → Text
    line label x = label ++ (codes ": " ++ statistics.number_text x)

    -- The lines for a channel; the label of the mean is given, since one of the three is not that of its channel.
    abbrev pub channel_lines : (name mean_label : Text) → Extrema → List Text
    channel_lines name mean_label e =
        line (codes "max" ++ name) e.max
        ∷ line (codes "min" ++ name) e.min
        ∷ line mean_label e.mean
        ∷ line (codes "std" ++ name) e.std
        ∷ line (codes "highCut" ++ name) e.high_cut
        ∷ line (codes "lowCut" ++ name) e.low_cut
        ∷ []
        ∷ []

    -- The part of the program for one channel.
    unfoldable pub describe :
        (c : ℕ) (name mean_label : Text) → List (Image Number) → Result (List Text)
    describe c name mean_label x_train = do
      values ← channel c x_train
      e ← extrema_of values
      ok (channel_lines name mean_label e)

    -- The program: the lines that it prints.
    unfoldable pub extract : World → Result (List Text)
    extract w = do
      x_train ← statistics.load w x_train_file
      t2 ← describe 0 (codes "T2") (codes "meanT2") x_train
      gp ← describe 1 (codes "GP") (codes "meanGP") x_train
      gph ← describe 2 (codes "GPH") (codes "meanGP") x_train
      ok (codes "Shape of X:" ∷ statistics.shape_text x_train ∷ [] ∷ (t2 ++ (gp ++ gph)))
