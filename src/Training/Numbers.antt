-- ===== src/Training/Numbers.antt =====
-- The floating-point numbers of numpy, and images as nested lists of them.
use container_hackathon.Prelude.{ℕ, List, [], ◌∷◌, length, replicate}
use container_hackathon.Prelude.Text.{Text}

-- What the programs use of numpy's numbers.
pub record Numbers : Type 1 where
  pub Number : Type 0
  -- A literal of the source, and 0.
  pub literal : Text → Number
  pub zero : Number
  -- An integer as a number.
  pub of_nat : ℕ → Number
  pub add : Number → Number → Number
  pub mul : Number → Number → Number
  pub sub : Number → Number → Number
  pub div : Number → Number → Number
  -- `astype(np.float32)`
  pub float32 : Number → Number

module _ (F : Type 0) where
  -- The channels of one place, the rows of places; the last axis of the array comes last.
  abbrev pub Pixel : Type 0
  Pixel = List F

  abbrev pub Image : Type 0
  Image = List (List Pixel)

-- `shape` of an image
pub record Shape : Type 0 where
  pub rows : ℕ
  pub columns : ℕ
  pub channels : ℕ

abbrev first_length {ℓ} : {A : Type ℓ} → List (List A) → ℕ
first_length [] = 0
first_length (x ∷ xs) = length x

module _ {F : Type 0} where
  abbrev first_pixels : Image F → List (Pixel F)
  first_pixels [] = []
  first_pixels (row ∷ rest) = row

  abbrev pub shape : Image F → Shape
  shape image = record {
    rows = length image;
    columns = first_length image;
    channels = first_length (first_pixels image);
  }

  -- `np.zeros` of a shape
  abbrev pub blank : F → Shape → Image F
  blank zero s = replicate s.rows (replicate s.columns (replicate s.channels zero))
