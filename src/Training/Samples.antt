-- ===== src/Training/Samples.antt =====
-- The theorems on the training programs at concrete data.
use container_hackathon.Prelude.{
  ℕ, ◌+◌, ◌-◌, ◌*◌, ◌/◌, ◌≡◌, refl, arith, none, some, List, [], ◌∷◌, length, All,
}
use container_hackathon.Prelude.{ok}
use container_hackathon.Prelude.Text.{Text, codes}
use container_hackathon.Training.Numbers.{Numbers, Image, shape}
use container_hackathon.Training.Generator.{
  Generator, new_generator, mode_starts, unique_loop, same_source, all_starts, preprocess,
  create_all, next_batch, pixels,
}
use container_hackathon.Training.Generator.Starts.{IsSpaced, IsStart, IsCovered, unique_starts}
use container_hackathon.Training.Generator.Batches.{IsColoured, preprocess_lem, processed}
use container_hackathon.Training.Generator.Valid.{IsValid, new_generator-IsValid, create_all_lem}
use container_hackathon.Training.Generator.Next.{batch, next_batch_lem}
use mathlib.Core.List.Perm

abbrev pub numbers : Numbers
numbers = record {
  Number = ℕ;
  literal = length;
  zero = 0;
  of_nat = λ n. n;
  add = λ a b. a + b;
  mul = λ a b. a * b;
  sub = λ a b. a - b;
  div = λ a b. a / b;
  float32 = λ a. a;
}

abbrev pub last : Text
last = codes "channels_last"

-- One row of one place.
abbrev image : ℕ → Image ℕ
image n = ((n ∷ (n + 1) ∷ (n + 2) ∷ []) ∷ []) ∷ []

abbrev images : List (Image ℕ)
images = image 10 ∷ image 20 ∷ image 30 ∷ image 40 ∷ image 50 ∷ []

-- Two images of one film and three of another.
abbrev sources : List Text
sources = codes "a" ∷ codes "a" ∷ codes "b" ∷ codes "b" ∷ codes "b" ∷ []

unique_sample : mode_starts (codes "unique") sources 5 2 ≡ some (ok (0 ∷ 2 ∷ []))
unfolding mode_starts unique_loop same_source
unique_sample = refl

all_sample : all_starts 5 2 ≡ 0 ∷ 1 ∷ 2 ∷ []
unfolding all_starts
all_sample = refl

unique_starts_example :
    (new : List ℕ) × (mode_starts (codes "unique") sources (length sources) 2 ≡ some (ok new))
    × IsSpaced 2 0 new
    × All (IsStart sources 2) new
    × ((i : ℕ) → IsStart sources 2 i → IsCovered 2 i new)
unique_starts_example = unique_starts sources 2 (omega arith)

coloured : All (IsColoured numbers) images
coloured = (place 10, (place 20, (place 30, (place 40, (place 50, tt)))))
  where
    place : (n : ℕ) → IsColoured numbers (image n)
    place n = (((omega arith, tt), tt))

preprocess_lem_example : preprocess numbers images ≡ ok (processed numbers images)
preprocess_lem_example = preprocess_lem numbers images coloured

abbrev generator : Generator numbers
generator = record {
  images = images;
  sources = sources;
  nt = 2;
  batch_size = 3;
  im_shape = shape (image 10);
  output_mode = codes "prediction";
  possible_starts = 0 ∷ 2 ∷ [];
  n_sequences = 2;
}

new_generator-IsValid_example :
    (g : Generator numbers) × (new_generator numbers images sources 2 3
        (λ xs. xs)
        (codes "prediction")
        (codes "unique")
        none
        last
      ≡ some (ok g))
    × IsValid numbers g
    × (g.images ≡ images)
    × (g.nt ≡ 2)
new_generator-IsValid_example =
    new_generator-IsValid numbers (image 10) (image 20 ∷ image 30 ∷ image 40 ∷ image 50 ∷ [])
      sources 2 3 (λ xs. xs) (codes "prediction") (codes "unique") none last (λ xs. Perm.refl xs)
      (omega arith) refl refl refl refl

create_all_lem_example :
    create_all numbers generator
    ≡ ok (
        processed numbers (image 10 ∷ image 20 ∷ [])
        ∷ processed numbers (image 30 ∷ image 40 ∷ [])
        ∷ [])
create_all_lem_example =
    create_all_lem numbers generator ((omega arith, (omega arith, tt)), refl) coloured

next_batch_lem_example :
    next_batch numbers generator (1 ∷ 0 ∷ [])
    ≡ ok (batch numbers generator (1 ∷ 0 ∷ []), pixels (batch numbers generator (1 ∷ 0 ∷ [])))
next_batch_lem_example =
    next_batch_lem numbers generator (1 ∷ 0 ∷ []) ((omega arith, (omega arith, tt)), refl) coloured
      (omega arith) (omega arith, (omega arith, tt)) (omega arith)
