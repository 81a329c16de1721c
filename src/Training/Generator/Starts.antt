-- ===== src/Training/Generator/Starts.antt =====
-- The starts of sequences that `SequenceGenerator` finds in the mode `unique`.
use container_hackathon.Prelude.{
  ℕ, zero, suc, ◌+◌, ◌-◌, ◌<◌, ◌≤◌, ◌≡◌, sym, subst, if◌then◌else◌, dec_lt, ℕ_discrete, ◌∙◌, ap,
  Bool, true, false, ◌⊎◌, inl, inr, arith,
}
use container_hackathon.Prelude.{
  none, some, List, [], ◌∷◌, ◌++◌, length, get_elem?, get_elem?-of_lt, All,
}
use container_hackathon.Prelude.{Bool-cases, ltb, range, ok}
use container_hackathon.Prelude.Text.{Text, codes, text_eq, text_eq_iff}
use container_hackathon.Training.Generator.{
  item_before, same_source, all_starts, unique_loop, mode_starts,
}
use mathlib.Core.List.{append_assoc, append-nil}

-- In ascending order from `lo` on, each at least `nt` after the one before.
unfoldable pub IsSpaced : (nt lo : ℕ) → List ℕ → Type 0
IsSpaced nt lo [] = Unit
IsSpaced nt lo (s ∷ starts) = (lo ≤ s) × IsSpaced nt (s + nt) starts

-- One of the sequences has the image `i`.
unfoldable pub IsCovered : (nt i : ℕ) → List ℕ → Type 0
IsCovered nt i [] = ⊥
IsCovered nt i (s ∷ starts) = ((s ≤ i) × (i < s + nt)) ⊎ IsCovered nt i starts

-- `nt` images from `s` on are there, and the first and the last have the same source.
abbrev pub IsStart : List Text → (nt s : ℕ) → Type 0
IsStart sources nt s =
    (s + nt ≤ length sources) × (get_elem? sources s ≡ get_elem? sources (s + nt - 1))

item_before_lem {ℓ} :
    {A : Type ℓ} (xs : List A) (k : ℕ) → 0 < k → item_before xs k ≡ get_elem? xs (k - 1)
item_before_lem xs zero h = absurd (omega arith)
item_before_lem xs (suc k) h = ap (get_elem? xs) (omega arith)

module _ (sources : List Text) (nt : ℕ) (positive : 0 < nt) where
  same_source-texts :
      (c : ℕ) (a b : Text)
      → get_elem? sources c ≡ some a
      → get_elem? sources (c + nt - 1) ≡ some b
      → same_source sources nt c ≡ ok (text_eq a b)
  unfolding same_source
  same_source-texts c a b ha hb = rw (item_before_lem sources (c + nt) (omega arith), ha, hb)

  -- What the comparison gives, where both images are there.
  same_source_lem :
      (c : ℕ)
      → c + nt ≤ length sources
      → ((same_source sources nt c ≡ ok true) × IsStart sources nt c)
        ⊎ ((same_source sources nt c ≡ ok false) × (IsStart sources nt c → ⊥))
  same_source_lem c h =
      let (a, ha) = get_elem?-of_lt sources c (omega arith) in
      let (b, hb) = get_elem?-of_lt sources (c + nt - 1) (omega arith) in
      elim (Bool-cases (text_eq a b)) [
        | inl e ↦ inl (
          same_source-texts c a b ha hb ∙ ap ok e,
          (h, ha ∙ ap some ((text_eq_iff a b).0 e) ∙ sym hb),
        )
        | inr e ↦ inr (
          same_source-texts c a b ha hb ∙ ap ok e,
          λ start.
              let together : some a ≡ some b = sym ha ∙ start.1 ∙ hb in
              let same : text_eq a b ≡ true = (text_eq_iff a b).1 cc in cc,
        )
      ]

  unfoldable IsFound : (c : ℕ) → List ℕ → Type 0
  IsFound c new =
      IsSpaced nt c new
      × All (IsStart sources nt) new
      × ((i : ℕ) → c ≤ i → IsStart sources nt i → IsCovered nt i new)

  module _ (fuel c : ℕ) (acc : List ℕ) where
    unique_loop-over :
        length sources < c + nt
        → unique_loop sources (length sources) nt (suc fuel) c acc ≡ some (ok acc)
    unfolding unique_loop
    unique_loop-over over = ground arith

    unique_loop-next :
        (same : Bool)
        → c + nt ≤ length sources
        → same_source sources nt c ≡ ok same
        → unique_loop sources (length sources) nt (suc fuel) c acc
          ≡ unique_loop sources
              (length sources)
              nt
              fuel
              (if same then c + nt else c + 1)
              (if same then acc ++ (c ∷ []) else acc)
    unfolding unique_loop
    unique_loop-next same room e = ground arith

  IsFound-over : (c : ℕ) → length sources < c + nt → IsFound c []
  unfolding IsFound IsSpaced IsCovered
  IsFound-over c over = (tt, tt, λ i le start. absurd (omega (arith, start.0)))

  IsFound-of_start :
      (c : ℕ) (new : List ℕ) → IsStart sources nt c → IsFound (c + nt) new → IsFound c (c ∷ new)
  unfolding IsFound IsSpaced IsCovered
  IsFound-of_start c new start (spaced, starts, covered) = (
    (omega arith, spaced),
    (start, starts),
    λ i le other. elim (dec_lt i (c + nt)) [
      | yes before ↦ inl (le, before)
      | no after ↦ inr (covered i (omega arith) other)
    ],
  )

  IsSpaced-of_le : (lo c : ℕ) (new : List ℕ) → lo ≤ c → IsSpaced nt c new → IsSpaced nt lo new
  unfolding IsSpaced
  IsSpaced-of_le lo c [] le h = tt
  IsSpaced-of_le lo c (s ∷ new) le h = (omega (arith, h.0), h.1)

  IsFound-passed :
      (c : ℕ) (new : List ℕ) → (IsStart sources nt c → ⊥) → IsFound (c + 1) new → IsFound c new
  unfolding IsFound
  IsFound-passed c new none_here (spaced, starts, covered) = (
    IsSpaced-of_le c (c + 1) new (omega arith) spaced,
    starts,
    λ i le start. elim (ℕ_discrete i c) [
      | yes e ↦ absurd (none_here (subst (λ j. IsStart sources nt j) e start))
      | no ne ↦ covered i (omega arith) start
    ],
  )

  unique_loop_lem :
      (fuel c : ℕ) (acc : List ℕ)
      → c ≤ length sources
      → length sources < c + fuel
      → (new : List ℕ) × (unique_loop sources (length sources) nt fuel c acc
          ≡ some (ok (acc ++ new)))
        × IsFound c new
  unique_loop_lem zero c acc inside enough = absurd (omega arith)
  unique_loop_lem (suc fuel) c acc inside enough = elim (dec_lt (length sources) (c + nt)) [
    | yes over ↦ (
      [],
      unique_loop-over fuel c acc over ∙ ap (λ xs. some (ok xs)) (sym (append-nil acc)),
      IsFound-over c over,
    )
    | no room ↦ elim (same_source_lem c (omega arith)) [
      | inl (same, start) ↦
          let (new, run, found) =
            unique_loop_lem fuel (c + nt) (acc ++ (c ∷ [])) (omega arith) (omega arith) in
          (
            c ∷ new,
            unique_loop-next fuel c acc true (omega arith) same
                ∙ run
                ∙ ap (λ xs. some (ok xs)) (append_assoc acc (c ∷ []) new),
            IsFound-of_start c new start found,
          )
      | inr (same, none_here) ↦
          let (new, run, found) = unique_loop_lem fuel (c + 1) acc (omega arith) (omega arith) in
          (
            new,
            unique_loop-next fuel c acc false (omega arith) same ∙ run,
            IsFound-passed c new none_here found,
          )
    ]
  ]

  -- For sequences of at least one image, with a source for each image, the loop of the mode `unique`
  -- ends in time. Its starts ascend by at least `nt`, so that no image is in two sequences; each
  -- sequence is inside the images, with the same source at both ends; and every image at which such
  -- a sequence could start is in one of the sequences.
  pub unique_starts :
      (new : List ℕ) × (mode_starts (codes "unique") sources (length sources) nt ≡ some (ok new))
      × IsSpaced nt 0 new
      × All (IsStart sources nt) new
      × ((i : ℕ) → IsStart sources nt i → IsCovered nt i new)
  unfolding mode_starts IsFound
  unique_starts =
      let (new, run, (spaced, starts, covered)) =
        unique_loop_lem (length sources + 1) 0 [] (omega arith) (omega arith) in
      (new, run, spaced, starts, λ i start. covered i (omega arith) start)

get_elem?-range :
    (first k i : ℕ) → get_elem? (range first k) i ≡ (if ltb i k then some (first + i) else none)
get_elem?-range first zero i = ground arith
get_elem?-range first (suc k) zero = ground arith
get_elem?-range first (suc k) (suc i) =
    let shifted : first + 1 + i ≡ first + suc i = omega arith in
    ground (arith, get_elem?-range (first + 1) k i, shifted)

-- The mode `all` has the start `i` at place `i`, whatever the sources are, exactly if an image is
-- left after the sequence: the last sequence that the images have, which ends with them, is not found.
pub get_elem?-all_starts :
    (images nt i : ℕ)
    → get_elem? (all_starts images nt) i ≡ (if ltb (i + nt) images then some i else none)
unfolding all_starts
get_elem?-all_starts images nt i = get_elem?-range 0 (images - nt) i ∙ ground arith
