-- ===== src/PyStager/Distributor/Jobs.antt =====
-- The job lists that `load_distributor` returns, and what a worker reads from its own.
use native.Mathlib.Nat.{zero-mod, mod-lt}
use mathlib.Core.List.{append_assoc, Perm, perm_middle}
use mathlib.Core.List.Perm
use mathlib.Core.Option.{some-injective}
use container_hackathon.Prelude.{ℕ, zero, suc, ◌+◌, ◌-◌, ◌<◌, ◌≤◌, ◌≡◌, refl, ap, ◌∙◌, ◌⊎◌}
use container_hackathon.Prelude.{Option, none, some, List, [], ◌∷◌, ◌++◌, arith, ◌==◌}
use container_hackathon.Prelude.{==_iff, length, take, All, take-length, inl, inr}
use container_hackathon.Prelude.{ok, false, Bool-cases, ◌%◌}
use container_hackathon.Prelude.Int.{ℤ, pos}
use container_hackathon.Prelude.Text.{Text, join, has_char, split_on, split_on-join}
use container_hackathon.Prelude.Dict.{Dict, lookup}
use container_hackathon.PyStager.Distributor.{semicolon, from_keys, load_distributor, assign_all}
use container_hackathon.PyStager.Distributor.Sharing.{
  every_from, add_jobs, Keyed, Shared, assign_all_lem,
}

-- The text for some items: nothing for none, else the items joined by semicolons.
abbrev pub job_text : List Text → Option Text
job_text [] = none
job_text (x ∷ xs) = some (join semicolon (x ∷ xs))

join-add :
    (old x : Text) (xs : List Text)
    → join semicolon ((old ++ (semicolon ∷ x)) ∷ xs) ≡ join semicolon (old ∷ x ∷ xs)
join-add old x [] = refl
join-add old x (y ∷ ys) = append_assoc old (semicolon ∷ x) (semicolon ∷ join semicolon (y ∷ ys))

add_jobs-some :
    (old : Text) (xs : List Text) → add_jobs (some old) xs ≡ some (join semicolon (old ∷ xs))
unfolding add_jobs
add_jobs-some old [] = refl
add_jobs-some old (x ∷ xs) = add_jobs-some (old ++ (semicolon ∷ x)) xs ∙ ap some (join-add old x xs)

add_jobs-none : (xs : List Text) → add_jobs none xs ≡ job_text xs
unfolding add_jobs
add_jobs-none [] = refl
add_jobs-none (x ∷ xs) = add_jobs-some x xs

lookup-from_keys :
    (w first k : ℕ) → first ≤ w → w < first + k → lookup w (from_keys first k) ≡ some none
lookup-from_keys w first zero ge lt = absurd (omega arith)
lookup-from_keys w first (suc k) ge lt = ground (arith, lookup-from_keys w (first + 1) k)

pub from_keys-Keyed : (k : ℕ) → Keyed k (from_keys 1 k)
from_keys-Keyed k w wpos le = (none, lookup-from_keys w 1 k wpos (omega arith))

-- The items of worker `w` among `k`: those at the positions w - 1, w - 1 + k, w - 1 + 2k, …
abbrev pub share : ℕ → ℕ → List Text → List Text
share k w items = every_from k (w - 1) 0 items

-- The result of the loop from its start.
abbrev pub IsDistribution : ℕ → List Text → Dict (Option Text) → Type 0
IsDistribution k items d = (w : ℕ) → 0 < w → w ≤ k → lookup w d ≡ some (job_text (share k w items))

pub assign_all_start :
    (items : List Text) (k n : ℕ)
    → 0 < k
    → n ≤ length items
    → (d : Dict (Option Text)) × (assign_all items (suc k) n 0 1 (from_keys 1 k) ≡ ok d)
      × IsDistribution k (take n items) d
assign_all_start items k n many enough = (
  s.result,
  rw zero-mod at s.done,
  λ w wpos le.
      s.shared w wpos none (lookup-from_keys w 1 k wpos (omega arith))
      ∙ ap some (add_jobs-none (share k w (take n items))),
)
  where
    s : Shared items items k n 0 (from_keys 1 k)
    s = assign_all_lem items items k n 0 (from_keys 1 k) many refl enough (from_keys-Keyed k)

assign_all_whole :
    (items : List Text) (k : ℕ)
    → 0 < k
    → (d : Dict (Option Text)) × (assign_all items (suc k) (length items) 0 1 (from_keys 1 k)
        ≡ ok d)
      × IsDistribution k items d
assign_all_whole items k many =
    let (d, done, shared) = assign_all_start items k (length items) many (omega arith) in
    (d, done, rw take-length at shared)

pub pred_suc : (k : ℕ) → suc k - 1 ≡ k
pred_suc k = omega arith

-- Where the count that the loop runs to is the number of items, and there is a worker, the loop of
-- either load level raises nothing; worker `w` of `k` gets the items at the positions w - 1,
-- w - 1 + k, w - 1 + 2k and so on, joined by semicolons, or None if there are none.
pub load_distributor_lem :
    (items : List Text) (files directories : ℕ) (level : ℤ) (k : ℕ)
    → 0 < k
    → ((level ≡ pos 0) × (directories ≡ length items)) ⊎ ((level ≡ pos 1) × (files ≡ length items))
    → (d : Dict (Option Text)) × (load_distributor items files directories level (suc k) ≡ ok d)
      × IsDistribution k items d
unfolding load_distributor
load_distributor_lem items files directories level k many (inl (l, c)) =
    rw (l, c, pred_suc k) (assign_all_whole items k many)
load_distributor_lem items files directories level k many (inr (l, c)) =
    rw (l, c, pred_suc k) (assign_all_whole items k many)

-- A worker splits its text at the semicolons. Where no item holds one, it finds exactly its items.
pub split_on-job_text :
    (xs : List Text) (t : Text)
    → All (λ x. has_char semicolon x ≡ false) xs
    → job_text xs ≡ some t
    → split_on semicolon t ≡ xs
split_on-job_text [] t clean e = cc
split_on-job_text (x ∷ xs) t clean e =
    rw (← some-injective (join semicolon (x ∷ xs)) t e) (split_on-join semicolon x xs clean)

pub every_from-All {κ} :
    (P : Text → Type κ) (k r i : ℕ) (xs : List Text) → All P xs → All P (every_from k r i xs)
unfolding every_from
every_from-All P k r i [] all = tt
every_from-All P k r i (x ∷ xs) all = elim (Bool-cases ((i % k) == r)) [
  | inl here ↦ rw here (all.0, every_from-All P k r (suc i) xs all.1)
  | inr other ↦ rw other (every_from-All P k r (suc i) xs all.1)
]

-- The shares of the workers 1 to `m` among `k`, one after the other.
unfoldable pub shares : ℕ → ℕ → ℕ → List Text → List Text
shares k zero i xs = []
shares k (suc m) i xs = shares k m i xs ++ every_from k m i xs

shares-nil : (k m i : ℕ) → shares k m i [] ≡ []
unfolding shares every_from
shares-nil k zero i = refl
shares-nil k (suc m) i = rw (shares-nil k m i)

shares-cons :
    (k m i : ℕ) (x : Text) (xs : List Text)
    → ((m ≤ i % k) × (shares k m i (x ∷ xs) ≡ shares k m (suc i) xs))
      ⊎ ((i % k < m) × Perm (shares k m i (x ∷ xs)) (x ∷ shares k m (suc i) xs))
unfolding shares every_from
shares-cons k zero i x xs = inl (omega arith, refl)
shares-cons k (suc m) i x xs = elim (shares-cons k m i x xs) [
  | inl (le, e) ↦ elim (Bool-cases ((i % k) == m)) [
    | inl here ↦ inr (
      omega (arith, (==_iff (i % k) m).0 here),
      rw (here, e) (perm_middle (shares k m (suc i) xs) (every_from k m (suc i) xs)),
    )
    | inr other ↦ inl (ground arith, rw (other, e))
  ]
  | inr (lt, p) ↦ elim (Bool-cases ((i % k) == m)) [
    | inl here ↦ absurd (omega (arith, (==_iff (i % k) m).0 here))
    | inr other ↦ inr (omega arith, rw other (Perm.append_right (every_from k m (suc i) xs) p))
  ]
]

-- Every item is in exactly one share, as often as it is listed.
pub shares-perm : (k i : ℕ) (xs : List Text) → 0 < k → Perm (shares k k i xs) xs
unfolding shares every_from
shares-perm k i [] many = rw (shares-nil k k i) (Perm.refl [])
shares-perm k i (x ∷ xs) many = elim (shares-cons k k i x xs) [
  | inl (le, e) ↦ absurd (omega (arith, mod-lt i many))
  | inr (lt, p) ↦ Perm.trans p (Perm.cons x (shares-perm k (suc i) xs many))
]
